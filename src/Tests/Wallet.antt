-- ===== src/Tests/Wallet.antt =====
-- The addresses and the rescue of channels at concrete inputs.
use chantools.Prelude.{ℕ, List, [], ◌∷◌, some, none, ok, ◌≡◌, inl, refl, true, false, All}
use chantools.Prelude.Text.{Text, text_eq}
use chantools.HdKeychain.Path.{hardened_key}
use chantools.HdKeychain.Derive
use chantools.HdKeychain.Derive.{derive_children}
use chantools.HdKeychain.Address.{
  p2wkh, match_addr_type, allows, check_address, get_p2wpkh_script, parse_address,
  decode_address_hash,
}
use chantools.Dataformat.{ClosingTx, SummaryEntry}
use chantools.Rescue.{
  CacheEntry, fill_from, fill_cache, candidate, find_from, addr_in_cache, attempt, or_next,
  try_points,
}
use chantools.Rescue.Channels.{
  rescue_closed_channel, rescue_closed_channels, rescue_loop, rescue_closing, is_skipped,
  rescue_addr, store, put, check_kind, or_static,
}
use chantools.Rescue.Complete.{rescue_closed_channel_complete}
use chantools.Rescue.Channels.Found.{rescue_closed_channels-AllRescued, AllRescued, IsKeyOf}
use chantools.Tests.{keys, addresses, consts, tweaks, tweaks-PairLaws}

checked : check_address keys addresses (5 ∷ []) false (p2wkh ∷ []) ≡ ok tt
unfolding check_address parse_address match_addr_type allows
checked = refl

p2wpkh_script : get_p2wpkh_script keys addresses (5 ∷ []) ≡ ok (0 ∷ 5 ∷ [])
unfolding get_p2wpkh_script decode_address_hash parse_address
p2wpkh_script = refl

-- A payment base key.
abbrev base_key : ℕ → List ℕ
base_key i = i ∷ 0 ∷ 2147483651 ∷ 2147483648 ∷ 2147484665 ∷ []

abbrev entry_at : ℕ → CacheEntry keys
entry_at i = record {
  priv_key = base_key i;
  key_desc = record { locator = record { family = 3; index = i }; pub_key = some (base_key i) };
}

filled : fill_cache keys consts 2 [] ≡ ok (entry_at 0 ∷ entry_at 1 ∷ [])
unfolding fill_cache fill_from derive_children Derive.derive_loop Derive.next_id Derive.settle
    Derive.key_id hardened_key
filled = refl

decoded : decode_address_hash keys addresses (9 ∷ base_key 1) ≡ ok (9 ∷ base_key 1, false)
unfolding decode_address_hash parse_address
decoded = refl

rescued :
    rescue_closed_channel keys tweaks addresses consts
      (λ a. a)
      2
      []
      (9 ∷ base_key 1)
      (some (9 ∷ []))
    ≡ ok (9 ∷ base_key 1)
unfolding rescue_closed_channel check_kind or_static attempt addr_in_cache find_from candidate
    text_eq fill_cache fill_from derive_children Derive.derive_loop Derive.next_id Derive.settle
    Derive.key_id hardened_key decode_address_hash parse_address
rescued = refl

tweaked_pair :
    candidate keys tweaks (some (9 ∷ [])) (entry_at 1) ≡ ok (9 ∷ base_key 1, 9 ∷ base_key 1)
unfolding candidate
tweaked_pair = refl

rescue_closed_channel_complete_example :
    (w : Text) × (rescue_closed_channel keys tweaks addresses consts
        (λ a. a)
        2
        []
        (9 ∷ base_key 1)
        (some (9 ∷ []))
      ≡ ok w)
rescue_closed_channel_complete_example =
    rescue_closed_channel_complete keys tweaks tweaks-PairLaws (λ p. (p, refl)) addresses consts
      (λ a. a) 2 [] (9 ∷ base_key 1) (some (9 ∷ [])) (some (9 ∷ [])) (entry_at 0 ∷ entry_at 1 ∷ [])
      (9 ∷ base_key 1) 1 refl refl decoded filled refl (inl refl) tweaked_pair refl

abbrev closing : ClosingTx
closing = record {
  txid = 1 ∷ [];
  force_close = true;
  all_outs_spent = false;
  our_addr = 9 ∷ base_key 1;
  to_remote_addr = [];
  sweep_privkey = [];
  conf_height = 700000;
}

abbrev channel : SummaryEntry
channel = record {
  remote_pubkey = 2 ∷ [];
  channel_point = 3 ∷ [];
  funding_txid = 4 ∷ [];
  funding_tx_index = 0;
  capacity = 100000;
  initiator = true;
  local_balance = 40000;
  remote_balance = 60000;
  chan_exists = true;
  has_potential = true;
  local_unrevoked_commit_point = [];
  closing_tx = some closing;
  force_close = none;
}

abbrev swept : SummaryEntry
swept = record channel { closing_tx = some (record closing { sweep_privkey = 9 ∷ base_key 1 }) }

all_rescued :
    rescue_closed_channels keys tweaks addresses consts 2 []
      (channel ∷ swept ∷ [])
      ((8 ∷ []) ∷ (9 ∷ []) ∷ [])
    ≡ ok (swept ∷ swept ∷ [], (9 ∷ base_key 1, 9 ∷ base_key 1) ∷ [])
unfolding rescue_closed_channels rescue_loop rescue_closing is_skipped rescue_addr store put
    try_points or_next attempt addr_in_cache find_from candidate text_eq fill_cache fill_from
    derive_children Derive.derive_loop Derive.next_id Derive.settle Derive.key_id hardened_key
    decode_address_hash parse_address
all_rescued = refl

rescue_closed_channels-AllRescued_example :
    AllRescued keys tweaks tweaks-PairLaws addresses (channel ∷ swept ∷ []) (swept ∷ swept ∷ [])
    × All (IsKeyOf keys tweaks tweaks-PairLaws addresses) ((9 ∷ base_key 1, 9 ∷ base_key 1) ∷ [])
rescue_closed_channels-AllRescued_example =
    rescue_closed_channels-AllRescued keys tweaks tweaks-PairLaws addresses consts 2 []
      (channel ∷ swept ∷ []) ((8 ∷ []) ∷ (9 ∷ []) ∷ []) all_rescued
