-- ===== src/Offer/Keys.antt =====
-- `parseKeys`, `matchScript` and `matchKeys`: the keys with which a channel was funded. Scripts are
-- made by lnd's `input` and btcd, a parameter.
pub mod Found
pub mod Complete
use chantools.Prelude.{
  ℕ, zero, suc, ◌+◌, ◌%◌, ◌^◌, List, [], ◌∷◌, ◌++◌, Bool, true, false, Option, none, some, Result,
  ok, err, panic, ◌>>=◌, if◌then◌else◌, wrap, map,
}
use chantools.Prelude.Text.{Text, text_eq}
use chantools.HdKeychain.Derive.{KeyLib}
use chantools.HdKeychain.Address.{
  AddressKind, witness_pub_key_hash, witness_script_hash, taproot, other_kind, AddressLib,
  AddressError, parse_address,
}
use chantools.Offer.Files.{Channel}

pub record ScriptLib (K : KeyLib) : Type 0 where
  -- `input.GenMultiSigScript` on the serialized keys
  pub gen_multi_sig_script : K.PublicKey → K.PublicKey → Option Text
  pub witness_script_hash_of : Text → Option Text
  -- the script of `input.GenTaprootFundingScript`
  pub gen_taproot_funding_script : K.PublicKey → K.PublicKey → Option Text
  pub pub_key_from_hex : Text → Option K.PublicKey

pub data MatchError : Type 0 where
  address_failed : AddressError → MatchError
  script_failed unsupported_type bad_key : MatchError
  no_matching_keys : Text → MatchError

abbrev pub or_fail : {A : Type 0} → Option A → MatchError → Result MatchError A
or_fail none e = err e
or_fail (some a) e = ok a

-- The result of `matchScript`: whether the keys match, the witness script (nil for a taproot
-- channel) and the script of the output.
pub record Scripts : Type 0 where
  pub is_match : Bool
  pub witness_script : Option Text
  pub pk_script : Text

module _ (K : KeyLib) (L : AddressLib K) (S : ScriptLib K) where
  -- `parseKeys`
  unfoldable pub parse_keys : List Text → Result MatchError (List K.PublicKey)
  parse_keys [] = ok []
  parse_keys (key ∷ keys) = do
    pub_key ← or_fail (S.pub_key_from_hex key) bad_key
    pub_keys ← parse_keys keys
    ok (pub_key ∷ pub_keys)

  -- The type switch of `matchScript`.
  scripts_for : AddressKind → Text → K.PublicKey → K.PublicKey → Result MatchError Scripts
  scripts_for witness_script_hash channel_script key1 key2 = do
    witness_script ← or_fail (S.gen_multi_sig_script key1 key2) script_failed
    pk_script ← or_fail (S.witness_script_hash_of witness_script) script_failed
    ok (record {
      is_match = text_eq channel_script pk_script;
      witness_script = some witness_script;
      pk_script = pk_script;
    })
  scripts_for taproot channel_script key1 key2 = do
    pk_script ← or_fail (S.gen_taproot_funding_script key1 key2) script_failed
    ok (record {
      is_match = text_eq channel_script pk_script;
      witness_script = none;
      pk_script = pk_script;
    })
  scripts_for witness_pub_key_hash channel_script key1 key2 = err unsupported_type
  scripts_for other_kind channel_script key1 key2 = err unsupported_type

  unfoldable pub match_script : Text → K.PublicKey → K.PublicKey → Result MatchError Scripts
  unfolding scripts_for
  match_script address key1 key2 = do
    addr ← wrap address_failed (parse_address K L address)
    channel_script ← or_fail (L.pay_to_addr_script addr) script_failed
    scripts_for (L.kind addr) channel_script key1 key2

-- What `matchKeys` sets in a channel.
pub record Keyed (K : KeyLib) : Type 0 where
  pub channel : Channel
  pub our_key_index : ℕ
  pub our_key : K.PublicKey
  pub their_key : K.PublicKey
  pub witness_script : Option Text
  pub pk_script : Text

module _ (K : KeyLib)
    (match_one : Text → K.PublicKey → K.PublicKey → Result MatchError Scripts) where
  keyed : Channel → ℕ → K.PublicKey → K.PublicKey → Scripts → Keyed K
  keyed channel idx our_key their_key s = record {
    channel = channel;
    our_key_index = idx % 2 ^ 32;
    our_key = our_key;
    their_key = their_key;
    witness_script = s.witness_script;
    pk_script = s.pk_script;
  }

  -- The inner loop, over the peer's keys.
  unfoldable pub try_theirs :
      Channel → ℕ → K.PublicKey → List K.PublicKey → Result MatchError (Option (Keyed K))
  unfolding keyed
  try_theirs channel idx our_key [] = ok none
  try_theirs channel idx our_key (their_key ∷ theirs) = do
    s ← match_one channel.address our_key their_key
    let rest = try_theirs channel idx our_key theirs
    if s.is_match then ok (some (keyed channel idx our_key their_key s)) else rest

  -- The loop over our keys; the first match ends it.
  unfoldable pub try_ours :
      Channel → ℕ → List K.PublicKey → List K.PublicKey → Result MatchError (Option (Keyed K))
  try_ours channel idx [] theirs = ok none
  try_ours channel idx (our_key ∷ ours) theirs = do
    found ← try_theirs channel idx our_key theirs
    let rest = try_ours channel (idx + 1) ours theirs
    elim found [ some k ↦ ok (some k) | none ↦ rest ]

  unfoldable pub match_channel :
      Channel → List K.PublicKey → List K.PublicKey → Result MatchError (Keyed K)
  match_channel channel ours theirs = do
    found ← try_ours channel 0 ours theirs
    or_fail found (no_matching_keys channel.chan_point)

  -- `matchKeys`
  unfoldable pub match_keys :
      List Channel → List K.PublicKey → List K.PublicKey → Result MatchError (List (Keyed K))
  match_keys [] ours theirs = ok []
  match_keys (channel ∷ channels) ours theirs = do
    k ← match_channel channel ours theirs
    ks ← match_keys channels ours theirs
    ok (k ∷ ks)
