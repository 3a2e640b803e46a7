-- ===== src/Tests/Remote.antt =====
-- The sweep of a channel that the peer closed, at a concrete answer of the explorer.
use chantools.Prelude.{
  ℕ, List, [], ◌∷◌, true, false, none, some, ok, err, panic, ◌≡◌, ◌≢◌, ◌⊎◌, refl, sym, arith,
  if◌then◌else◌, All,
}
use chantools.Prelude.Text.{text_eq}
use chantools.HdKeychain.Path.{hardened_key}
use chantools.HdKeychain.Path.Printed.{parse_path-multisig_path}
use chantools.HdKeychain.Derive.{derive_children, derive_loop, next_id, settle, key_id}
use chantools.HdKeychain.Address.{AddressKind, witness_pub_key_hash, witness_script_hash, taproot}
use chantools.Explorer.{Api, VoutData, tx_not_found, unspent}
use chantools.Offer.Files.{is_nil}
use chantools.Rescue.{fill_cache, fill_from}
use chantools.RemoteClosed.{
  RemoteLib, TargetAddr, p2_anchor_static_remote, p2_taproot_static_remote, found_target,
  query_addr, query_address_balances, payment_key, targets_from,
}
use chantools.RemoteClosed.Ancient.{
  check_ancient_channel_points, find_ancient_channels, ancient_targets, tolerate, find_targets_lnd,
}
use chantools.RemoteClosed.Sweep.{sweep_remote_closed}
use chantools.RemoteClosed.Owned.{OwnedTarget}
use chantools.RemoteClosed.Tweaked.{TweakedTarget, find_targets_lnd-OwnedTarget}
use chantools.RemoteClosed.Run.{KindLaws, find_targets_lnd-sweep}
use chantools.Tests.{keys, consts, tweaks, tweaks-PairLaws, kinds}

-- The kind of an address says which script it is of.
abbrev remote : RemoteLib keys kinds
remote = record {
  ScriptTree = List ℕ;
  pub_key_of = λ key. key;
  encode_address = λ a. a.1;
  address_string = λ a. a.1;
  commit_script_to_remote_confirmed = λ key. some (1 ∷ key);
  script_hash_address = λ script. some (witness_script_hash, script);
  new_remote_commit_script_tree = λ key. some (2 ∷ key);
  taproot_address = λ tree. some (taproot, tree);
  control_block = λ tree. some tree;
  settle_script = λ tree. tree;
  tapscript_root = λ tree. tree;
  new_hash_from_str = λ s. some s;
  decode_hex = λ s. some s;
  parse_pub_key = λ s. some s;
  decode_main_net = λ s. some (witness_pub_key_hash, s);
  is_main_net = λ a. true;
}

first : (a b : AddressKind × List ℕ) → some a ≡ some b → a.0 ≡ b.0
first a b h = cc

remote-KindLaws : KindLaws keys kinds remote
remote-KindLaws = record {
  kind-p2wkh = λ key a h. sym (first (witness_pub_key_hash, key) a h);
  kind-script_hash = λ script a h. sym (first (witness_script_hash, script) a h);
  kind-taproot = λ tree a h. sym (first (taproot, tree) a h);
}

-- The first payment base key, and the anchor script of it.
abbrev payment : List ℕ
payment = 0 ∷ 0 ∷ 2147483651 ∷ 2147483648 ∷ 2147484665 ∷ []

abbrev paid : VoutData
paid = record {
  script_pubkey = [];
  script_pubkey_asm = [];
  script_pubkey_type = [];
  script_pubkey_addr = 1 ∷ payment;
  value = 7000;
}

-- The explorer knows one output, at the anchor address of that key.
abbrev explorer : Api
explorer = record {
  fetch_tx = λ txid. err tx_not_found;
  fetch_outspend = λ txid idx. ok (record { spent = false; txid = txid; vin = idx; status = none });
  fetch_address = λ addr. ok (record {
    chain_stats = record {
      funded_txo_sum = if text_eq addr (1 ∷ payment) then 7000 else 0;
      spent_txo_sum = 0;
    };
    mempool_stats = record { funded_txo_sum = 0; spent_txo_sum = 0 };
  });
  fetch_address_txs = λ addr. ok (record { txid = 5 ∷ []; vin = []; vout = paid ∷ [] } ∷ []);
}

abbrev found : TargetAddr keys kinds remote
found = record {
  addr = (witness_script_hash, 1 ∷ payment);
  key_desc = record { locator = record { family = 3; index = 0 }; pub_key = some payment };
  tweak = [];
  vouts = (5 ∷ [], 0, paid) ∷ [];
  script = 1 ∷ payment;
  script_tree = none;
}

search_run :
    find_targets_lnd keys kinds remote tweaks explorer [] consts (some []) [] 1 ≡ ok (found ∷ [])
unfolding find_targets_lnd targets_from payment_key query_address_balances query_addr found_target
    is_nil p2_anchor_static_remote p2_taproot_static_remote unspent text_eq
    check_ancient_channel_points find_ancient_channels ancient_targets tolerate fill_cache fill_from
    derive_children derive_loop next_id settle key_id hardened_key
search_run = rw (parse_path-multisig_path 0 3 0 (omega arith) (omega arith) (omega arith)) refl

find_targets_lnd-OwnedTarget_example :
    All
      (λ t.
        OwnedTarget keys kinds remote explorer [] consts [] refl (omega arith) (omega arith) 1 t
        ⊎ TweakedTarget keys tweaks tweaks-PairLaws kinds remote explorer t)
      (found ∷ [])
find_targets_lnd-OwnedTarget_example =
    find_targets_lnd-OwnedTarget keys tweaks tweaks-PairLaws kinds remote explorer [] consts [] refl
      (omega arith) (omega arith) (some []) 1 (found ∷ []) (omega arith) search_run

find_targets_lnd-sweep_example :
    sweep_remote_closed keys kinds remote
      (λ is. 500)
      (λ is value spend desc idx. some [])
      (found ∷ [])
    ≢ panic
find_targets_lnd-sweep_example =
    find_targets_lnd-sweep keys kinds remote remote-KindLaws tweaks tweaks-PairLaws explorer []
      consts [] refl (omega arith) (omega arith) (some []) 1 (found ∷ []) (omega arith) search_run
      (λ is. 500) (λ is value spend desc idx. some [])
