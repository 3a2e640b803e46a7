-- ===== src/Tests/Pools.antt =====
-- The search for a Pool account at a concrete script.
use chantools.Prelude.{◌<◌, List, [], ◌∷◌, ◌++◌, false, none, some, ok, ◌≡◌, refl, arith}
use chantools.Prelude.Text.{Text, text_eq}
use chantools.Pool.{
  witness_v0_script_hash, version_witness_script, ScriptOp, add_data, add_int64, op_checksigverify,
  op_checksig, op_ifdup, op_notif, op_checklocktimeverify, op_endif, PoolLib, PoolAccount,
  end_block, block_loop, before, or_next, is_class, check_class, try_script, fast_script,
  fast_script_taproot, batch_loop, account_keys, or_account, account_loop,
  brute_force_account_script,
}
use chantools.Pool.Search.{Recovered, brute_force_account_script-Recovered}
use chantools.Pool.Ends.{Ends, brute_force_account_script-Ends}
use chantools.HdKeychain.Ecdh.{ecdh}
use chantools.Tests.{keys, shared_keys}

-- A script is its data and numbers.
abbrev encode : List ScriptOp → Text
encode [] = []
encode (add_data s ∷ ops) = s ++ encode ops
encode (add_int64 n ∷ ops) = n ∷ encode ops
encode (op_checksigverify ∷ ops) = encode ops
encode (op_checksig ∷ ops) = encode ops
encode (op_ifdup ∷ ops) = encode ops
encode (op_notif ∷ ops) = encode ops
encode (op_checklocktimeverify ∷ ops) = encode ops
encode (op_endif ∷ ops) = encode ops

abbrev pools : PoolLib keys
pools = record {
  script_class = λ s. some witness_v0_script_hash;
  build_script = λ ops. some (encode ops);
  witness_script_hash = λ s. some s;
  tap_hash = λ s. s;
  musig2_combine_keys = λ version auctioneer trader tweak. none;
  control_block = λ key odd. none;
  is_odd = λ key. false;
  serialize_compressed = λ key. key;
  serialize_schnorr = λ key. key;
  parse_schnorr = λ s. some s;
  pub_key_of = λ key. key;
  trader_key_tweak = λ batch secret trader. batch ++ secret;
  tweak_pub_key_with_tweak = λ key tweak. tweak ++ key;
  tweak_pub_key = λ base commit. base;
  increment_key = λ key. 1 ∷ key;
  ecdh_lib = record shared_keys { scalar_mult = λ priv key. key };
  initial_batch_key = [];
}

-- The account number 1 with the second batch key, at block 6; the auctioneer's key is 8.
abbrev lost : PoolAccount
lost = record {
  key_index = 1;
  expiry = 6;
  shared_key = 8 ∷ [];
  batch_key = 1 ∷ [];
  key_tweak = 1 ∷ 8 ∷ [];
  witness_script = 1 ∷ 8 ∷ 1 ∷ 8 ∷ 6 ∷ [];
  control_block = [];
  version = version_witness_script;
}

abbrev target : Text
target = 1 ∷ 8 ∷ 1 ∷ 8 ∷ 6 ∷ []

search_run : brute_force_account_script keys pools (8 ∷ []) target 9 4 7 [] 2 3 ≡ some (ok lost)
unfolding brute_force_account_script account_loop account_keys ecdh or_account batch_loop
    fast_script check_class is_class try_script before or_next block_loop end_block text_eq
    fast_script_taproot
search_run = refl

brute_force_account_script-Recovered_example :
    (p : Recovered keys pools (8 ∷ []) target 9 4 7 (omega arith) [] 3 lost) × (p.number < 2)
brute_force_account_script-Recovered_example =
    brute_force_account_script-Recovered keys pools (8 ∷ []) target 9 4 7 (omega arith) [] 2 3 lost
      search_run

brute_force_account_script-Ends_example :
    Ends (brute_force_account_script keys pools (8 ∷ []) target 9 4 7 [] 2 3)
brute_force_account_script-Ends_example =
    brute_force_account_script-Ends keys pools (8 ∷ []) target 9 4 7 (omega arith) (omega arith) []
      2 3
