-- ===== src/Pool.antt =====
-- cmd/chantools/closepoolaccount.go: the search for the keys and the expiry of a Pool account of which the
-- output's script is known. Scripts, MuSig2 and Pool's keys are made by other libraries, a parameter.
pub mod Found
pub mod Search
pub mod Ends
use chantools.Prelude.{
  ℕ, zero, suc, ◌+◌, ◌%◌, ◌^◌, List, [], ◌∷◌, Bool, true, false, not, Option, none, some, Result,
  ok, err, panic, ◌>>=◌, ◌>>◌, ltb, if◌then◌else◌,
}
use chantools.Prelude.Text.{Text, text_eq}
use chantools.HdKeychain.Derive.{KeyLib}
use chantools.HdKeychain.Ecdh.{EcdhLib, ecdh}

pub data ScriptClass : Type 0 where
  witness_v0_script_hash witness_v1_taproot other_class : ScriptClass

-- `poolscript.Version`
pub data Version : Type 0 where
  version_witness_script version_taproot_musig2 version_taproot_musig2_v100_rc2 : Version

pub data MuSig2Version : Type 0 where
  musig2_version040 musig2_version100_rc2 : MuSig2Version

-- What the code adds with a script builder.
pub data ScriptOp : Type 0 where
  add_data : Text → ScriptOp
  add_int64 : ℕ → ScriptOp
  op_checksigverify op_checksig op_ifdup op_notif op_checklocktimeverify op_endif : ScriptOp

pub record AggregateKey (K : KeyLib) : Type 0 where
  pub final_key : K.PublicKey
  pub pre_tweaked_key : K.PublicKey

pub record PoolLib (K : KeyLib) : Type 0 where
  -- `txscript.ParsePkScript` with `Class`
  pub script_class : Text → Option ScriptClass
  pub build_script : List ScriptOp → Option Text
  pub witness_script_hash : Text → Option Text
  -- `NewBaseTapLeaf(script).TapHash()`
  pub tap_hash : Text → Text
  -- `input.MuSig2CombineKeys` with the auctioneer's and the trader's key and a taproot tweak
  pub musig2_combine_keys :
      MuSig2Version → K.PublicKey → K.PublicKey → Text → Option (AggregateKey K)
  -- the control block of an internal key, with the parity of the output key
  pub control_block : K.PublicKey → Bool → Option Text
  pub is_odd : K.PublicKey → Bool
  pub serialize_compressed : K.PublicKey → Text
  pub serialize_schnorr : K.PublicKey → Text
  pub parse_schnorr : Text → Option K.PublicKey
  pub pub_key_of : K.PrivateKey → K.PublicKey
  pub trader_key_tweak : K.PublicKey → Text → K.PublicKey → Text
  pub tweak_pub_key_with_tweak : K.PublicKey → Text → K.PublicKey
  pub tweak_pub_key : K.PublicKey → K.PublicKey → K.PublicKey
  pub increment_key : K.PublicKey → K.PublicKey
  pub ecdh_lib : EcdhLib K
  pub initial_batch_key : K.PublicKey

pub record PoolAccount : Type 0 where
  pub key_index : ℕ
  pub expiry : ℕ
  pub shared_key : Text
  pub batch_key : Text
  pub key_tweak : Text
  pub witness_script : Text
  pub control_block : Text
  pub version : Version

pub data PoolError : Type 0 where
  bad_script incompatible_class build_failed hash_failed bad_key combine_failed
        control_block_failed :
      PoolError
  invalid_version derive_failed priv_key_failed shared_key_failed not_derived : PoolError

abbrev pub pool_try : {A : Type 0} → Option A → PoolError → Result PoolError A
pool_try none e = err e
pool_try (some a) e = ok a

abbrev pub drop : ℕ → Text → Text
drop zero s = s
drop (suc n) [] = []
drop (suc n) (c ∷ s) = drop n s

-- How a round of a loop over the blocks ends: with a result, or with the next block.
unfoldable pub end_block :
    {A : Type 0}
    → Result PoolError (Option A)
    → Option (Result PoolError A)
    → Option (Result PoolError A)
end_block (ok (some a)) next = some (ok a)
end_block (ok none) next = next
end_block (err e) next = some (err e)
end_block panic next = some panic

-- The loops over the blocks, whose counter is a `uint32`. `none` means that the loop still runs when its
-- fuel is used up.
unfoldable pub block_loop :
    {A : Type 0} → (ℕ → Result PoolError (Option A)) → ℕ → ℕ → ℕ → Option (Result PoolError A)
block_loop try_block zero block expiry_to = none
block_loop try_block (suc fuel) block expiry_to =
    let rest =
      end_block (try_block block) (block_loop try_block fuel ((block + 1) % 2 ^ 32) expiry_to) in
    if ltb expiry_to block then some (err not_derived) else rest

-- What stands before a loop: an error ends the call.
unfoldable pub before :
    {A B : Type 0}
    → Result PoolError A
    → (A → Option (Result PoolError B))
    → Option (Result PoolError B)
before (ok a) next = next a
before (err e) next = some (err e)
before panic next = some panic

-- A search whose error is not looked at: the next one follows.
unfoldable pub or_next :
    {A : Type 0}
    → Option (Result PoolError A)
    → Option (Result PoolError (Option A))
    → Option (Result PoolError (Option A))
or_next none next = none
or_next (some (ok a)) next = some (ok (some a))
or_next (some (err e)) next = next
or_next (some panic) next = some panic

module _ (K : KeyLib) (P : PoolLib K) where
  unfoldable pub is_class : ScriptClass → ScriptClass → Bool
  is_class witness_v0_script_hash witness_v0_script_hash = true
  is_class witness_v1_taproot witness_v1_taproot = true
  is_class _ _ = false

  -- The two checks at the head of the searches.
  unfoldable pub check_class : Text → ScriptClass → Result PoolError (Unit {0})
  check_class target wanted = do
    class ← pool_try (P.script_class target) bad_script
    if is_class class wanted then ok tt else err incompatible_class

  abbrev pub account_ops : K.PublicKey → K.PublicKey → ℕ → List ScriptOp
  account_ops tweaked_trader_key tweaked_auctioneer_key block =
      add_data (P.serialize_compressed tweaked_trader_key)
      ∷ op_checksigverify
      ∷ add_data (P.serialize_compressed tweaked_auctioneer_key)
      ∷ op_checksig
      ∷ op_ifdup
      ∷ op_notif
      ∷ add_int64 block
      ∷ op_checklocktimeverify
      ∷ op_endif
      ∷ []

  abbrev pub taproot_ops : K.PublicKey → ℕ → List ScriptOp
  taproot_ops tweaked_trader_key block =
      add_data (P.serialize_schnorr tweaked_trader_key)
      ∷ op_checksigverify
      ∷ add_int64 block
      ∷ op_checklocktimeverify
      ∷ []

  -- The keys as a version of MuSig2 wants them.
  unfoldable pub musig2_keys :
      Version
      → K.PublicKey
      → K.PublicKey
      → Result PoolError (MuSig2Version × K.PublicKey × K.PublicKey)
  musig2_keys version_witness_script auctioneer_key trader_key = err invalid_version
  musig2_keys version_taproot_musig2 auctioneer_key trader_key = do
    auctioneer ← pool_try (P.parse_schnorr (P.serialize_schnorr auctioneer_key)) bad_key
    trader ← pool_try (P.parse_schnorr (P.serialize_schnorr trader_key)) bad_key
    ok (musig2_version040, auctioneer, trader)
  musig2_keys version_taproot_musig2_v100_rc2 auctioneer_key trader_key =
      ok (musig2_version100_rc2, auctioneer_key, trader_key)

  module _ (target : Text) (key_index : ℕ) (trader_key auctioneer_key batch_key : K.PublicKey)
      (secret : Text) where
    abbrev pub tweak : Text
    tweak = P.trader_key_tweak batch_key secret trader_key

    abbrev pub tweaked_trader : K.PublicKey
    tweaked_trader = P.tweak_pub_key_with_tweak trader_key tweak

    abbrev pub tweaked_auctioneer : K.PublicKey
    tweaked_auctioneer = P.tweak_pub_key auctioneer_key tweaked_trader

    -- One block of `fastScript`.
    unfoldable pub try_script : ℕ → Result PoolError (Option PoolAccount)
    try_script block = do
      script ←
          pool_try (P.build_script (account_ops tweaked_trader tweaked_auctioneer block))
            build_failed
      pk_script ← pool_try (P.witness_script_hash script) hash_failed
      ok (
          if text_eq pk_script target
          then some (record {
            key_index = key_index;
            expiry = block;
            shared_key = secret;
            batch_key = P.serialize_compressed batch_key;
            key_tweak = tweak;
            witness_script = script;
            control_block = [];
            version = version_witness_script;
          })
          else none)

    -- What is returned for a block whose aggregate key is that of the target.
    unfoldable pub taproot_account :
        Version → ℕ → Text → AggregateKey K → Result PoolError (Option PoolAccount)
    taproot_account version block script key = do
      bytes ←
          pool_try (P.control_block key.pre_tweaked_key (P.is_odd key.final_key))
            control_block_failed
      ok (
          some (record {
            key_index = key_index;
            expiry = block;
            shared_key = secret;
            batch_key = P.serialize_compressed batch_key;
            key_tweak = tweak;
            witness_script = script;
            control_block = bytes;
            version = version;
          }))

    -- One block of `fastScriptTaproot`.
    unfoldable pub try_taproot :
        Version
        → MuSig2Version × K.PublicKey × K.PublicKey
        → ℕ
        → Result PoolError (Option PoolAccount)
    try_taproot version keys block = do
      script ← pool_try (P.build_script (taproot_ops tweaked_trader block)) build_failed
      key ← pool_try (P.musig2_combine_keys keys.0 keys.1 keys.2 (P.tap_hash script)) combine_failed
      (if text_eq (P.serialize_schnorr key.final_key) (drop 2 target)
          then taproot_account version block script key
          else ok none)

    unfoldable pub fast_script : ℕ → ℕ → ℕ → Option (Result PoolError PoolAccount)
    fast_script fuel expiry_from expiry_to =
        before (check_class target witness_v0_script_hash)
          (λ _. block_loop try_script fuel expiry_from expiry_to)

    unfoldable pub fast_script_taproot : Version → ℕ → ℕ → ℕ → Option (Result PoolError PoolAccount)
    fast_script_taproot version fuel expiry_from expiry_to =
        before
          (check_class target witness_v1_taproot >> musig2_keys version auctioneer_key trader_key)
          (λ keys. block_loop (try_taproot version keys) fuel expiry_from expiry_to)

  module _ (auctioneer_key : K.PublicKey) (target : Text) (fuel min_expiry max_expiry : ℕ) where
    -- The loop over the batch keys, `n` more of them.
    unfoldable pub batch_loop :
        ℕ → K.PublicKey → Text → ℕ → K.PublicKey → Option (Result PoolError (Option PoolAccount))
    batch_loop i trader_key shared_key zero batch_key = some (ok none)
    batch_loop i trader_key shared_key (suc n) batch_key =
        or_next
          (fast_script target i trader_key auctioneer_key batch_key shared_key fuel min_expiry
            max_expiry)
          (or_next
            (fast_script_taproot target i trader_key auctioneer_key batch_key shared_key
              version_taproot_musig2 fuel min_expiry max_expiry)
            (or_next
              (fast_script_taproot target i trader_key auctioneer_key batch_key shared_key
                version_taproot_musig2_v100_rc2 fuel min_expiry max_expiry)
              (batch_loop i trader_key shared_key n (P.increment_key batch_key))))

    -- The private key of an account and the secret that it shares with the auctioneer.
    unfoldable pub account_keys : K.ExtendedKey → ℕ → Result PoolError (K.PrivateKey × Text)
    account_keys account_base_key i = do
      extended_key ← pool_try (K.derive_non_standard account_base_key i) derive_failed
      priv_key ← pool_try (K.ec_priv_key extended_key) priv_key_failed
      shared_key ← pool_try (ecdh K P.ecdh_lib priv_key auctioneer_key) shared_key_failed
      ok (priv_key, shared_key)

    -- The result of an account, or the next one.
    unfoldable pub or_account :
        Option (Result PoolError (Option PoolAccount))
        → Option (Result PoolError PoolAccount)
        → Option (Result PoolError PoolAccount)
    or_account none next = none
    or_account (some (ok (some account))) next = some (ok account)
    or_account (some (ok none)) next = next
    or_account (some (err e)) next = some (err e)
    or_account (some panic) next = some panic

    -- The loop over the accounts, from number `i` on, `n` more of them.
    unfoldable pub account_loop : K.ExtendedKey → ℕ → ℕ → ℕ → Option (Result PoolError PoolAccount)
    account_loop account_base_key max_num_batch_keys i zero = some (err not_derived)
    account_loop account_base_key max_num_batch_keys i (suc n) =
        before (account_keys account_base_key i) (λ keys.
          or_account
            (batch_loop i (P.pub_key_of keys.0) keys.1 max_num_batch_keys P.initial_batch_key)
            (account_loop account_base_key max_num_batch_keys (i + 1) n))

    -- `bruteForceAccountScript`
    unfoldable pub brute_force_account_script :
        K.ExtendedKey → ℕ → ℕ → Option (Result PoolError PoolAccount)
    brute_force_account_script account_base_key max_num_accounts max_num_batch_keys =
        account_loop account_base_key max_num_batch_keys 0 max_num_accounts
