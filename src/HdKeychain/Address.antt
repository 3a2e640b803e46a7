-- ===== src/HdKeychain/Address.antt =====
-- Addresses of lnd/hdkeychain.go. Decoding and output scripts are those of btcd, and the weight
-- estimator that of lnd: parameters.
pub mod Checks
use chantools.Prelude.{
  ℕ, List, [], ◌∷◌, Bool, true, false, ◌&&◌, ◌||◌, not, Option, none, some, Result, ok, err, ◌>>=◌,
  ◌>>◌, fail_if, panic, if◌then◌else◌,
}
use mathlib.Core.Option
use chantools.Prelude.Text.{Text, codes, text_eq}
use chantools.HdKeychain.Path.{hardened_key}
use chantools.HdKeychain.Derive.{KeyLib, KeyError, pub_key_failed, try, derive_children}

-- The types of `btcutil.Address` that the code tells apart.
pub data AddressKind : Type 0 where
  witness_pub_key_hash witness_script_hash taproot other_kind : AddressKind

pub data AddrType : Type 0 where
  p2wkh p2wsh p2tr : AddrType

-- What the code calls of btcutil, txscript and lnd's `input.TxWeightEstimator`; `none` is an error.
pub record AddressLib (K : KeyLib) : Type 1 where
  pub Address : Type 0
  pub Estimator : Type 0
  pub decode_address : Text → Option Address
  pub is_for_net : Address → Bool
  pub kind : Address → AddressKind
  pub script_address : Address → List ℕ
  pub pay_to_addr_script : Address → Option (List ℕ)
  -- `NewScriptBuilder().AddOp(OP_0).AddData(hash).Script()`
  pub witness_v0_script : List ℕ → Option (List ℕ)
  -- `NewAddressWitnessPubKeyHash(Hash160(key.SerializeCompressed()), params)`
  pub p2wkh_addr : K.PublicKey → Option Address
  pub add_p2wkh_output : Estimator → Estimator
  pub add_p2wsh_output : Estimator → Estimator
  pub add_p2tr_output : Estimator → Estimator

pub data AddressError : Type 0 where
  not_decoded wrong_net empty_address wrong_type not_segwit_v0 not_p2wkh not_p2wsh script_failed :
      AddressError
  key_failed : KeyError → AddressError

-- The error of a call, where it has one.
abbrev pub or_else : {A : Type 0} → Option A → AddressError → Result AddressError A
or_else none e = err e
or_else (some a) e = ok a

-- `AddressDeriveFromWallet`
abbrev pub address_derive_from_wallet : Text
address_derive_from_wallet = codes "fromseed"

-- `slices.Contains(allowedTypes, t)`
same_type : AddrType → AddrType → Bool
same_type p2wkh p2wkh = true
same_type p2wsh p2wsh = true
same_type p2tr p2tr = true
same_type _ _ = false

unfoldable pub allows : AddrType → List AddrType → Bool
unfolding same_type
allows t [] = false
allows t (u ∷ us) = same_type u t || allows t us

unfoldable pub match_addr_type : AddressKind → List AddrType → Bool
match_addr_type witness_pub_key_hash allowed = allows p2wkh allowed
match_addr_type witness_script_hash allowed = allows p2wsh allowed
match_addr_type taproot allowed = allows p2tr allowed
match_addr_type other_kind allowed = false

is_empty : Text → Bool
is_empty [] = true
is_empty (_ ∷ _) = false

module _ (K : KeyLib) (L : AddressLib K) where
  unfoldable pub parse_address : Text → Result AddressError L.Address
  parse_address addr = do
    target_addr ← or_else (L.decode_address addr) not_decoded
    fail_if (not (L.is_for_net target_addr)) wrong_net
    ok target_addr

  -- The hash of a native SegWit v0 address, and whether it is one of a script.
  unfoldable pub hash_of : AddressKind → L.Address → Result AddressError (List ℕ × Bool)
  hash_of witness_pub_key_hash a = ok (L.script_address a, false)
  hash_of witness_script_hash a = ok (L.script_address a, true)
  hash_of taproot a = err not_segwit_v0
  hash_of other_kind a = err not_segwit_v0

  unfoldable pub decode_address_hash : Text → Result AddressError (List ℕ × Bool)
  unfolding hash_of
  decode_address_hash addr = do
    target_addr ← parse_address addr
    hash_of (L.kind target_addr) target_addr

  unfoldable pub get_p2wpkh_script : Text → Result AddressError (List ℕ)
  get_p2wpkh_script addr = do
    (target_pub_key_hash, is_script_hash) ← decode_address_hash addr
    fail_if is_script_hash not_p2wkh
    or_else (L.witness_v0_script target_pub_key_hash) script_failed

  unfoldable pub get_p2wsh_script : Text → Result AddressError (List ℕ)
  get_p2wsh_script addr = do
    (target_script_hash, is_script_hash) ← decode_address_hash addr
    fail_if (not is_script_hash) not_p2wsh
    or_else (L.witness_v0_script target_script_hash) script_failed

  -- `CheckAddress`
  unfoldable pub check_address : Text → Bool → List AddrType → Result AddressError (Unit {0})
  unfolding is_empty
  check_address addr allow_derive allowed_types = do
    fail_if (is_empty addr) empty_address
    if allow_derive && text_eq addr address_derive_from_wallet then ok tt else (do
      parsed_addr ← parse_address addr
      fail_if (not (match_addr_type (L.kind parsed_addr) allowed_types)) wrong_type)

  -- The output that is counted for an address.
  estimate : AddressKind → L.Estimator → Result AddressError L.Estimator
  estimate witness_pub_key_hash e = ok (L.add_p2wkh_output e)
  estimate witness_script_hash e = ok (L.add_p2wsh_output e)
  estimate taproot e = ok (L.add_p2tr_output e)
  estimate other_kind e = err wrong_type

  -- A missing estimator is a nil pointer: nothing is counted.
  estimate_output : AddressKind → Option L.Estimator → Result AddressError (Option L.Estimator)
  unfolding estimate
  estimate_output kind none = ok none
  estimate_output kind (some e) = estimate kind e >>= λ e'. ok (some e')

  -- `CheckAndEstimateAddress`, with the estimator as it is left.
  unfoldable pub check_and_estimate_address :
      Text → Option L.Estimator → Result AddressError (List ℕ × Option L.Estimator)
  unfolding estimate_output
  check_and_estimate_address addr estimator = do
    parsed_addr ← parse_address addr
    estimator' ← estimate_output (L.kind parsed_addr) estimator
    script ← or_else (L.pay_to_addr_script parsed_addr) script_failed
    ok (script, estimator')

  as_address_error : {A : Type 0} → Result KeyError A → Result AddressError A
  as_address_error (ok a) = ok a
  as_address_error (err e) = err (key_failed e)
  as_address_error panic = panic

  -- `PrepareWalletAddress`; `84` is the purpose of BIP 84.
  unfoldable pub prepare_wallet_address :
      ℕ
      → ℕ
      → K.ExtendedKey
      → Text
      → Option L.Estimator
      → Result AddressError (List ℕ × Option L.Estimator)
  unfolding as_address_error
  prepare_wallet_address purpose coin_type root_key addr estimator =
      if text_eq addr address_derive_from_wallet
      then (do
        derived_key ← as_address_error (
            derive_children K root_key
              (hardened_key purpose ∷ hardened_key coin_type ∷ hardened_key 0 ∷ 0 ∷ 0 ∷ []))
        derived_pub_key ← as_address_error (try (K.ec_pub_key derived_key) pub_key_failed)
        wallet_addr ← or_else (L.p2wkh_addr derived_pub_key) script_failed
        script ← or_else (L.pay_to_addr_script wallet_addr) script_failed
        ok (script, Option.map L.add_p2wkh_output estimator))
      else check_and_estimate_address addr estimator
