-- ===== src/Tests.antt =====
-- A small library of keys and addresses, on which the properties are tried at concrete inputs.
pub mod Keys
pub mod Wallet
pub mod Offers
pub mod Summaries
pub mod Descriptors
pub mod Locks
pub mod Pools
pub mod Backups
pub mod Remote
pub mod Prepared
pub mod Matches
pub mod Tweaks
use chantools.Prelude.{
  ℕ, suc, ◌+◌, ◌≡◌, refl, sym, subst, ◌∙◌, List, [], ◌∷◌, ◌++◌, Bool, true, false, Option, none,
  some, Result, ok, err, arith, length, ◌==◌, if◌then◌else◌,
}
use chantools.Prelude.Text.{Text, codes, text_eq}
use chantools.HdKeychain.Derive.{KeyLib, KeyError}
use chantools.HdKeychain.Derive.Depth.{DepthLaws}
use chantools.HdKeychain.Ecdh.{EcdhLib}
use chantools.HdKeychain.Ring.{Consts, HdKeyRing}
use chantools.HdKeychain.Address.{AddressKind, witness_pub_key_hash, taproot, AddressLib}
use chantools.Rescue.{TweakLib}
use chantools.Rescue.Key.{PairLaws}

-- A key is the path that leads to it, from its end.
abbrev pub keys : KeyLib
keys = record {
  ExtendedKey = List ℕ;
  PublicKey = List ℕ;
  PrivateKey = List ℕ;
  derive_non_standard = λ key i. some (i ∷ key);
  depth = λ key. length key;
  reload = λ key. some key;
  ec_pub_key = λ key. some key;
  ec_priv_key = λ key. some key;
  is_private = λ key. true;
  new_wif = λ key. some key;
  same_key = text_eq;
}

some_injective : {A : Type 0} {a b : A} → some a ≡ some b → a ≡ b
some_injective h = cc

pub keys-DepthLaws : DepthLaws keys
keys-DepthLaws = record {
  derived = λ k i d h. subst (λ e. length e ≡ length k + 1) (some_injective h) (omega arith);
  reloaded = λ k r h. subst (λ e. length e ≡ length k) (some_injective h) refl;
}

-- The numbers of lnd, and the coin type of Bitcoin.
abbrev pub consts : Consts
consts = record {
  bip0043_purpose = 1017;
  max_key_range_scan = 3;
  family_multi_sig = 0;
  family_node_key = 6;
  family_payment_base = 3;
  family_revocation_root = 5;
  family_revocation_base = 1;
  family_htlc_base = 2;
  family_delay_base = 4;
  hd_coin_type = 0;
}

abbrev pub ring : HdKeyRing keys
ring = record { extended_key = []; consts = consts }

-- An address is its hash, of the first kind.
abbrev pub addresses : AddressLib keys
addresses = record {
  Address = List ℕ;
  Estimator = ℕ;
  decode_address = λ addr. some addr;
  is_for_net = λ addr. true;
  kind = λ addr. witness_pub_key_hash;
  script_address = λ addr. addr;
  pay_to_addr_script = λ addr. some (0 ∷ addr);
  witness_v0_script = λ hash. some (0 ∷ hash);
  p2wkh_addr = λ key. some key;
  add_p2wkh_output = λ e. e + 31;
  add_p2wsh_output = λ e. e + 43;
  add_p2tr_output = λ e. e + 43;
}

-- A tweak is a step from the key.
abbrev pub tweaks : TweakLib keys
tweaks = record {
  hash160 = λ key. key;
  tweak_pub_key = λ base commit. commit ++ base;
  single_tweak_bytes = λ commit base. commit;
  tweak_priv_key = λ priv tweak. tweak ++ priv;
}

pub tweaks-PairLaws : PairLaws keys tweaks
tweaks-PairLaws = record {
  pub_of = λ priv. priv;
  same_pair = λ key p q. some_injective (sym q ∙ p);
  tweaked = λ priv commit. refl;
}

abbrev kind_of : Text → AddressKind
kind_of [] = witness_pub_key_hash
kind_of (x ∷ _) = if x == 9 then taproot else witness_pub_key_hash

-- An address is its kind and its content; one that starts with 9 is a taproot address.
abbrev pub kinds : AddressLib keys
kinds = record {
  Address = AddressKind × List ℕ;
  Estimator = ℕ;
  decode_address = λ addr. some (kind_of addr, addr);
  is_for_net = λ a. true;
  kind = λ a. a.0;
  script_address = λ a. a.1;
  pay_to_addr_script = λ a. some (0 ∷ a.1);
  witness_v0_script = λ hash. some (0 ∷ hash);
  p2wkh_addr = λ key. some (witness_pub_key_hash, key);
  add_p2wkh_output = λ e. e + 31;
  add_p2wsh_output = λ e. e + 43;
  add_p2tr_output = λ e. e + 43;
}

-- The shared secret is the private key.
abbrev pub shared_keys : EcdhLib keys
shared_keys = record {
  scalar_mult = λ priv key. priv;
  serialize_compressed = λ key. key;
  sha256 = λ s. s;
}
