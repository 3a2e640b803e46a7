-- ===== src/HdKeychain/Ring.antt =====
-- `HDKeyRing` of lnd/hdkeychain.go. Key families and the width of the scan are constants of lnd's
-- `keychain`, a parameter.
pub mod Check
pub mod Identity
use chantools.Prelude.{
  ℕ, zero, suc, ◌+◌, ◌-◌, List, [], ◌∷◌, Option, none, some, Result, ok, err, ◌>>=◌, if◌then◌else◌,
}
use chantools.HdKeychain.Path.{hardened_key}
use chantools.HdKeychain.Derive.{
  KeyLib, KeyError, pub_key_failed, no_public_key, cannot_derive_priv_key, try, derive_children,
}

-- `keychain.BIP0043Purpose`, `MaxKeyRangeScan` and the families that the code names, and the coin type of
-- the network.
pub record Consts : Type 0 where
  pub bip0043_purpose : ℕ
  pub max_key_range_scan : ℕ
  pub family_multi_sig : ℕ
  pub family_node_key : ℕ
  pub family_payment_base : ℕ
  pub family_revocation_root : ℕ
  pub family_revocation_base : ℕ
  pub family_htlc_base : ℕ
  pub family_delay_base : ℕ
  pub hd_coin_type : ℕ

pub record KeyLocator : Type 0 where
  pub family : ℕ
  pub index : ℕ

module _ (K : KeyLib) where
  -- `keychain.KeyDescriptor`
  pub record KeyDescriptor : Type 0 where
    pub locator : KeyLocator
    pub pub_key : Option K.PublicKey

  pub record HdKeyRing : Type 0 where
    pub extended_key : K.ExtendedKey
    pub consts : Consts

-- "m/purpose'/coin'/family'/0" and what follows.
abbrev pub family_path : Consts → ℕ → List ℕ → List ℕ
family_path c family rest =
    hardened_key c.bip0043_purpose ∷ hardened_key c.hd_coin_type ∷ hardened_key family ∷ 0 ∷ rest

module _ (K : KeyLib) where
  -- `DeriveChildren` and `ECPubKey`.
  unfoldable pub pub_key_at : K.ExtendedKey → List ℕ → Result KeyError K.PublicKey
  pub_key_at key path = do
    child ← derive_children K key path
    try (K.ec_pub_key child) pub_key_failed

  -- `HDKeyRing.DeriveKey`
  unfoldable pub derive_key : HdKeyRing K → KeyLocator → Result KeyError (KeyDescriptor K)
  derive_key r key_loc = do
    derived_pub_key ←
        pub_key_at r.extended_key (family_path r.consts key_loc.family (key_loc.index ∷ []))
    ok (record { locator = key_loc; pub_key = some derived_pub_key })

  -- The scan of `CheckDescriptor`, from index `i` on, `n` more rounds.
  unfoldable pub scan : K.ExtendedKey → K.PublicKey → ℕ → ℕ → Result KeyError (Unit {0})
  scan family_key target i zero = err cannot_derive_priv_key
  scan family_key target i (suc n) = do
    pub_key ← pub_key_at family_key (i ∷ [])
    let rest = scan family_key target (i + 1) n
    if K.same_key pub_key target then ok tt else rest

  scan_family : HdKeyRing K → ℕ → Option K.PublicKey → Result KeyError (Unit {0})
  scan_family r family none = err no_public_key
  scan_family r family (some target) = do
    family_key ← derive_children K r.extended_key (family_path r.consts family [])
    scan family_key target 0 r.consts.max_key_range_scan

  -- `CheckDescriptor`
  unfoldable pub check_descriptor : HdKeyRing K → KeyDescriptor K → Result KeyError (Unit {0})
  unfolding scan_family
  check_descriptor r key_desc = scan_family r key_desc.locator.family key_desc.pub_key

  unfoldable pub node_pub_key : HdKeyRing K → Result KeyError (Option K.PublicKey)
  unfolding derive_key
  node_pub_key r = do
    key_desc ← derive_key r (record { family = r.consts.family_node_key; index = 0 })
    ok key_desc.pub_key

  provided : HdKeyRing K → KeyLocator → Option K.PublicKey → Result KeyError (Option K.PublicKey)
  provided r locator (some pub_key) = ok (some pub_key)
  provided r locator none = do kd ← derive_key r locator; ok kd.pub_key

  unfoldable pub pub_key_for_descriptor :
      HdKeyRing K → KeyDescriptor K → Result KeyError (Option K.PublicKey)
  unfolding provided
  pub_key_for_descriptor r desc = provided r desc.locator desc.pub_key
