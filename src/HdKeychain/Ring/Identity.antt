-- ===== src/HdKeychain/Ring/Identity.antt =====
-- The identity key of lnd/hdkeychain.go, from its printed path and from the key ring.
use chantools.Prelude.{ℕ, ◌+◌, ◌^◌, ◌<◌, List, Option, some, ok, ◌>>=◌, ◌≡◌, arith, >>=-eq-ok}
use chantools.Prelude.Text.{Text}
use chantools.HdKeychain.Path.{hardened_key, hardened_key_start, identity_path, parse_path}
use chantools.HdKeychain.Path.Printed.{parse_path-identity_path}
use chantools.HdKeychain.Derive.{KeyLib, pub_key_failed, path_failed, try, derive_children, wif_of}
use chantools.HdKeychain.Derive
use chantools.HdKeychain.Ring.{HdKeyRing, pub_key_at, node_pub_key}

pub hardened_key_lem : (k : ℕ) → k < 2 ^ 31 → hardened_key k ≡ hardened_key_start + k
unfolding hardened_key
hardened_key_lem k h = omega arith

-- The public key of `DeriveKey` is the one at the path that it parses.
pub derive_key-pub_key_at :
    (K : KeyLib) (x : K.ExtendedKey) (path : Text) {is : List ℕ} {dk : K.ExtendedKey}
    {pk : K.PublicKey} {wif : Option Text}
    → parse_path path ≡ ok is
    → Derive.derive_key K x path ≡ ok (dk, pk, wif)
    → pub_key_at K x is ≡ ok pk
unfolding Derive.derive_key pub_key_at
derive_key-pub_key_at K x path {is} {dk} {pk} {wif} parsed h = derived (rw parsed at h)
  where
    derived :
        (derive_children K x is >>= λ key. try (K.ec_pub_key key) pub_key_failed >>= λ public.
        wif_of K key >>= λ w.
        let t : K.ExtendedKey × K.PublicKey × Option Text = (key, public, w) in ok t)
          ≡ ok (dk, pk, wif)
        → (derive_children K x is >>= λ key. try (K.ec_pub_key key) pub_key_failed) ≡ ok pk
    derived e =
        let (key, e1, r1) = >>=-eq-ok (derive_children K x is) _ e in
        let (public, e2, r2) = >>=-eq-ok (try (K.ec_pub_key key) pub_key_failed) _ r1 in
        let (w, e3, r3) = >>=-eq-ok (wif_of K key) _ r2 in rw e1 (rw e2 (cc))

-- With lnd's purpose 1017 and a coin type and a family below 2^31: the identity key of a node, where
-- the program derives it from the printed identity path, is the one that the key ring returns.
pub node_pub_key-identity_path :
    (K : KeyLib) (r : HdKeyRing K) {dk : K.ExtendedKey} {pk : K.PublicKey} {wif : Option Text}
    → r.consts.bip0043_purpose ≡ 1017
    → r.consts.hd_coin_type < 2 ^ 31
    → r.consts.family_node_key < 2 ^ 31
    → Derive.derive_key K r.extended_key
        (identity_path r.consts.hd_coin_type r.consts.family_node_key)
      ≡ ok (dk, pk, wif)
    → node_pub_key K r ≡ ok (some pk)
unfolding node_pub_key
node_pub_key-identity_path K r hp hc hf h =
    rw (hp, hardened_key_lem 1017 (omega arith))
      (rw (hardened_key_lem r.consts.hd_coin_type hc) (
        rw (hardened_key_lem r.consts.family_node_key hf) (
          rw (
            derive_key-pub_key_at K r.extended_key _
              (parse_path-identity_path r.consts.hd_coin_type r.consts.family_node_key hc hf) h))))
