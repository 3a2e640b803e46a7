-- ===== src/RemoteClosed/Owned.antt =====
-- The targets of cmd/chantools/sweepremoteclosed.go, and the keys that lnd/signer.go fetches for them.
use chantools.Prelude.{
  ℕ, zero, suc, ◌+◌, ◌^◌, ◌≤◌, ◌<◌, List, [], ◌∷◌, ◌++◌, not, ◌&&◌, Option, none, some, Result, ok,
  err, panic, wrap, ◌≡◌, inl, inr, refl, sym, ◌∙◌, ap, subst, arith, >>=-eq-ok, ok-injective, All,
  All-append, Bool-cases,
}
use chantools.Prelude.Text.{Text}
use chantools.HdKeychain.Path.Printed.{parse_path-multisig_path}
use chantools.HdKeychain.Derive.{KeyLib, priv_key_from_path}
use chantools.HdKeychain.Ring.{Consts, KeyDescriptor, family_path}
use chantools.HdKeychain.Ring.Identity.{hardened_key_lem}
use chantools.HdKeychain.Address.{AddressLib}
use chantools.Explorer.{VoutData, Api, unspent}
use chantools.Explorer.Unspent.{IsUnspent, unspent-IsUnspent}
use chantools.Offer.Files.{is_nil}
use chantools.Offer.Prepare.{lnd_signer}
use chantools.RemoteClosed.{
  RemoteLib, RemoteError, api_failed, key_failed, bad_address, remote_try, TargetAddr, one_of,
  p2_anchor_static_remote, p2_taproot_static_remote, found_target, query_addr,
  query_address_balances, payment_key, payment_desc, targets_from,
}

pub wrap-eq-ok : {D E A : Type 0} (f : D → E) (r : Result D A) {a : A} → wrap f r ≡ ok a → r ≡ ok a
wrap-eq-ok f (ok a) h = ap ok (ok-injective h)
wrap-eq-ok f (err e) h = cc
wrap-eq-ok f panic h = cc

pub remote_try-eq-ok :
    {A : Type 0} (o : Option A) (e : RemoteError) {a : A} → remote_try o e ≡ ok a → o ≡ some a
remote_try-eq-ok none e h = cc
remote_try-eq-ok (some a) e h = ap some (ok-injective h)

module _ (K : KeyLib) (L : AddressLib K) (R : RemoteLib K L) where
  -- The three addresses of a key, each with what is needed to spend from it.
  pub data Pays (pub_key : K.PublicKey) : L.Address → Text → Option R.ScriptTree → Type 0 where
    plain : {addr : L.Address} → L.p2wkh_addr pub_key ≡ some addr → Pays pub_key addr [] none
    anchor :
        {addr : L.Address} {script : Text}
        → p2_anchor_static_remote K L R pub_key ≡ ok (addr, script)
        → Pays pub_key addr script none
    tap :
        {addr : L.Address} {tree : R.ScriptTree}
        → p2_taproot_static_remote K L R pub_key ≡ ok (addr, tree)
        → Pays pub_key addr [] (some tree)

  module _ (api : Api) where
    -- A target for the descriptor of a key.
    pub record PaysTarget (pub_key : K.PublicKey) (desc : KeyDescriptor K) (t : TargetAddr K L R)
        : Type 0 where
      pub described : t.key_desc ≡ desc
      pub untweaked : t.tweak ≡ []
      pub pays : Pays pub_key t.addr t.script t.script_tree
      pub unspent_outs : All (IsUnspent api (R.encode_address t.addr)) t.vouts

    module _ (known : List Text) where
      found_target-PaysTarget :
          (pub_key : K.PublicKey) (desc : KeyDescriptor K) (addr : L.Address) (script : Text)
          (tree : Option R.ScriptTree) (outs : List (Text × ℕ × VoutData))
          → Pays pub_key addr script tree
          → All (IsUnspent api (R.encode_address addr)) outs
          → All (PaysTarget pub_key desc) (found_target K L R api known desc addr script tree outs)
      unfolding found_target
      found_target-PaysTarget pub_key desc addr script tree [] p all = tt
      found_target-PaysTarget pub_key desc addr script tree (v ∷ vs) p all =
          (record { described = refl; untweaked = refl; pays = p; unspent_outs = all }, tt)

      query_addr-PaysTarget :
          (pub_key : K.PublicKey) (desc : KeyDescriptor K) (addr : L.Address) (script : Text)
          (tree : Option R.ScriptTree) (ts : List (TargetAddr K L R))
          → Pays pub_key addr script tree
          → query_addr K L R api known desc addr script tree ≡ ok ts
          → All (PaysTarget pub_key desc) ts
      unfolding query_addr
      query_addr-PaysTarget pub_key desc addr script tree ts p h =
          elim (Bool-cases (not (is_nil known) && not (one_of (R.address_string addr) known))) [
            | inl left ↦ subst (All (PaysTarget pub_key desc)) (ok-injective (rw left at h)) tt
            | inr asked ↦
                let (outs, e, r) =
                  >>=-eq-ok (wrap api_failed (unspent api (R.encode_address addr))) _
                    (rw asked at h) in
                subst (All (PaysTarget pub_key desc)) (ok-injective r) (
                  found_target-PaysTarget pub_key desc addr script tree outs p (
                    unspent-IsUnspent api (R.encode_address addr)
                      (wrap-eq-ok api_failed (unspent api (R.encode_address addr)) e)))
          ]

      pub query_address_balances-PaysTarget :
          (pub_key : K.PublicKey) (desc : KeyDescriptor K) (ts : List (TargetAddr K L R))
          → query_address_balances K L R api known pub_key desc ≡ ok ts
          → All (PaysTarget pub_key desc) ts
      unfolding query_address_balances
      query_address_balances-PaysTarget pub_key desc ts h =
          let (a1, e1, r1) = >>=-eq-ok (remote_try (L.p2wkh_addr pub_key) bad_address) _ h in
          let (t1, f1, s1) = >>=-eq-ok (query_addr K L R api known desc a1 [] none) _ r1 in
          let ((a2, script), e2, r2) = >>=-eq-ok (p2_anchor_static_remote K L R pub_key) _ s1 in
          let (t2, f2, s2) = >>=-eq-ok (query_addr K L R api known desc a2 script none) _ r2 in
          let ((a3, tree), e3, r3) = >>=-eq-ok (p2_taproot_static_remote K L R pub_key) _ s2 in
          let (t3, f3, s3) = >>=-eq-ok (query_addr K L R api known desc a3 [] (some tree)) _ r3 in
          let p1 =
            query_addr-PaysTarget pub_key desc a1 [] none t1
              (plain (remote_try-eq-ok (L.p2wkh_addr pub_key) bad_address e1)) f1 in
          let p2 = query_addr-PaysTarget pub_key desc a2 script none t2 (anchor e2) f2 in
          let p3 = query_addr-PaysTarget pub_key desc a3 [] (some tree) t3 (tap e3) f3 in
          subst (All (PaysTarget pub_key desc)) (ok-injective s3) (
            All-append (PaysTarget pub_key desc) t1 (t2 ++ t3) p1
              (All-append (PaysTarget pub_key desc) t2 t3 p2 p3))

module _ (K : KeyLib) (L : AddressLib K) (R : RemoteLib K L) (api : Api) (known : List Text)
    (c : Consts) (key : K.ExtendedKey) (mainnet : c.bip0043_purpose ≡ 1017)
    (coin : c.hd_coin_type < 2 ^ 31) (family : c.family_payment_base < 2 ^ 31) where
  -- A target of which the signer of lnd/signer.go fetches the private key: that of an index of the window.
  pub record OwnedTarget (window : ℕ) (t : TargetAddr K L R) : Type 0 where
    pub index : ℕ
    pub in_window : index < window
    pub priv_key : K.PrivateKey
    pub fetched : (lnd_signer K c key).fetch_private_key t.key_desc ≡ ok priv_key
    pub target_found :
        PaysTarget K L R api
          (R.pub_key_of priv_key)
          (payment_desc K L R api known c index (R.pub_key_of priv_key))
          t

  payment_key-fetch :
      (i : ℕ)
      → i < 2 ^ 31
      → payment_key K L R api known c key i
        ≡ priv_key_from_path K key (family_path c c.family_payment_base (i ∷ []))
  unfolding payment_key priv_key_from_path
  payment_key-fetch i hi =
      rw (parse_path-multisig_path c.hd_coin_type c.family_payment_base i coin family hi) (
        rw (mainnet) (
          rw
            (
              hardened_key_lem 1017 (omega arith),
              hardened_key_lem c.hd_coin_type coin,
              hardened_key_lem c.family_payment_base family,
            )
            refl))

  All-OwnedTarget :
      (window i : ℕ) (priv : K.PrivateKey) (ts : List (TargetAddr K L R))
      → i < window
      → priv_key_from_path K key (family_path c c.family_payment_base (i ∷ [])) ≡ ok priv
      → All
          (PaysTarget K L R api
            (R.pub_key_of priv)
            (payment_desc K L R api known c i (R.pub_key_of priv)))
          ts
      → All (OwnedTarget window) ts
  unfolding lnd_signer
  All-OwnedTarget window i priv [] lt made all = tt
  All-OwnedTarget window i priv (t ∷ ts) lt made (p, all) = (
    record {
      index = i;
      in_window = lt;
      priv_key = priv;
      fetched = rw p.described made;
      target_found = p;
    },
    All-OwnedTarget window i priv ts lt made all,
  )

  pub targets_from-OwnedTarget :
      (window i n : ℕ) (ts : List (TargetAddr K L R))
      → i + n ≤ window
      → window ≤ 2 ^ 31
      → targets_from K L R api known c key i n ≡ ok ts
      → All (OwnedTarget window) ts
  unfolding targets_from
  targets_from-OwnedTarget window i zero ts lo hi h =
      subst (All (OwnedTarget window)) (ok-injective h) tt
  targets_from-OwnedTarget window i (suc n) ts lo hi h =
      let (priv, e, r) = >>=-eq-ok (wrap key_failed (payment_key K L R api known c key i)) _ h in
      let (found, f, r') =
        >>=-eq-ok
          (query_address_balances K L R api known (R.pub_key_of priv)
            (payment_desc K L R api known c i (R.pub_key_of priv)))
          _ r in
      let (rest, g, r'') = >>=-eq-ok (targets_from K L R api known c key (i + 1) n) _ r' in
      let made =
        sym (payment_key-fetch i (omega arith))
        ∙ wrap-eq-ok key_failed (payment_key K L R api known c key i) e in
      subst (All (OwnedTarget window)) (ok-injective r'') (
        All-append (OwnedTarget window) found rest
          (All-OwnedTarget window i priv found (omega arith) made (
            query_address_balances-PaysTarget K L R api known (R.pub_key_of priv)
              (payment_desc K L R api known c i (R.pub_key_of priv)) found f))
          (targets_from-OwnedTarget window (i + 1) n rest (omega arith) hi g))
