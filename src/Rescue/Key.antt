-- ===== src/Rescue/Key.antt =====
-- The keys of the cache of cmd/chantools/rescueclosed.go, and the addresses that they are for.
use chantools.Prelude.{
  ℕ, zero, suc, ◌+◌, List, [], ◌∷◌, Bool, true, false, Option, none, some, Result, ok, err, panic,
  ◌>>◌, fail_if, wrap, or_panic, length, get_elem?, ◌≡◌, inl, inr, refl, subst, sym, arith, All,
  >>=-eq-ok, ok-injective, Bool-cases,
}
use chantools.Prelude.Text.{Text, text_eq, text_eq_sound}
use chantools.HdKeychain.Derive.{KeyLib, KeyError, derive_children, try}
use chantools.HdKeychain.Ring.{Consts, family_path}
use chantools.HdKeychain.Address.{AddressLib, AddressError, decode_address_hash}
use chantools.Rescue.{
  TweakLib, RescueError, CacheEntry, fill_from, candidate, find_from, addr_in_cache, or_error,
  address_failed, must_be_p2wkh,
}

-- Private keys and public keys that belong together, and that a tweak keeps so, as lnd's `input`
-- documents it.
pub record PairLaws (K : KeyLib) (T : TweakLib K) : Type 0 where
  pub pub_of : K.PrivateKey → K.PublicKey
  pub same_pair :
      (key : K.ExtendedKey) {priv : K.PrivateKey} {pub_key : K.PublicKey}
      → K.ec_priv_key key ≡ some priv
      → K.ec_pub_key key ≡ some pub_key
      → pub_key ≡ pub_of priv
  pub tweaked :
      (priv : K.PrivateKey) (commit : K.PublicKey)
      → T.tweak_pub_key (pub_of priv) commit
        ≡ pub_of (T.tweak_priv_key priv (T.single_tweak_bytes commit (pub_of priv)))

module _ (K : KeyLib) (T : TweakLib K) (laws : PairLaws K T) where
  pub record IsPair (e : CacheEntry K) : Type 0 where
    pub paired : e.key_desc.pub_key ≡ some (laws.pub_of e.priv_key)

  try-eq-ok : {A : Type 0} (o : Option A) (e : KeyError) {a : A} → try o e ≡ ok a → o ≡ some a
  try-eq-ok none e h = cc
  try-eq-ok (some a) e h = cc

  pub fill_from-IsPair :
      (c : Consts) (key : K.ExtendedKey) (n i : ℕ) {cache : List (CacheEntry K)}
      → fill_from K c key i n ≡ ok cache
      → (length cache ≡ n) × All IsPair cache
  unfolding fill_from
  fill_from-IsPair c key zero i h =
      subst (λ cache. (length cache ≡ 0) × All IsPair cache) (ok-injective h) (refl, tt)
  fill_from-IsPair c key (suc n) i h =
      let (child, e1, r1) =
        >>=-eq-ok (derive_children K key (family_path c c.family_payment_base (i ∷ []))) _ h in
      let (priv, e2, r2) = >>=-eq-ok (try (K.ec_priv_key child) _) _ r1 in
      let (pub_key, e3, r3) = >>=-eq-ok (try (K.ec_pub_key child) _) _ r2 in
      let (rest, e4, r4) = >>=-eq-ok (fill_from K c key (i + 1) n) _ r3 in
      let (len, pairs) = fill_from-IsPair c key n (i + 1) e4 in
      let same =
        laws.same_pair child (try-eq-ok (K.ec_priv_key child) _ e2)
          (try-eq-ok (K.ec_pub_key child) _ e3) in
      subst (λ cache. (length cache ≡ suc n) × All IsPair cache) (ok-injective r4)
        (omega (arith, len), (record { paired = rw same }, pairs))

  -- A key pair whose public key has the hash.
  pub record Opens (hash : List ℕ) (wif : Text) : Type 0 where
    pub priv : K.PrivateKey
    pub wif_kept : K.new_wif priv ≡ some wif
    pub hashed : T.hash160 (laws.pub_of priv) ≡ hash

  or_error-eq-ok :
      {A : Type 0} (o : Option A) (e : RescueError) {a : A} → or_error K o e ≡ ok a → o ≡ some a
  or_error-eq-ok none e h = cc
  or_error-eq-ok (some a) e h = cc

  pub or_panic-eq-ok :
      {A : Type 0} (o : Option A) {a : A}
      → ◌≡◌ {A = Result RescueError A} (or_panic o) (ok a)
      → o ≡ some a
  or_panic-eq-ok none h = cc
  or_panic-eq-ok (some a) h = cc

  some_injective : {A : Type 0} {a b : A} → some a ≡ some b → a ≡ b
  some_injective h = cc

  pub All-get_elem? :
      {A : Type 0} (P : A → Type 0) (xs : List A) (i : ℕ) {x : A}
      → All P xs
      → get_elem? xs i ≡ some x
      → P x
  All-get_elem? P [] i h at = cc
  All-get_elem? P (x ∷ xs) zero h at = subst P (some_injective at) h.0
  All-get_elem? P (x ∷ xs) (suc i) h at = All-get_elem? P xs i h.1 at

  pub candidate-IsPair :
      (commit : Option K.PublicKey) (e : CacheEntry K)
      → IsPair e
      → (priv : K.PrivateKey) × (candidate K T commit e ≡ ok (laws.pub_of priv, priv))
  unfolding candidate
  candidate-IsPair none e p = (e.priv_key, rw p.paired)
  candidate-IsPair (some commit) e p = (
    T.tweak_priv_key e.priv_key (T.single_tweak_bytes commit (laws.pub_of e.priv_key)),
    rw (p.paired, laws.tweaked e.priv_key commit),
  )

  find_from_sound :
      (cache : List (CacheEntry K)) (target : List ℕ) (commit : Option K.PublicKey) (n i : ℕ)
      {wif : Text}
      → All IsPair cache
      → find_from K T cache target commit i n ≡ ok wif
      → Opens target wif
  unfolding find_from
  find_from_sound cache target commit zero i all h = cc
  find_from_sound cache target commit (suc n) i all h =
      let (e, e1, r1) = >>=-eq-ok (or_panic (get_elem? cache i)) _ h in
      let (priv, e2) =
        candidate-IsPair commit e
          (All-get_elem? IsPair cache i all (or_panic-eq-ok (get_elem? cache i) e1)) in
      let r2 = rw e2 at r1 in
      elim (Bool-cases (text_eq target (T.hash160 (laws.pub_of priv)))) [
        | inl hit ↦ record {
          priv = priv;
          wif_kept = or_error-eq-ok (K.new_wif priv) _ (rw hit at r2);
          hashed = sym (text_eq_sound target (T.hash160 (laws.pub_of priv)) hit);
        }
        | inr miss ↦ find_from_sound cache target commit n (i + 1) all (rw miss at r2)
      ]

  module _ (L : AddressLib K) where
    -- The private key of a P2WPKH address.
    pub record Unlocks (addr wif : Text) : Type 0 where
      pub hash : List ℕ
      pub decoded : decode_address_hash K L addr ≡ ok (hash, false)
      pub opens : Opens hash wif

    wrap-eq-ok :
        {A : Type 0} (m : Result AddressError A) {a : A} → wrap address_failed m ≡ ok a → m ≡ ok a
    wrap-eq-ok (ok a) h = cc
    wrap-eq-ok (err e) h = cc
    wrap-eq-ok panic h = cc

    pub addr_in_cache-Unlocks :
        (cache : List (CacheEntry K)) (num_keys : ℕ) (addr : Text) (commit : Option K.PublicKey)
        {wif : Text}
        → All IsPair cache
        → addr_in_cache K T L cache num_keys addr commit ≡ ok wif
        → Unlocks addr wif
    unfolding addr_in_cache
    addr_in_cache-Unlocks cache num_keys addr commit {wif} all h =
        let ((target, script_hash), e1, r1) =
          >>=-eq-ok (wrap address_failed (decode_address_hash K L addr)) _ h in
        known target script_hash (wrap-eq-ok (decode_address_hash K L addr) e1) r1
      where
        known :
            (target : List ℕ) (script_hash : Bool)
            → decode_address_hash K L addr ≡ ok (target, script_hash)
            → (fail_if script_hash must_be_p2wkh >> find_from K T cache target commit 0 num_keys)
              ≡ ok wif
            → Unlocks addr wif
        known target true e r = cc
        known target false e r = record {
          hash = target;
          decoded = e;
          opens = find_from_sound cache target commit num_keys 0 all r;
        }
