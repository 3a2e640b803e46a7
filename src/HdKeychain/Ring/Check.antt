-- ===== src/HdKeychain/Ring/Check.antt =====
-- `CheckDescriptor` of lnd/hdkeychain.go, which derives the family key once, and `DeriveKey`.
use chantools.Prelude.{
  ℕ, zero, suc, ◌+◌, ◌^◌, ◌<◌, ◌≤◌, [], ◌∷◌, true, false, some, ok, ◌>>=◌, ◌≡◌, arith, >>=-eq-ok,
  >>=_assoc, Bool-cases, inl, inr,
}
use native.Mathlib.Decide.{ℕ_discrete}
use chantools.HdKeychain.Path.{hardened_key}
use chantools.HdKeychain.Derive.{KeyLib, derive_children}
use chantools.HdKeychain.Derive.Depth.{DepthLaws, derive_children-append}
use chantools.HdKeychain.Ring.{
  KeyLocator, KeyDescriptor, HdKeyRing, family_path, derive_key, scan, check_descriptor, pub_key_at,
}

hardened_key-lt : (k : ℕ) → hardened_key k < 2 ^ 32
unfolding hardened_key
hardened_key-lt k = omega arith

module _ (K : KeyLib) (fk : K.ExtendedKey) (target : K.PublicKey) where
  scan_sound :
      (n i : ℕ)
      → scan K fk target i n ≡ ok tt
      → (j : ℕ) × (i ≤ j)
        × (j < i + n)
        × ((pk : K.PublicKey) × (pub_key_at K fk (j ∷ []) ≡ ok pk) × (K.same_key pk target ≡ true))
  unfolding scan
  scan_sound zero i h = cc
  scan_sound (suc n) i h =
      let (pk, made, found) = >>=-eq-ok (pub_key_at K fk (i ∷ [])) _ h in
      elim (Bool-cases (K.same_key pk target)) [
        | inl same ↦ (i, omega arith, omega arith, (pk, made, same))
        | inr other ↦
            let (j, lo, hi, p) = scan_sound n (i + 1) (rw other at found) in
            (j, omega arith, omega arith, p)
      ]

  scan_complete :
      (pks : ℕ → K.PublicKey) (n i j : ℕ)
      → ((k : ℕ) → i ≤ k → k < i + n → pub_key_at K fk (k ∷ []) ≡ ok (pks k))
      → i ≤ j
      → j < i + n
      → K.same_key (pks j) target ≡ true
      → scan K fk target i n ≡ ok tt
  unfolding scan
  scan_complete pks zero i j made lo hi same = absurd (omega arith)
  scan_complete pks (suc n) i j made lo hi same =
      rw (made i (omega arith) (omega arith)) (elim (Bool-cases (K.same_key (pks i) target)) [
        | inl found ↦ rw found
        | inr other ↦ rw other (
            scan_complete pks n (i + 1) j (λ k p q. made k (omega arith) (omega arith))
              (later other) (omega arith) same)
      ])
    where
      later : K.same_key (pks i) target ≡ false → i + 1 ≤ j
      later other = elim (ℕ_discrete i j) [ yes e ↦ cc | no ne ↦ omega arith ]

module _ (K : KeyLib) (laws : DepthLaws K) (r : HdKeyRing K)
    (root : K.depth r.extended_key ≡ 0) where
  pub_key_at-family :
      (family i : ℕ)
      → pub_key_at K r.extended_key (family_path r.consts family (i ∷ [])) ≡ (
          derive_children K r.extended_key (family_path r.consts family []) >>= λ fk.
          pub_key_at K fk (i ∷ []))
  unfolding pub_key_at
  pub_key_at-family family i =
      rw
        (derive_children-append K laws r.extended_key (hardened_key r.consts.bip0043_purpose)
          (hardened_key r.consts.hd_coin_type) (hardened_key family) (0 ∷ []) (i ∷ []) root
          (hardened_key-lt family))
        (>>=_assoc (derive_children K r.extended_key (family_path r.consts family [])) _ _)

  derive_key-family :
      (family i : ℕ) {fk : K.ExtendedKey} {pk : K.PublicKey}
      → derive_children K r.extended_key (family_path r.consts family []) ≡ ok fk
      → pub_key_at K fk (i ∷ []) ≡ ok pk
      → derive_key K r (record { family = family; index = i })
        ≡ ok (record { locator = record { family = family; index = i }; pub_key = some pk })
  unfolding derive_key
  derive_key-family family i made below = rw (pub_key_at-family family i) (rw made (rw below))

  -- In a ring over a key of depth 0, under `DepthLaws`, a key passes only if `DeriveKey` gives one at an
  -- index of the range that is the same.
  pub check_descriptor_sound :
      (locator : KeyLocator) (target : K.PublicKey)
      → check_descriptor K r (record { locator = locator; pub_key = some target }) ≡ ok tt
      → (j : ℕ) × (j < r.consts.max_key_range_scan)
        × ((pk : K.PublicKey) × (derive_key K r (record { family = locator.family; index = j })
              ≡ ok (record {
                locator = record { family = locator.family; index = j };
                pub_key = some pk;
              }))
            × (K.same_key pk target ≡ true))
  unfolding check_descriptor
  check_descriptor_sound locator target h =
      let (fk, made, scanned) =
        >>=-eq-ok (derive_children K r.extended_key (family_path r.consts locator.family [])) _ h in
      let (j, _, hi, (pk, below, same)) =
        scan_sound K fk target r.consts.max_key_range_scan 0 scanned in
      (j, omega arith, (pk, derive_key-family locator.family j made below, same))

  pub_at-of-derive_key :
      (family i : ℕ) {fk : K.ExtendedKey} {pk : K.PublicKey}
      → derive_children K r.extended_key (family_path r.consts family []) ≡ ok fk
      → derive_key K r (record { family = family; index = i })
        ≡ ok (record { locator = record { family = family; index = i }; pub_key = some pk })
      → pub_key_at K fk (i ∷ []) ≡ ok pk
  unfolding derive_key
  pub_at-of-derive_key family i {fk} {pk} made h =
      let (p, e, q) =
        >>=-eq-ok (pub_key_at K r.extended_key (family_path r.consts family (i ∷ []))) _ h in
      let at : pub_key_at K fk (i ∷ []) ≡ ok p = rw (pub_key_at-family family i, made) at e in cc

  derive_key-reaches :
      (family i : ℕ) {d : KeyDescriptor K}
      → derive_key K r (record { family = family; index = i }) ≡ ok d
      → (fk : K.ExtendedKey) × (derive_children K r.extended_key (family_path r.consts family [])
          ≡ ok fk)
  unfolding derive_key
  derive_key-reaches family i h =
      let (p, e, _) =
        >>=-eq-ok (pub_key_at K r.extended_key (family_path r.consts family (i ∷ []))) _ h in
      let parts = rw (pub_key_at-family family i) at e in
      let (fk, made, _) =
        >>=-eq-ok (derive_children K r.extended_key (family_path r.consts family [])) _ parts in
      (fk, made)

  -- In a ring over a key of depth 0, under `DepthLaws`: if `DeriveKey` succeeds on the whole range, a key
  -- that is the same as one it gives there passes.
  pub check_descriptor_complete :
      (locator : KeyLocator) (target : K.PublicKey) (pks : ℕ → K.PublicKey) (j : ℕ)
      → ((i : ℕ)
          → i < r.consts.max_key_range_scan
          → derive_key K r (record { family = locator.family; index = i })
            ≡ ok (record {
              locator = record { family = locator.family; index = i };
              pub_key = some (pks i);
            }))
      → j < r.consts.max_key_range_scan
      → K.same_key (pks j) target ≡ true
      → check_descriptor K r (record { locator = locator; pub_key = some target }) ≡ ok tt
  unfolding check_descriptor
  check_descriptor_complete locator target pks j all hj same =
      let (fk, made) = derive_key-reaches locator.family j (all j hj) in
      rw made (
        scan_complete K fk target pks r.consts.max_key_range_scan 0 j
          (λ k lo hi. pub_at-of-derive_key locator.family k made (all k (omega arith)))
          (omega arith) (omega arith) same)
