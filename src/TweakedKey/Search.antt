-- ===== src/TweakedKey/Search.antt =====
-- The search of cmd/chantools/rescuetweakedkey.go.
use chantools.Prelude.{
  ℕ, zero, suc, ◌+◌, ◌^◌, ◌<◌, Bool, true, false, some, Result, ok, leb, ◌≡◌, ◌⊎◌, inl, inr, refl,
  sym, ◌∙◌, subst, arith,
}
use chantools.HdKeychain.Derive.{KeyLib}
use chantools.HdKeychain.Address.{AddressLib, witness_pub_key_hash, taproot}
use chantools.TweakedKey.{
  SecpLib, TweakedError, test_key, or_test, inc64, mutate_with_sign, mutate_with_tweak,
  pub_key_matches_addr, test_loop, test_pattern,
}

module _ (K : KeyLib) (S : SecpLib K) where
  -- The key itself, or a key that at most n tweaks make of it, of which the last may change its sign.
  abbrev pub IsMutation : ℕ → K.PrivateKey → K.PrivateKey → Type 0
  IsMutation zero start key = key ≡ start
  IsMutation (suc n) start key =
      (key ≡ start)
      ⊎ ((key ≡ mutate_with_sign K S (mutate_with_tweak K S start))
          ⊎ IsMutation n (mutate_with_tweak K S start) key)

  self-IsMutation : (n : ℕ) (start : K.PrivateKey) → IsMutation n start start
  self-IsMutation zero start = refl
  self-IsMutation (suc n) start = inl refl

  module _ (L : AddressLib K) (addr : L.Address) where
    abbrev pub IsSupported : Type 0
    IsSupported = (L.kind addr ≡ witness_pub_key_hash) ⊎ (L.kind addr ≡ taproot)

    abbrev pub Matches : K.PrivateKey → Type 0
    Matches key = test_key K S L addr key ≡ ok true

    -- The search ends with a mutation that matches.
    abbrev pub FoundBy : ℕ → ℕ → ℕ → ℕ → K.PrivateKey → Type 0
    FoundBy max_index fuel idx n start =
        (key : K.PrivateKey) × (test_loop K S L addr max_index fuel idx start ≡ some (ok key))
        × IsMutation n start key
        × Matches key

    abbrev answer : Bool → Result TweakedError Bool
    answer b = ok b

    by_test : (b : Bool) → (answer b ≡ ok true) ⊎ (answer b ≡ ok false)
    by_test true = inl refl
    by_test false = inr refl

    decided :
        IsSupported → (key : K.PrivateKey) → Matches key ⊎ (test_key K S L addr key ≡ ok false)
    unfolding pub_key_matches_addr
    decided (inl k) key = rw k (by_test _)
    decided (inr k) key = rw k (by_test _)

    differs :
        {key other : K.PrivateKey}
        → Matches key
        → test_key K S L addr other ≡ ok false
        → key ≡ other
        → ⊥
    differs m miss e =
        absurd (refused (sym (subst (λ k. test_key K S L addr k ≡ ok true) e m) ∙ miss))
      where
        refused : answer true ≡ ok false → ⊥
        refused p = cc

    test_loop_finds :
        (supported : IsSupported) (max_index : ℕ) (small : max_index + 1 < 2 ^ 64) (n fuel idx : ℕ)
        (start key : K.PrivateKey)
        → idx + n ≡ max_index + 1
        → n < fuel
        → IsMutation n start key
        → Matches key
        → FoundBy max_index fuel idx n start
    unfolding test_loop or_test
    test_loop_finds supported max_index small n zero idx start key left enough mutation m =
        absurd (omega arith)
    test_loop_finds supported max_index small zero (suc fuel) idx start key left enough mutation m =
        (start, rw (above, subst Matches mutation m) refl, refl, subst Matches mutation m)
      where
        above : leb idx max_index ≡ false
        above = ground arith
    test_loop_finds supported max_index small (suc n) (suc fuel) idx start key left enough mutation
          m =
        elim (decided supported start) [
          | inl here ↦ (start, rw (within, here) refl, inl refl, here)
          | inr miss ↦ elim (decided supported tweaked) [
            | inl here ↦
                (tweaked, rw (within, miss, here) refl, inr (inr (self-IsMutation n tweaked)), here)
            | inr miss2 ↦ elim (decided supported signed) [
              | inl here ↦ (signed, rw (within, miss, miss2, here) refl, inr (inl refl), here)
              | inr miss3 ↦
                  let (found, e, p, here) =
                    test_loop_finds supported max_index small n fuel (inc64 idx) tweaked key next
                      (omega arith) (later miss miss3 mutation) m in
                  (found, rw (within, miss, miss2, miss3) e, inr (inr p), here)
            ]
          ]
        ]
      where
        tweaked : K.PrivateKey
        tweaked = mutate_with_tweak K S start

        signed : K.PrivateKey
        signed = mutate_with_sign K S tweaked

        within : leb idx max_index ≡ true
        within = ground arith

        next : inc64 idx + n ≡ max_index + 1
        next = unfold inc64 in ground arith

        later :
            test_key K S L addr start ≡ ok false
            → test_key K S L addr signed ≡ ok false
            → IsMutation (suc n) start key
            → IsMutation n tweaked key
        later miss miss3 (inl e) = absurd (differs m miss e)
        later miss miss3 (inr (inl e)) = absurd (differs m miss3 e)
        later miss miss3 (inr (inr p)) = p

    -- For an address of one of the two types and fewer than 2^64 - 1 tweaks, if the start key or a mutation of it by
    -- at most one tweak more than `maxIndex` matches the address, then `testPattern` ends, with such a
    -- key. Fuel is needed for each tweak and the last test.
    pub test_pattern_finds :
        IsSupported
        → (fuel max_index : ℕ) (start key : K.PrivateKey) → max_index + 1 < 2 ^ 64
        → max_index + 1 < fuel
        → IsMutation (max_index + 1) start key
        → Matches key
        → (found : K.PrivateKey) × (test_pattern K S L fuel start addr max_index ≡ some (ok found))
          × IsMutation (max_index + 1) start found
          × Matches found
    unfolding test_pattern
    test_pattern_finds supported fuel max_index start key small enough mutation m =
        test_loop_finds supported max_index small (max_index + 1) fuel 0 start key (omega arith)
          enough mutation m
