-- ===== src/TimeLock/Manual/Index.antt =====
-- The index of the multisig key that cmd/chantools/sweeptimelockmanual.go tries for a channel.
use chantools.Prelude.{
  ℕ, zero, suc, ◌+◌, Option, none, some, Result, ok, ◌≡◌, refl, arith, ◌∙◌, ap, subst,
}
use chantools.TimeLock.{LockError}
use chantools.TimeLock.Manual.{or_else, find_keys}

module _ {A : Type 0} (try_one : ℕ → ℕ → Option (Result LockError A)) where
  -- A search in which the index of each channel is given.
  unfoldable pub find_with : (ℕ → ℕ) → ℕ → ℕ → Option (Result LockError (Option A))
  find_with index_of zero i = some (ok none)
  find_with index_of (suc n) i =
      or_else (try_one i (index_of i)) (λ a. some a) (find_with index_of n (i + 1))

  -- The number of the first channel that is not number 0.
  abbrev pub first_but_zero : ℕ → ℕ
  first_but_zero zero = 0
  first_but_zero (suc i) = 1

  find_keys_fixed : (n i : ℕ) → find_keys try_one n i 1 ≡ find_with (λ j. 1) n i
  unfolding find_keys find_with
  find_keys_fixed zero i = refl
  find_keys_fixed (suc n) i =
      ap (λ r. or_else (try_one i 1) (λ a. some a) r) (find_keys_fixed n (i + 1))

  find_with-suc : (n i : ℕ) → find_with (λ j. 1) n (suc i) ≡ find_with first_but_zero n (suc i)
  unfolding find_with
  find_with-suc zero i = refl
  find_with-suc (suc n) i =
      ap (λ r. or_else (try_one (suc i) 1) (λ a. some a) r)
        (subst (λ j. find_with (λ k. 1) n j ≡ find_with first_but_zero n j) (by_one i)
          (find_with-suc n (suc i)))
    where
      by_one : (i : ℕ) → suc (suc i) ≡ suc i + 1
      by_one i = omega arith

  -- With no index given, the search from channel 0 on takes the number of a channel only for the
  -- channels 0 and 1: for every other one it is 1.
  pub find_keys_index : (n : ℕ) → find_keys try_one n 0 0 ≡ find_with first_but_zero n 0
  unfolding find_keys find_with
  find_keys_index zero = refl
  find_keys_index (suc zero) = refl
  find_keys_index (suc (suc n)) =
      ap (λ r. or_else (try_one 0 0) (λ a. some a) (or_else (try_one 1 1) (λ a. some a) r))
        (find_keys_fixed n 2 ∙ find_with-suc n 1)
