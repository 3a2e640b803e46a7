-- ===== src/TimeLock/Delay.antt =====
-- When the search for a delay of cmd/chantools/sweeptimelock.go ends, and what it finds.
use chantools.Prelude.{
  ℕ, zero, suc, ◌+◌, ◌-◌, ◌^◌, ◌≤◌, ◌<◌, false, Option, none, some, Result, ok, err, panic, ltb,
  ◌≡◌, ◌∙◌, refl, sym, ap, subst, arith, Bool-cases, inl, inr, ok-injective, length, ◌==◌,
  >>=-eq-ok,
}
use chantools.Prelude.Text.{Text, text_eq, text_eq_sound}
use chantools.HdKeychain.Derive.{KeyLib}
use chantools.TimeLock.{
  LockLib, LockError, Lock, end_round, inc16, brute_loop, csv_not_found, or_error, script_failed,
  hash_failed, first_eight, try_delay, brute_force_delay, enough, invalid_target,
}

some_injective : {A : Type 0} {a b : A} → some a ≡ some b → a ≡ b
some_injective h = cc

ends :
    (m : Result LockError (Option Lock)) (r : Result LockError Lock)
    → (q : Result LockError Lock) × (end_round m (some r) ≡ some q)
unfolding end_round
ends (ok (some lock)) r = (ok lock, refl)
ends (ok none) r = (r, refl)
ends (err e) r = (err e, refl)
ends panic r = (panic, refl)

module _ (try_one : ℕ → Result LockError (Option Lock)) (max : ℕ) where
  -- Below the last `uint16` the loop ends: fuel for the delays that are left is enough.
  brute_loop_ends :
      (fuel i : ℕ)
      → max < 2 ^ 16 - 1
      → max + 1 < fuel + i
      → 0 < fuel
      → (r : Result LockError Lock) × (brute_loop try_one fuel i max ≡ some r)
  unfolding brute_loop inc16
  brute_loop_ends zero i small fuel_left pos = absurd (omega arith)
  brute_loop_ends (suc fuel) i small fuel_left pos = elim (Bool-cases (ltb max i)) [
    | inl above ↦ (err csv_not_found, rw above)
    | inr within ↦
        let (r, e) = brute_loop_ends fuel (inc16 i) small (ground arith) (ground arith) in
        rw (within, e) (ends (try_one i) r)
  ]

  -- With the last `uint16` as the limit the test never fails: a loop that finds nothing goes on.
  brute_loop_runs_on :
      ((i : ℕ) → i < 2 ^ 16 → try_one i ≡ ok none)
      → (fuel i : ℕ) → max ≡ 2 ^ 16 - 1
      → i < 2 ^ 16
      → brute_loop try_one fuel i max ≡ none
  unfolding brute_loop inc16 end_round
  brute_loop_runs_on misses zero i last word = refl
  brute_loop_runs_on misses (suc fuel) i last word =
      let within : ltb max i ≡ false = ground arith in
      rw (within, misses i word) (brute_loop_runs_on misses fuel (inc16 i) last (omega arith))

  brute_loop_sound :
      (fuel i : ℕ) {lock : Lock}
      → max < 2 ^ 16 - 1
      → brute_loop try_one fuel i max ≡ some (ok lock)
      → (j : ℕ) × (i ≤ j) × (j ≤ max) × (try_one j ≡ ok (some lock))
  unfolding brute_loop inc16 end_round
  brute_loop_sound zero i small h = cc
  brute_loop_sound (suc fuel) i {lock} small h = elim (Bool-cases (ltb max i)) [
    | inl above ↦ absurd (refused (rw above at h))
    | inr within ↦
        round (try_one i) refl (ground arith) (brute_loop_sound fuel (inc16 i) small)
          (rw within at h)
  ]
    where
      refused : some (err csv_not_found) ≡ some (ok lock) → ⊥
      refused p = cc

      round :
          (m : Result LockError (Option Lock))
          → try_one i ≡ m
          → i ≤ max
          → (brute_loop try_one fuel (inc16 i) max ≡ some (ok lock)
              → (j : ℕ) × (inc16 i ≤ j) × (j ≤ max) × (try_one j ≡ ok (some lock)))
          → end_round m (brute_loop try_one fuel (inc16 i) max) ≡ some (ok lock)
          → (j : ℕ) × (i ≤ j) × (j ≤ max) × (try_one j ≡ ok (some lock))
      round (ok (some l)) e le later h =
          (i, omega arith, le, e ∙ ap (λ x. ok (some x)) (ok-injective (some_injective h)))
      round (ok none) e le later h =
          let (j, above, below, found) = later h in (j, omega (arith, above), below, found)
      round (err e') e le later h = cc
      round panic e le later h = cc

  -- The first delay that matches is found.
  brute_loop_first :
      (fuel i d : ℕ) {lock : Lock}
      → max < 2 ^ 16 - 1
      → d < fuel
      → i + d ≤ max
      → ((k : ℕ) → i ≤ k → k < i + d → try_one k ≡ ok none)
      → try_one (i + d) ≡ ok (some lock)
      → brute_loop try_one fuel i max ≡ some (ok lock)
  unfolding brute_loop inc16 end_round
  brute_loop_first zero i d small more le misses hit = absurd (omega arith)
  brute_loop_first (suc fuel) i zero {lock} small more le misses hit =
      let within : ltb max i ≡ false = ground arith in
      let here : try_one i ≡ ok (some lock) =
        subst (λ k. try_one k ≡ ok (some lock)) (omega arith) hit in
      rw (within, here)
  brute_loop_first (suc fuel) i (suc d) {lock} small more le misses hit =
      let within : ltb max i ≡ false = ground arith in
      rw (within, misses i (omega arith) (omega arith))
        (brute_loop_first fuel (inc16 i) d small (omega arith) (omega arith)
          (λ k le1 lt1. misses k (omega arith) (omega arith))
          (subst (λ k. try_one k ≡ ok (some lock)) (omega arith) hit))

-- A script of the delay for the two keys, whose hash starts like the target.
pub record Fits (K : KeyLib) (S : LockLib K) (delay_key revocation_key : K.PublicKey)
    (target : Text) (lock : Lock) : Type 0 where
  pub made : S.commit_script_to_self lock.csv_timeout delay_key revocation_key ≡ some lock.script
  pub hashed : S.witness_script_hash lock.script ≡ some lock.script_hash
  pub starts :
      (first : Text) × (first_eight target ≡ ok first) × (first_eight lock.script_hash ≡ ok first)

module _ (K : KeyLib) (S : LockLib K) (delay_key revocation_key : K.PublicKey) (target : Text) where
  or_error-eq-ok :
      {A : Type 0} (o : Option A) (e : LockError) {a : A} → or_error o e ≡ ok a → o ≡ some a
  or_error-eq-ok none e h = cc
  or_error-eq-ok (some a) e h = cc

  try_delay-Fits :
      (i : ℕ) {lock : Lock}
      → try_delay K S delay_key revocation_key target i ≡ ok (some lock)
      → Fits K S delay_key revocation_key target lock × (lock.csv_timeout ≡ i)
  unfolding try_delay
  try_delay-Fits i {lock} h =
      let (s, e1, r1) =
        >>=-eq-ok (or_error (S.commit_script_to_self i delay_key revocation_key) script_failed) _
          h in
      let (sh, e2, r2) = >>=-eq-ok (or_error (S.witness_script_hash s) hash_failed) _ r1 in
      let (a, e3, r3) = >>=-eq-ok (first_eight target) _ r2 in
      let (b, e4, r4) = >>=-eq-ok (first_eight sh) _ r3 in
      elim (Bool-cases (text_eq a b)) [
        | inl same ↦
            subst (λ l. Fits K S delay_key revocation_key target l × (l.csv_timeout ≡ i))
              (some_injective (ok-injective (rw same at r4)))
              (
                record {
                  made =
                      or_error-eq-ok (S.commit_script_to_self i delay_key revocation_key)
                        script_failed e1;
                  hashed = or_error-eq-ok (S.witness_script_hash s) hash_failed e2;
                  starts = (a, e3, e4 ∙ ap (λ x. ok x) (sym (text_eq_sound a b same)));
                },
                refl,
              )
        | inr other ↦ absurd (missed (rw other at r4))
      ]
    where
      missed : ◌≡◌ {A = Result LockError (Option Lock)} (ok none) (ok (some lock)) → ⊥
      missed p = cc

  -- With a limit below 65535 the search for a delay ends, with a result or an error: 65537 rounds are
  -- enough.
  pub brute_force_delay_ends :
      (start max : ℕ)
      → max < 2 ^ 16 - 1
      → (r : Result LockError Lock) × (brute_force_delay K S enough delay_key revocation_key target
            start max
          ≡ some r)
  unfolding brute_force_delay
  brute_force_delay_ends start max small = elim (Bool-cases (length target == 34)) [
    | inl fits ↦ rw fits (
        brute_loop_ends (try_delay K S delay_key revocation_key target) max enough start small
          (omega arith) (omega arith))
    | inr other ↦ (err invalid_target, rw other)
  ]

  -- With the limit 65535 it does not: where no delay fits, no number of rounds is enough.
  pub brute_force_delay_runs_on :
      (fuel start : ℕ)
      → length target ≡ 34
      → start < 2 ^ 16
      → ((i : ℕ) → i < 2 ^ 16 → try_delay K S delay_key revocation_key target i ≡ ok none)
      → brute_force_delay K S fuel delay_key revocation_key target start (2 ^ 16 - 1) ≡ none
  unfolding brute_force_delay
  brute_force_delay_runs_on fuel start fits word misses = rw fits (
      brute_loop_runs_on (try_delay K S delay_key revocation_key target) (2 ^ 16 - 1) misses fuel
        start refl word)

  -- The first delay of the range whose script has a hash that starts like the target is found, if the
  -- delays before it have scripts and no match; and what is found lies in the range and fits.
  brute_force_delay_first :
      (start d max : ℕ) {lock : Lock}
      → length target ≡ 34
      → max < 2 ^ 16 - 1
      → start + d ≤ max
      → ((k : ℕ)
          → start ≤ k
          → k < start + d
          → try_delay K S delay_key revocation_key target k ≡ ok none)
      → try_delay K S delay_key revocation_key target (start + d) ≡ ok (some lock)
      → brute_force_delay K S enough delay_key revocation_key target start max ≡ some (ok lock)
  unfolding brute_force_delay
  brute_force_delay_first start d max fits small within misses hit = rw fits (
      brute_loop_first (try_delay K S delay_key revocation_key target) max enough start d small
        (omega arith) within misses hit)

  pub brute_force_delay-Fits :
      (fuel start max : ℕ) {lock : Lock}
      → max < 2 ^ 16 - 1
      → brute_force_delay K S fuel delay_key revocation_key target start max ≡ some (ok lock)
      → Fits K S delay_key revocation_key target lock
        × (start ≤ lock.csv_timeout)
        × (lock.csv_timeout ≤ max)
  unfolding brute_force_delay
  brute_force_delay-Fits fuel start max {lock} small h = elim (Bool-cases (length target == 34)) [
    | inl fits ↦
        let (j, above, below, found) =
          brute_loop_sound (try_delay K S delay_key revocation_key target) max fuel start small
            (rw fits at h) in
        let (good, at) = try_delay-Fits j found in (good, omega (arith, at), omega (arith, at))
    | inr other ↦ absurd (refused (rw other at h))
  ]
    where
      refused : some (err invalid_target) ≡ some (ok lock) → ⊥
      refused p = cc
