-- ===== src/TimeLock/Sweep/Total.antt =====
-- What `sweepTimeLock` of cmd/chantools/sweeptimelock.go puts into its transaction.
use chantools.Prelude.{
  ℕ, ◌^◌, ◌-◌, ◌≤◌, ◌<◌, List, [], ◌∷◌, ◌++◌, Option, none, some, Result, ok, err, panic, ◌≡◌, refl,
  sym, ap, subst, ◌∙◌, append_assoc, append-nil, ok-injective,
}
use chantools.Prelude.Int.{ℤ, pos}
use chantools.Prelude.Int64.{add64, sub64}
use chantools.HdKeychain.Derive.{KeyLib}
use chantools.Rescue.{TweakLib}
use chantools.TimeLock.{LockLib, LockError, Lock, enough}
use chantools.TimeLock.Targets.{SweepTarget}
use chantools.TimeLock.Delay.{Fits, brute_force_delay-Fits, brute_force_delay_ends}
use chantools.TimeLock.Sweep.{
  LockInput, SweepState, add_input, and_then, map_some, find_lock, sweep_target, sweep_targets,
  sweep_time_lock,
}

some_injective : {A : Type 0} {a b : A} → some a ≡ some b → a ≡ b
some_injective h = cc

and_then-eq-ok :
    {A B : Type 0} (m : Option (Result LockError A)) (next : A → Option (Result LockError B))
    {b : B}
    → and_then m next ≡ some (ok b)
    → (a : A) × (m ≡ some (ok a)) × (next a ≡ some (ok b))
and_then-eq-ok none next h = cc
and_then-eq-ok (some (ok a)) next h = (a, refl, h)
and_then-eq-ok (some (err e)) next h = cc
and_then-eq-ok (some panic) next h = cc

map_some-eq-ok :
    {A B : Type 0} (f : Result LockError A → Result LockError B) (m : Option (Result LockError A))
    {b : B}
    → map_some f m ≡ some (ok b)
    → (r : Result LockError A) × (m ≡ some r) × (f r ≡ ok b)
map_some-eq-ok f none h = cc
map_some-eq-ok f (some r) h = (r, refl, some_injective h)

module _ (K : KeyLib) (T : TweakLib K) (S : LockLib K) (max : ℕ) where
  -- An input of a target, whose delay is at most the limit and fits the target's keys and script.
  pub record IsInputOf (t : SweepTarget K) (i : LockInput K) : Type 0 where
    pub target_kept : i.target ≡ t
    pub key_kept : t.delay_base_point_desc.pub_key ≡ some i.delay_key
    pub fits :
        Fits K S
          (T.tweak_pub_key i.delay_key t.commit_point)
          (S.derive_revocation_pub_key t.revocation_base_point t.commit_point)
          t.lock_script
          i.lock
    pub within : i.lock.csv_timeout ≤ max

  -- Inputs for some of the targets, in their order.
  pub data Swept : List (SweepTarget K) → List (LockInput K) → Type 0 where
    done : Swept [] []
    left_out :
        {t : SweepTarget K} {ts : List (SweepTarget K)} {is : List (LockInput K)}
        → Swept ts is
        → Swept (t ∷ ts) is
    swept :
        {t : SweepTarget K} {ts : List (SweepTarget K)} {i : LockInput K} {is : List (LockInput K)}
        → IsInputOf t i
        → Swept ts is
        → Swept (t ∷ ts) (i ∷ is)

  -- The sum of the inputs' values, on `int64`.
  abbrev pub total64 : ℤ → List (LockInput K) → ℤ
  total64 total [] = total
  total64 total (i ∷ is) = total64 (add64 total i.target.value) is

  -- What a run from a state adds to it.
  record Adds (ts : List (SweepTarget K)) (s s' : SweepState K) : Type 0 where
    added : List (LockInput K)
    appended : s'.inputs ≡ s.inputs ++ added
    chosen : Swept ts added
    summed : s'.total_output_value ≡ total64 s.total_output_value added

  module _ (fuel : ℕ) (small : max < 2 ^ 16 - 1) where
    add_input-Adds :
        (t : SweepTarget K) (ts : List (SweepTarget K)) (s s1 s' : SweepState K) (k : K.PublicKey)
        (r : Result LockError Lock)
        → t.delay_base_point_desc.pub_key ≡ some k
        → find_lock K T S fuel max t k ≡ some r
        → add_input t k s r ≡ ok s1
        → Adds ts s1 s'
        → Adds (t ∷ ts) s s'
    unfolding add_input find_lock
    add_input-Adds t ts s s1 s' k (ok lock) key e h later =
        let (good, above, below) =
          brute_force_delay-Fits K S (T.tweak_pub_key k t.commit_point)
            (S.derive_revocation_pub_key t.revocation_base_point t.commit_point) t.lock_script fuel
            0 max small e in
        let inputs = ap (λ (q : SweepState K). q.inputs) (ok-injective h) in
        let total = ap (λ (q : SweepState K). q.total_output_value) (ok-injective h) in
        record {
          added = record { target = t; delay_key = k; lock = lock } ∷ later.added;
          appended =
              later.appended
              ∙ ap (λ is. is ++ later.added) (sym inputs)
              ∙ append_assoc s.inputs _ later.added;
          chosen =
              swept (record { target_kept = refl; key_kept = key; fits = good; within = below })
                later.chosen;
          summed = later.summed ∙ ap (λ v. total64 v later.added) (sym total);
        }
    add_input-Adds t ts s s1 s' k (err e1) key e h later =
        subst (λ q. Adds ts q s' → Adds (t ∷ ts) s s') (ok-injective h)
          (λ l. record {
            added = l.added;
            appended = l.appended;
            chosen = left_out l.chosen;
            summed = l.summed;
          })
          later
    add_input-Adds t ts s s1 s' k panic key e h later = cc

    sweep_targets-Adds :
        (ts : List (SweepTarget K)) (s s' : SweepState K)
        → sweep_targets K T S fuel max ts s ≡ some (ok s')
        → Adds ts s s'
    unfolding sweep_targets sweep_target
    sweep_targets-Adds [] s s' h =
        subst (Adds [] s) (ok-injective (some_injective h)) (record {
          added = [];
          appended = sym (append-nil s.inputs);
          chosen = done;
          summed = refl;
        })
    sweep_targets-Adds (t ∷ ts) s s' h =
        let (s1, e1, e2) =
          and_then-eq-ok (sweep_target K T S fuel max t t.delay_base_point_desc.pub_key s)
            (sweep_targets K T S fuel max ts) h in
        one t.delay_base_point_desc.pub_key refl s1 e1 (sweep_targets-Adds ts s1 s' e2)
      where
        one :
            (o : Option K.PublicKey)
            → t.delay_base_point_desc.pub_key ≡ o
            → (s1 : SweepState K) → sweep_target K T S fuel max t o s ≡ some (ok s1)
            → Adds ts s1 s'
            → Adds (t ∷ ts) s s'
        one none key s1 e later = cc
        one (some k) key s1 e later =
            let (r, e1, e2) = map_some-eq-ok (add_input t k s) (find_lock K T S fuel max t k) e in
            add_input-Adds t ts s s1 s' k r key e1 e2 later

    -- For a limit below 65535, a transaction that `sweepTimeLock` makes has inputs for targets in their
    -- order, each with a delay up to the limit that fits the target's keys and script; and its output
    -- is the sum of their values less the fee, on `int64`.
    pub sweep_time_lock-Swept :
        (fee_for : List (LockInput K) → ℕ) (ts : List (SweepTarget K)) {is : List (LockInput K)}
        {out : ℤ}
        → sweep_time_lock K T S fuel max fee_for ts ≡ some (ok (is, out))
        → Swept ts is × (out ≡ sub64 (total64 (pos 0) is) (pos (fee_for is)))
    unfolding sweep_time_lock
    sweep_time_lock-Swept fee_for ts {is} {out} h =
        let (s, e1, e2) =
          and_then-eq-ok
            (sweep_targets K T S fuel max ts (record { inputs = []; total_output_value = pos 0 })) _
            h in
        let a = sweep_targets-Adds ts (record { inputs = []; total_output_value = pos 0 }) s e1 in
        let same = ok-injective (some_injective e2) in
        let inputs : is ≡ a.added = ap (λ p. p.0) (sym same) ∙ a.appended in
        let output : out ≡ sub64 s.total_output_value (pos (fee_for s.inputs)) =
          ap (λ p. p.1) (sym same) in
        (
          subst (Swept ts) (sym inputs) a.chosen,
          output
              ∙ ap (λ v. sub64 v (pos (fee_for s.inputs))) a.summed
              ∙ ap (λ l. sub64 (total64 (pos 0) a.added) (pos (fee_for l))) a.appended
              ∙ ap (λ l. sub64 (total64 (pos 0) l) (pos (fee_for l))) (sym inputs),
        )

  module _ (small : max < 2 ^ 16 - 1) where
    sweep_target_ends :
        (t : SweepTarget K) (o : Option K.PublicKey) (s : SweepState K)
        → (r : Result LockError (SweepState K)) × (sweep_target K T S enough max t o s ≡ some r)
    unfolding sweep_target find_lock
    sweep_target_ends t none s = (panic, refl)
    sweep_target_ends t (some k) s =
        let (r, e) =
          brute_force_delay_ends K S (T.tweak_pub_key k t.commit_point)
            (S.derive_revocation_pub_key t.revocation_base_point t.commit_point) t.lock_script 0 max
            small in
        (add_input t k s r, rw e)

    sweep_targets_ends :
        (ts : List (SweepTarget K)) (s : SweepState K)
        → (r : Result LockError (SweepState K)) × (sweep_targets K T S enough max ts s ≡ some r)
    unfolding sweep_targets
    sweep_targets_ends [] s = (ok s, refl)
    sweep_targets_ends (t ∷ ts) s =
        let (r, e) = sweep_target_ends t t.delay_base_point_desc.pub_key s in
        rw e (ends r (sweep_targets_ends ts))
      where
        ends :
            (r : Result LockError (SweepState K))
            → ((s1 : SweepState K)
                → (q : Result LockError (SweepState K)) × (sweep_targets K T S enough max ts s1
                    ≡ some q))
            → (q : Result LockError (SweepState K)) × (and_then
                  (some r)
                  (sweep_targets K T S enough max ts)
                ≡ some q)
        ends (ok s1) later = later s1
        ends (err e1) later = (_, refl)
        ends panic later = (_, refl)

    -- For a limit below 65535 `sweepTimeLock` ends, whatever the targets are.
    sweep_time_lock_ends :
        (fee_for : List (LockInput K) → ℕ) (ts : List (SweepTarget K))
        → (r : Result LockError (List (LockInput K) × ℤ)) × (sweep_time_lock K T S enough max
              fee_for ts
            ≡ some r)
    unfolding sweep_time_lock
    sweep_time_lock_ends fee_for ts =
        let (r, e) = sweep_targets_ends ts (record { inputs = []; total_output_value = pos 0 }) in
        rw e (finish r)
      where
        finish :
            (r : Result LockError (SweepState K))
            → (q : Result LockError (List (LockInput K) × ℤ)) × (and_then
                  (some r)
                  (λ s. some (ok (s.inputs, sub64 s.total_output_value (pos (fee_for s.inputs)))))
                ≡ some q)
        finish (ok s) = (_, refl)
        finish (err e) = (_, refl)
        finish panic = (_, refl)
