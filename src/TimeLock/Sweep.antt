-- ===== src/TimeLock/Sweep.antt =====
-- `sweepTimeLock` of cmd/chantools/sweeptimelock.go: the inputs and the output of the transaction. The
-- weight of an input and the fee are lnd's.
pub mod Total
use chantools.Prelude.{
  ℕ, List, [], ◌∷◌, ◌++◌, Option, none, some, Result, ok, err, panic, ◌>>=◌, or_panic,
}
use chantools.Prelude.Int.{ℤ, pos}
use chantools.Prelude.Int64.{add64, sub64}
use chantools.HdKeychain.Derive.{KeyLib}
use chantools.Rescue.{TweakLib}
use chantools.TimeLock.{LockLib, LockError, Lock, brute_force_delay}
use chantools.TimeLock.Targets.{SweepTarget}

-- An input, with the target that it sweeps and the delay and script that were found for it.
pub record LockInput (K : KeyLib) : Type 0 where
  pub target : SweepTarget K
  pub delay_key : K.PublicKey
  pub lock : Lock

-- The inputs and the total of their values.
pub record SweepState (K : KeyLib) : Type 0 where
  pub inputs : List (LockInput K)
  pub total_output_value : ℤ

-- A target whose delay is not found is logged and left out.
unfoldable pub add_input :
    {K : KeyLib}
    → SweepTarget K
    → K.PublicKey
    → SweepState K
    → Result LockError Lock
    → Result LockError (SweepState K)
add_input target delay_key s (ok lock) = ok (record {
  inputs = s.inputs ++ record { target = target; delay_key = delay_key; lock = lock } ∷ [];
  total_output_value = add64 s.total_output_value target.value;
})
add_input target delay_key s (err e) = ok s
add_input target delay_key s panic = panic

-- The calls after one that may not end.
abbrev pub and_then :
    {A B : Type 0}
    → Option (Result LockError A)
    → (A → Option (Result LockError B))
    → Option (Result LockError B)
and_then none next = none
and_then (some (ok a)) next = next a
and_then (some (err e)) next = some (err e)
and_then (some panic) next = some panic

abbrev pub map_some :
    {A B : Type 0}
    → (Result LockError A → Result LockError B)
    → Option (Result LockError A)
    → Option (Result LockError B)
map_some f none = none
map_some f (some r) = some (f r)

module _ (K : KeyLib) (T : TweakLib K) (S : LockLib K) (fuel max_csv_timeout : ℕ) where
  -- The search for the delay of a target, with the keys tweaked by its commit point.
  unfoldable pub find_lock : SweepTarget K → K.PublicKey → Option (Result LockError Lock)
  find_lock target delay_key =
      brute_force_delay K S fuel (T.tweak_pub_key delay_key target.commit_point)
        (S.derive_revocation_pub_key target.revocation_base_point target.commit_point)
        target.lock_script 0 max_csv_timeout

  unfoldable pub sweep_target :
      SweepTarget K → Option K.PublicKey → SweepState K → Option (Result LockError (SweepState K))
  sweep_target target none s = some panic
  sweep_target target (some delay_key) s =
      map_some (add_input target delay_key s) (find_lock target delay_key)

  -- The loop over the targets.
  unfoldable pub sweep_targets :
      List (SweepTarget K) → SweepState K → Option (Result LockError (SweepState K))
  sweep_targets [] s = some (ok s)
  sweep_targets (target ∷ ts) s =
      and_then (sweep_target target target.delay_base_point_desc.pub_key s) (sweep_targets ts)

  -- The inputs, and the value of the only output.
  unfoldable pub sweep_time_lock :
      (List (LockInput K) → ℕ)
      → List (SweepTarget K)
      → Option (Result LockError (List (LockInput K) × ℤ))
  sweep_time_lock fee_for ts =
      and_then (sweep_targets ts (record { inputs = []; total_output_value = pos 0 }))
        (λ s. some (ok (s.inputs, sub64 s.total_output_value (pos (fee_for s.inputs)))))
