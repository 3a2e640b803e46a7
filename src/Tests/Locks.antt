-- ===== src/Tests/Locks.antt =====
-- The sweep of time locked outputs at concrete inputs.
use chantools.Prelude.{
  ℕ, ◌-◌, ◌^◌, ◌<◌, [], ◌∷◌, ◌++◌, Option, none, some, Result, ok, err, ◌≡◌, refl, arith,
}
use chantools.Prelude.Int.{pos}
use chantools.Prelude.Int64.{add64, sub64, to_int64}
use chantools.Prelude.Text.{Text, text_eq}
use chantools.TimeLock.{
  LockLib, LockError, csv_not_found, Lock, enough, first_eight, end_round, inc16, brute_loop,
  try_delay, brute_force_delay,
}
use chantools.TimeLock.Delay.{brute_force_delay_ends, brute_force_delay_runs_on}
use chantools.TimeLock.Targets.{SweepTarget}
use chantools.TimeLock.Sweep.{
  LockInput, add_input, find_lock, sweep_target, sweep_targets, sweep_time_lock,
}
use chantools.TimeLock.Sweep.Total.{Swept, total64, sweep_time_lock-Swept}
use chantools.TimeLock.Manual.{find_keys}
use chantools.TimeLock.Manual.Index.{find_with, first_but_zero, find_keys_index}
use chantools.Tests.{keys, tweaks}

abbrev tail33 : Text
tail33 =
    0 ∷ 0 ∷ 0 ∷ 0 ∷ 0 ∷ 0 ∷ 0 ∷ 0 ∷ 0 ∷ 0 ∷ 0 ∷ 0 ∷ 0 ∷ 0 ∷ 0 ∷ 0 ∷ 0 ∷ 0 ∷ 0 ∷ 0 ∷ 0 ∷ 0 ∷ 0 ∷ 0
    ∷ 0 ∷ 0 ∷ 0 ∷ 0 ∷ 0 ∷ 0 ∷ 0 ∷ 0 ∷ 0 ∷ []

-- The script of a delay is the delay, and its hash starts with it.
abbrev locks : LockLib keys
locks = record {
  commit_script_to_self = λ csv delay revocation. some (csv ∷ []);
  witness_script_hash = λ s. some (s ++ tail33);
  derive_revocation_pub_key = λ base commit. commit ++ base;
}

-- A hash that is always the same.
abbrev blind : LockLib keys
blind = record {
  commit_script_to_self = λ csv delay revocation. some (csv ∷ []);
  witness_script_hash = λ s. some (0 ∷ tail33);
  derive_revocation_pub_key = λ base commit. commit ++ base;
}

brute_force_delay_ends_example :
    (r : Result LockError Lock) × (brute_force_delay keys locks enough [] [] (2 ∷ tail33) 0 144
      ≡ some r)
brute_force_delay_ends_example =
    brute_force_delay_ends keys locks [] [] (2 ∷ tail33) 0 144 (omega arith)

never : (i : ℕ) → i < 2 ^ 16 → try_delay keys blind [] [] (2 ∷ tail33) i ≡ ok none
unfolding try_delay first_eight text_eq
never i h = refl

brute_force_delay_runs_on_example :
    brute_force_delay keys blind enough [] [] (2 ∷ tail33) 0 (2 ^ 16 - 1) ≡ none
brute_force_delay_runs_on_example =
    brute_force_delay_runs_on keys blind [] [] (2 ∷ tail33) enough 0 refl (omega arith) never

abbrev swept_target : SweepTarget keys
swept_target = record {
  channel_point = [];
  txid = 9 ∷ [];
  index = 1;
  lock_script = 2 ∷ tail33;
  value = pos 5000;
  commit_point = [];
  revocation_base_point = [];
  delay_base_point_desc = record {
    locator = record { family = 4; index = 0 };
    pub_key = some (8 ∷ []);
  };
}

abbrev swept_input : LockInput keys
swept_input = record {
  target = swept_target;
  delay_key = 8 ∷ [];
  lock = record { csv_timeout = 2; script = 2 ∷ []; script_hash = 2 ∷ tail33 };
}

swept_run :
    sweep_time_lock keys tweaks locks 5 144 (λ is. 300) (swept_target ∷ [])
    ≡ some (ok (swept_input ∷ [], pos 4700))
unfolding sweep_time_lock sweep_targets sweep_target find_lock add_input brute_force_delay
    brute_loop try_delay first_eight end_round inc16 text_eq add64 sub64 to_int64
swept_run = refl

sweep_time_lock-Swept_example :
    Swept keys tweaks locks 144 (swept_target ∷ []) (swept_input ∷ [])
    × (pos 4700 ≡ sub64 (total64 keys tweaks locks 144 (pos 0) (swept_input ∷ [])) (pos 300))
sweep_time_lock-Swept_example =
    sweep_time_lock-Swept keys tweaks locks 144 5 (omega arith) (λ is. 300) (swept_target ∷ [])
      swept_run

-- A search that never finds a key.
abbrev no_key : ℕ → ℕ → Option (Result LockError ℕ)
no_key i multi_sig_idx = some (err csv_not_found)

find_keys_index_example : find_keys no_key 3 0 0 ≡ find_with no_key (first_but_zero no_key) 3 0
find_keys_index_example = find_keys_index no_key 3
