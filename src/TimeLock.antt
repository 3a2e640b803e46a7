-- ===== src/TimeLock.antt =====
-- cmd/chantools/sweeptimelock.go: the sweep of our outputs of a force close. The script of an output
-- depends on a delay that is found by trying; scripts are made by lnd's `input`, a parameter.
pub mod Delay
pub mod Targets
pub mod Sweep
pub mod Manual
use chantools.Prelude.{
  ℕ, zero, suc, ◌+◌, ◌%◌, ◌^◌, List, [], ◌∷◌, Bool, ◌==◌, not, Option, none, some, Result, ok, err,
  panic, ◌>>=◌, ltb, if◌then◌else◌, length,
}
use chantools.Prelude.Text.{Text, text_eq}
use chantools.HdKeychain.Derive.{KeyLib}

pub record LockLib (K : KeyLib) : Type 0 where
  -- `input.CommitScriptToSelf(csv, delayKey, revocationKey)`
  pub commit_script_to_self : ℕ → K.PublicKey → K.PublicKey → Option Text
  pub witness_script_hash : Text → Option Text
  -- `input.DeriveRevocationPubkey(revocationBase, commitPoint)`
  pub derive_revocation_pub_key : K.PublicKey → K.PublicKey → K.PublicKey

pub data LockError : Type 0 where
  invalid_target script_failed hash_failed csv_not_found target_not_derived : LockError
  bad_commit_point bad_revocation_base bad_delay_base bad_script bad_tx_hash : LockError
  key_failed preimage_failed address_failed : LockError

-- What `bruteForceDelay` finds: the delay, the script and its hash.
pub record Lock : Type 0 where
  pub csv_timeout : ℕ
  pub script : Text
  pub script_hash : Text

abbrev pub take : ℕ → Text → Text
take zero s = []
take (suc n) [] = []
take (suc n) (c ∷ s) = c ∷ take n s

-- `s[0:8]`, which panics on a shorter text.
unfoldable pub first_eight : Text → Result LockError Text
first_eight s = if ltb (length s) 8 then panic else ok (take 8 s)

abbrev pub or_error : {A : Type 0} → Option A → LockError → Result LockError A
or_error none e = err e
or_error (some a) e = ok a

-- How a round of the loop ends: with a result, or with a go at the next delay. `none` means that the
-- loop still runs when its fuel is used up.
unfoldable pub end_round :
    Result LockError (Option Lock) → Option (Result LockError Lock) → Option (Result LockError Lock)
end_round (ok (some lock)) next = some (ok lock)
end_round (ok none) next = next
end_round (err e) next = some (err e)
end_round panic next = some panic

-- `uint16(i) + 1`
unfoldable pub inc16 : ℕ → ℕ
inc16 i = (i + 1) % 2 ^ 16

-- The loop of `bruteForceDelay` over the delays, for a way to try one.
unfoldable pub brute_loop :
    (ℕ → Result LockError (Option Lock)) → ℕ → ℕ → ℕ → Option (Result LockError Lock)
brute_loop try_delay zero i max_csv_timeout = none
brute_loop try_delay (suc fuel) i max_csv_timeout =
    let rest = end_round (try_delay i) (brute_loop try_delay fuel (inc16 i) max_csv_timeout) in
    if ltb max_csv_timeout i then some (err csv_not_found) else rest

-- The fuel that every run needs which ends: a round for each `uint16`, and one for the last test.
abbrev pub enough : ℕ
enough = 65537

module _ (K : KeyLib) (S : LockLib K) where
  -- One round: the script of a delay, if the first eight bytes of its hash are those of the target.
  unfoldable pub try_delay : K.PublicKey → K.PublicKey → Text → ℕ → Result LockError (Option Lock)
  try_delay delay_pub_key revocation_pub_key target_script i = do
    s ← or_error (S.commit_script_to_self i delay_pub_key revocation_pub_key) script_failed
    sh ← or_error (S.witness_script_hash s) hash_failed
    target_start ← first_eight target_script
    start ← first_eight sh
    ok (
        if text_eq target_start start
        then some (record { csv_timeout = i; script = s; script_hash = sh })
        else none)

  -- `bruteForceDelay`
  unfoldable pub brute_force_delay :
      ℕ → K.PublicKey → K.PublicKey → Text → ℕ → ℕ → Option (Result LockError Lock)
  brute_force_delay fuel delay_pub_key revocation_pub_key target_script start_csv_timeout
        max_csv_timeout =
      if not (length target_script == 34)
      then some (err invalid_target)
      else brute_loop (try_delay delay_pub_key revocation_pub_key target_script) fuel
          start_csv_timeout max_csv_timeout
