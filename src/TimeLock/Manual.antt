-- ===== src/TimeLock/Manual.antt =====
-- cmd/chantools/sweeptimelockmanual.go, with `ShaChainFromPath` of lnd/hdkeychain.go: the search for the
-- keys of an output of which only the address is known. Revocation producers are lnd's, a parameter.
pub mod Index
use chantools.Prelude.{
  ℕ, zero, suc, ◌+◌, ◌-◌, ◌%◌, ◌^◌, List, [], ◌∷◌, ◌++◌, Bool, ◌==◌, Option, none, some, Result, ok,
  err, panic, ◌>>=◌, if◌then◌else◌, get_elem?, length,
}
use chantools.Prelude.Text.{Text, codes}
use chantools.Prelude.Text.Decimal.{decimal}
use chantools.HdKeychain.Path.{hardened_key}
use chantools.HdKeychain.Derive.{KeyLib, KeyError, priv_key_from_path}
use chantools.HdKeychain.Ecdh.{EcdhLib, ecdh}
use chantools.HdKeychain.Ring.{Consts, KeyDescriptor}
use chantools.Rescue.{TweakLib}
use chantools.TimeLock.{
  LockLib, LockError, key_failed, preimage_failed, target_not_derived, Lock, or_error,
  brute_force_delay,
}
use chantools.TimeLock.Sweep.{and_then}

pub record ShaLib (K : KeyLib) : Type 1 where
  -- `shachain.RevocationProducer`
  pub Producer : Type 0
  pub new_revocation_producer : Text → Producer
  -- `NewHash(privKey.Serialize())`
  pub key_hash : K.PrivateKey → Option Text
  pub ecdh_lib : EcdhLib K
  pub at_index : Producer → ℕ → Option Text
  -- `input.ComputeCommitmentPoint`
  pub commitment_point : Text → K.PublicKey
  pub pub_key_of : K.PrivateKey → K.PublicKey

-- What `bruteForceDelayPoint` finds.
pub record PointLock (K : KeyLib) : Type 0 where
  pub lock : Lock
  pub commit_point : K.PublicKey

-- The keys that `tryKey` finds.
pub record FoundKeys (K : KeyLib) : Type 0 where
  pub found : PointLock K
  pub delay_desc : KeyDescriptor K

abbrev pub as_lock_error : {A : Type 0} → Result KeyError A → Result LockError A
as_lock_error (ok a) = ok a
as_lock_error (err e) = err key_failed
as_lock_error panic = panic

-- The descriptor that `tryKey` returns beside a lock.
unfoldable pub found_keys : (K : KeyLib) → Consts → ℕ → K.PublicKey → PointLock K → FoundKeys K
found_keys K c idx delay_pub_key p = record {
  found = p;
  delay_desc = record {
    locator = record { family = c.family_delay_base; index = idx };
    pub_key = some delay_pub_key;
  };
}

-- A search whose error is not looked at: the next one follows.
abbrev pub or_else :
    {A B : Type 0}
    → Option (Result LockError A)
    → (A → B)
    → Option (Result LockError B)
    → Option (Result LockError B)
or_else none f next = none
or_else (some (ok a)) f next = some (ok (f a))
or_else (some (err e)) f next = next
or_else (some panic) f next = some panic

-- A call that always ends.
abbrev pub ended : {A : Type 0} → Result LockError A → Option (Result LockError A)
ended r = some r

-- The loop over the channels, from number `i` on, `n` more rounds. A zero index is set to the number of
-- the channel.
unfoldable pub find_keys :
    {A : Type 0}
    → (ℕ → ℕ → Option (Result LockError A))
    → ℕ
    → ℕ
    → ℕ
    → Option (Result LockError (Option A))
find_keys try_one zero i multi_sig_idx = some (ok none)
find_keys try_one (suc n) i multi_sig_idx =
    let idx = if multi_sig_idx == 0 then i else multi_sig_idx in
    or_else (try_one i idx) (λ a. some a) (find_keys try_one n (i + 1) idx)

-- What a channel backup gives: the delay and the number of the channel, with the limits one above, on
-- `uint16`.
pub record Limits : Type 0 where
  pub start_csv_limit : ℕ
  pub max_csv_limit : ℕ
  pub start_num_channels_total : ℕ
  pub max_num_channels_total : ℕ

unfoldable pub backup_limits : ℕ → ℕ → Limits
backup_limits csv_delay delay_index = record {
  start_csv_limit = csv_delay;
  max_csv_limit = (csv_delay + 1) % 2 ^ 16;
  start_num_channels_total = delay_index % 2 ^ 16;
  max_num_channels_total = (delay_index % 2 ^ 16 + 1) % 2 ^ 16;
}

module _ (K : KeyLib) (T : TweakLib K) (S : LockLib K) (H : ShaLib K) where
  -- The root of the producer: the key itself, or what it shares with a key.
  revocation_root : K.PrivateKey → Option K.PublicKey → Option Text
  revocation_root priv_key none = H.key_hash priv_key
  revocation_root priv_key (some multi_sig_pub_key) = ecdh K H.ecdh_lib priv_key multi_sig_pub_key

  -- `ShaChainFromPath`
  unfoldable pub sha_chain_from_path :
      K.ExtendedKey → List ℕ → Option K.PublicKey → Result LockError H.Producer
  unfolding revocation_root
  sha_chain_from_path extended_key path multi_sig_pub_key = do
    priv_key ← as_lock_error (priv_key_from_path K extended_key path)
    rev_root ← or_error (revocation_root priv_key multi_sig_pub_key) key_failed
    ok (H.new_revocation_producer rev_root)

  -- The loop of `bruteForceDelayPoint` over the updates of a channel.
  unfoldable pub point_loop :
      ℕ
      → K.PublicKey
      → K.PublicKey
      → H.Producer
      → Text
      → ℕ
      → ℕ
      → ℕ
      → ℕ
      → Option (Result LockError (PointLock K))
  point_loop fuel delay_base rev_base rev_root lock_script start_csv max_csv i zero =
      some (err target_not_derived)
  point_loop fuel delay_base rev_base rev_root lock_script start_csv max_csv i (suc n) =
      and_then (ended (or_error (H.at_index rev_root i) preimage_failed)) (λ preimage.
        let commit_point = H.commitment_point preimage in
        or_else
          (brute_force_delay K S fuel (T.tweak_pub_key delay_base commit_point)
            (S.derive_revocation_pub_key rev_base commit_point) lock_script start_csv max_csv)
          (λ lock. record { lock = lock; commit_point = commit_point })
          (point_loop fuel delay_base rev_base rev_root lock_script start_csv max_csv (i + 1) n))

  module _ (c : Consts) (fuel : ℕ) (base_key : K.ExtendedKey) (remote_rev_point : K.PublicKey)
      (start_csv max_csv : ℕ) (lock_script : Text) (max_num_chan_updates : ℕ) where
    -- The root is there before the search: an error of the path ends `tryKey`, one of the search does not.
    unfoldable pub root_then :
        K.PublicKey
        → ℕ
        → Option K.PublicKey
        → (PointLock K → FoundKeys K)
        → Option (Result LockError (FoundKeys K))
        → Option (Result LockError (FoundKeys K))
    root_then delay_pub_key rev_idx multi_sig_pub_key f next =
        and_then
          (ended (
            sha_chain_from_path base_key (hardened_key c.family_revocation_root ∷ 0 ∷ rev_idx ∷ [])
              multi_sig_pub_key))
          (λ rev_root.
            or_else
              (point_loop fuel delay_pub_key remote_rev_point rev_root lock_script start_csv max_csv
                0 max_num_chan_updates)
              f next)

    -- `tryKey`: the old root, the root with the multisig key, and the one at the next index.
    unfoldable pub try_key : ℕ → ℕ → Option (Result LockError (FoundKeys K))
    try_key idx multi_sig_idx =
        and_then
          (ended (
            as_lock_error
              (priv_key_from_path K base_key (hardened_key c.family_delay_base ∷ 0 ∷ idx ∷ []))))
          (λ delay_priv_key.
            let delay_pub_key = H.pub_key_of delay_priv_key in
            let with_desc : PointLock K → FoundKeys K = found_keys K c idx delay_pub_key in
            root_then delay_pub_key idx none with_desc (
              and_then
                (ended (
                  as_lock_error (
                    priv_key_from_path K base_key
                      (hardened_key c.family_multi_sig ∷ 0 ∷ multi_sig_idx ∷ []))))
                (λ multi_sig_priv_key.
                  let multi_sig = some (H.pub_key_of multi_sig_priv_key) in
                  root_then delay_pub_key idx multi_sig with_desc (
                    root_then delay_pub_key ((idx + 1) % 2 ^ 32) multi_sig with_desc
                      (some (err target_not_derived))))))

    -- The search of `sweepTimeLockManual`, over the numbers of channels from `start` to below `end`.
    unfoldable pub search_manual : ℕ → ℕ → ℕ → Option (Result LockError (FoundKeys K))
    search_manual multi_sig_idx start end =
        and_then (find_keys try_key (end - start) start multi_sig_idx)
          (λ o. some (or_error o target_not_derived))
