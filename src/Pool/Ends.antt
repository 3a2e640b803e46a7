-- ===== src/Pool/Ends.antt =====
-- The end of the search of cmd/chantools/closepoolaccount.go.
use chantools.Prelude.{
  ℕ, zero, suc, ◌+◌, ◌-◌, ◌%◌, ◌^◌, ◌<◌, Option, none, some, Result, ok, err, panic, ◌>>◌, ltb, ◌≡◌,
  refl, arith, Bool-cases, inl, inr,
}
use chantools.Prelude.Text.{Text}
use chantools.HdKeychain.Derive.{KeyLib}
use chantools.Pool.{
  Version, version_taproot_musig2, version_taproot_musig2_v100_rc2, witness_v0_script_hash,
  witness_v1_taproot, PoolLib, PoolAccount, PoolError, not_derived, end_block, block_loop, before,
  or_next, check_class, musig2_keys, try_script, try_taproot, fast_script, fast_script_taproot,
  batch_loop, account_keys, or_account, account_loop, brute_force_account_script,
}

-- A run that has a result.
abbrev pub Ends : {A : Type 0} → Option (Result PoolError A) → Type 0
Ends {A} m = (r : Result PoolError A) × (m ≡ some r)

end_block-Ends :
    {A : Type 0} (m : Result PoolError (Option A)) (next : Option (Result PoolError A))
    → Ends next
    → Ends (end_block m next)
unfolding end_block
end_block-Ends (ok (some a)) next h = (ok a, refl)
end_block-Ends (ok none) next h = h
end_block-Ends (err e) next h = (err e, refl)
end_block-Ends panic next h = (panic, refl)

block_loop-Ends :
    {A : Type 0} (try_block : ℕ → Result PoolError (Option A)) (to fuel i : ℕ)
    → to < 2 ^ 32 - 1
    → to + 1 < fuel + i
    → 0 < fuel
    → Ends (block_loop try_block fuel i to)
unfolding block_loop
block_loop-Ends try_block to zero i small left pos = absurd (omega arith)
block_loop-Ends try_block to (suc fuel) i small left pos = elim (Bool-cases (ltb to i)) [
  | inl above ↦ (err not_derived, rw above)
  | inr within ↦ rw within (
      end_block-Ends (try_block i) (block_loop try_block fuel ((i + 1) % 2 ^ 32) to)
        (block_loop-Ends try_block to fuel ((i + 1) % 2 ^ 32) small (ground arith) (ground arith)))
]

before-Ends :
    {A B : Type 0} (m : Result PoolError A) (next : A → Option (Result PoolError B))
    → ((a : A) → Ends (next a))
    → Ends (before m next)
unfolding before
before-Ends (ok a) next h = h a
before-Ends (err e) next h = (err e, refl)
before-Ends panic next h = (panic, refl)

or_next-Ends :
    {A : Type 0} (m : Option (Result PoolError A)) (next : Option (Result PoolError (Option A)))
    → Ends m
    → Ends next
    → Ends (or_next m next)
unfolding or_next
or_next-Ends none next (r, e) h = cc
or_next-Ends (some (ok a)) next (r, e) h = (ok (some a), refl)
or_next-Ends (some (err e')) next (r, e) h = h
or_next-Ends (some panic) next (r, e) h = (panic, refl)

module _ (K : KeyLib) (P : PoolLib K) (auctioneer_key : K.PublicKey) (target : Text)
    (fuel from to : ℕ) (small : to < 2 ^ 32 - 1) (left : to + 1 < fuel) where
  fast_script-Ends :
      (i : ℕ) (trader batch : K.PublicKey) (secret : Text)
      → Ends (fast_script K P target i trader auctioneer_key batch secret fuel from to)
  unfolding fast_script
  fast_script-Ends i trader batch secret =
      before-Ends (check_class K P target witness_v0_script_hash) _ (λ u.
        block_loop-Ends (try_script K P target i trader auctioneer_key batch secret) to fuel from
          small (omega arith) (omega arith))

  fast_script_taproot-Ends :
      (i : ℕ) (trader batch : K.PublicKey) (secret : Text) (version : Version)
      → Ends
          (fast_script_taproot K P target i trader auctioneer_key batch secret version fuel from to)
  unfolding fast_script_taproot
  fast_script_taproot-Ends i trader batch secret version =
      before-Ends
        (check_class K P target witness_v1_taproot >> musig2_keys K P version auctioneer_key trader)
        _
        (λ keys.
          block_loop-Ends (try_taproot K P target i trader auctioneer_key batch secret version keys)
            to fuel from small (omega arith) (omega arith))

  batch_loop-Ends :
      (i : ℕ) (trader : K.PublicKey) (secret : Text) (n : ℕ) (batch : K.PublicKey)
      → Ends (batch_loop K P auctioneer_key target fuel from to i trader secret n batch)
  unfolding batch_loop
  batch_loop-Ends i trader secret zero batch = (ok none, refl)
  batch_loop-Ends i trader secret (suc n) batch =
      or_next-Ends _ _ (fast_script-Ends i trader batch secret) (
        or_next-Ends _ _ (fast_script_taproot-Ends i trader batch secret version_taproot_musig2) (
          or_next-Ends _ _
            (fast_script_taproot-Ends i trader batch secret version_taproot_musig2_v100_rc2)
            (batch_loop-Ends i trader secret n (P.increment_key batch))))

  or_account-Ends :
      (m : Option (Result PoolError (Option PoolAccount)))
      (next : Option (Result PoolError PoolAccount))
      → Ends m
      → Ends next
      → Ends (or_account K P auctioneer_key target fuel from to m next)
  unfolding or_account
  or_account-Ends none next (r, e) h = cc
  or_account-Ends (some (ok (some a))) next (r, e) h = (ok a, refl)
  or_account-Ends (some (ok none)) next (r, e) h = h
  or_account-Ends (some (err e')) next (r, e) h = (err e', refl)
  or_account-Ends (some panic) next (r, e) h = (panic, refl)

  account_loop-Ends :
      (base : K.ExtendedKey) (max_batch n i : ℕ)
      → Ends (account_loop K P auctioneer_key target fuel from to base max_batch i n)
  unfolding account_loop
  account_loop-Ends base max_batch zero i = (err not_derived, refl)
  account_loop-Ends base max_batch (suc n) i =
      before-Ends (account_keys K P auctioneer_key target fuel from to base i) _ (λ keys.
        or_account-Ends _ _
          (batch_loop-Ends i (P.pub_key_of keys.0) keys.1 max_batch P.initial_batch_key)
          (account_loop-Ends base max_batch n (i + 1)))

  -- For an expiry limit below 2^32 - 1, with a round of fuel for each block up to the limit and two more,
  -- `bruteForceAccountScript` ends, whatever the numbers of accounts and batch keys are.
  pub brute_force_account_script-Ends :
      (base : K.ExtendedKey) (max_accounts max_batch : ℕ)
      → Ends (
          brute_force_account_script K P auctioneer_key target fuel from to base max_accounts
            max_batch)
  unfolding brute_force_account_script
  brute_force_account_script-Ends base max_accounts max_batch =
      account_loop-Ends base max_batch max_accounts 0
