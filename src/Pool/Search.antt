-- ===== src/Pool/Search.antt =====
-- The loops of `bruteForceAccountScript` of cmd/chantools/closepoolaccount.go.
use chantools.Prelude.{
  ℕ, zero, suc, ◌+◌, ◌-◌, ◌^◌, ◌≤◌, ◌<◌, Option, none, some, Result, ok, err, panic, ◌≡◌, ◌⊎◌, inl,
  inr, ap, subst, arith, >>=-eq-ok, ok-injective,
}
use chantools.Prelude.Text.{Text}
use chantools.HdKeychain.Derive.{KeyLib}
use chantools.HdKeychain.Ecdh.{ecdh}
use chantools.Pool.{
  version_taproot_musig2, version_taproot_musig2_v100_rc2, PoolLib, PoolAccount, PoolError,
  derive_failed, priv_key_failed, shared_key_failed, pool_try, batch_loop, account_keys, or_account,
  account_loop, brute_force_account_script,
}
use chantools.Pool.Found.{
  IsAccountOf, before-eq-ok, or_next-eq-ok, pool_try-eq-ok, some_injective, fast_script-IsAccountOf,
  fast_script_taproot-IsAccountOf,
}

-- The batch key after a number of increments.
abbrev pub batch_key_at : (K : KeyLib) (P : PoolLib K) → ℕ → K.PublicKey → K.PublicKey
batch_key_at K P zero key = key
batch_key_at K P (suc n) key = batch_key_at K P n (P.increment_key key)

module _ (K : KeyLib) (P : PoolLib K) (auctioneer_key : K.PublicKey) (target : Text)
    (fuel from to : ℕ) (small : to < 2 ^ 32 - 1) where
  -- An account found with a batch key of the range.
  record Batched (i : ℕ) (trader : K.PublicKey) (secret : Text) (n : ℕ) (first : K.PublicKey)
      (account : PoolAccount) : Type 0 where
    step : ℕ
    in_range : step < n
    is_account :
        IsAccountOf K P target auctioneer_key i trader
          (batch_key_at K P step first)
          secret
          from
          to
          account

  batch_loop-Batched :
      (i : ℕ) (trader : K.PublicKey) (secret : Text) (n : ℕ) (batch : K.PublicKey)
      (account : PoolAccount)
      → batch_loop K P auctioneer_key target fuel from to i trader secret n batch
        ≡ some (ok (some account))
      → Batched i trader secret n batch account
  unfolding batch_loop
  batch_loop-Batched i trader secret zero batch account h = cc
  batch_loop-Batched i trader secret (suc n) batch account h = elim (or_next-eq-ok _ _ h) [
    | inl e ↦ now (
        fast_script-IsAccountOf K P target auctioneer_key i trader batch secret from to fuel small
          account e)
    | inr r ↦ elim (or_next-eq-ok _ _ r) [
      | inl e ↦ now (
          fast_script_taproot-IsAccountOf K P target auctioneer_key i trader batch secret from to
            fuel small version_taproot_musig2 account e)
      | inr r' ↦ elim (or_next-eq-ok _ _ r') [
        | inl e ↦ now (
            fast_script_taproot-IsAccountOf K P target auctioneer_key i trader batch secret from to
              fuel small version_taproot_musig2_v100_rc2 account e)
        | inr r'' ↦ later (batch_loop-Batched i trader secret n (P.increment_key batch) account r'')
      ]
    ]
  ]
    where
      now :
          IsAccountOf K P target auctioneer_key i trader batch secret from to account
          → Batched i trader secret (suc n) batch account
      now p = record { step = 0; in_range = omega arith; is_account = p }

      later :
          Batched i trader secret n (P.increment_key batch) account
          → Batched i trader secret (suc n) batch account
      later p = record {
        step = suc p.step;
        in_range = omega (arith, p.in_range);
        is_account = p.is_account;
      }

  module _ (base : K.ExtendedKey) (max_batch : ℕ) where
    -- An account of some number, with the keys that belong to it.
    pub record Recovered (account : PoolAccount) : Type 0 where
      pub number : ℕ
      pub extended_key : K.ExtendedKey
      pub derived : K.derive_non_standard base number ≡ some extended_key
      pub priv_key : K.PrivateKey
      pub private : K.ec_priv_key extended_key ≡ some priv_key
      pub secret : Text
      pub shared : ecdh K P.ecdh_lib priv_key auctioneer_key ≡ some secret
      pub step : ℕ
      pub in_range : step < max_batch
      pub is_account :
          IsAccountOf K P target auctioneer_key number
            (P.pub_key_of priv_key)
            (batch_key_at K P step P.initial_batch_key)
            secret
            from
            to
            account

    or_account-eq-ok :
        (m : Option (Result PoolError (Option PoolAccount)))
        (next : Option (Result PoolError PoolAccount)) {account : PoolAccount}
        → or_account K P auctioneer_key target fuel from to m next ≡ some (ok account)
        → (m ≡ some (ok (some account))) ⊎ (next ≡ some (ok account))
    unfolding or_account
    or_account-eq-ok none next h = cc
    or_account-eq-ok (some (ok (some a))) next h =
        inl (ap (λ x. some (ok (some x))) (ok-injective (some_injective h)))
    or_account-eq-ok (some (ok none)) next h = inr h
    or_account-eq-ok (some (err e)) next h = cc
    or_account-eq-ok (some panic) next h = cc

    account_keys-derived :
        (i : ℕ) (priv : K.PrivateKey) (secret : Text)
        → account_keys K P auctioneer_key target fuel from to base i ≡ ok (priv, secret)
        → (ext : K.ExtendedKey) × (K.derive_non_standard base i ≡ some ext)
          × (K.ec_priv_key ext ≡ some priv)
          × (ecdh K P.ecdh_lib priv auctioneer_key ≡ some secret)
    unfolding account_keys
    account_keys-derived i priv secret h =
        let (ext, e1, r1) = >>=-eq-ok (pool_try (K.derive_non_standard base i) derive_failed) _ h in
        let (p, e2, r2) = >>=-eq-ok (pool_try (K.ec_priv_key ext) priv_key_failed) _ r1 in
        let (s, e3, r3) =
          >>=-eq-ok (pool_try (ecdh K P.ecdh_lib p auctioneer_key) shared_key_failed) _ r2 in
        let same = ok-injective r3 in
        subst
          (λ (q : K.PrivateKey × Text).
            (ext : K.ExtendedKey) × (K.derive_non_standard base i ≡ some ext)
            × (K.ec_priv_key ext ≡ some q.0)
            × (ecdh K P.ecdh_lib q.0 auctioneer_key ≡ some q.1))
          same
          (
            ext,
            pool_try-eq-ok (K.derive_non_standard base i) derive_failed e1,
            pool_try-eq-ok (K.ec_priv_key ext) priv_key_failed e2,
            pool_try-eq-ok (ecdh K P.ecdh_lib p auctioneer_key) shared_key_failed e3,
          )

    account_loop-Recovered :
        (n i : ℕ) (account : PoolAccount)
        → account_loop K P auctioneer_key target fuel from to base max_batch i n ≡ some (ok account)
        → (p : Recovered account) × (i ≤ p.number) × (p.number < i + n)
    unfolding account_loop
    account_loop-Recovered zero i account h = cc
    account_loop-Recovered (suc n) i account h =
        let ((priv, secret), e, r) =
          before-eq-ok (account_keys K P auctioneer_key target fuel from to base i) _ h in
        let (ext, d1, d2, d3) = account_keys-derived i priv secret e in
        elim (or_account-eq-ok _ _ r) [
          | inl found ↦
              let b =
                batch_loop-Batched i (P.pub_key_of priv) secret max_batch P.initial_batch_key
                  account found in
              (
                record {
                  number = i;
                  extended_key = ext;
                  derived = d1;
                  priv_key = priv;
                  private = d2;
                  secret = secret;
                  shared = d3;
                  step = b.step;
                  in_range = b.in_range;
                  is_account = b.is_account;
                },
                omega arith,
                omega arith,
              )
          | inr next ↦
              let (p, lo, hi) = account_loop-Recovered n (i + 1) account next in
              (p, omega arith, omega arith)
        ]

-- For an expiry limit below 2^32 - 1: an account that `bruteForceAccountScript` returns has one of the account
-- numbers, the secret of that number's private key and the auctioneer, a batch key that is at most the
-- number of batch keys away from the first one and an expiry of the range; and its script, with the keys
-- that it was made of, is the one of which the target is the hash, or the leaf of which the target holds
-- the aggregate key.
pub brute_force_account_script-Recovered :
    (K : KeyLib) (P : PoolLib K) (auctioneer_key : K.PublicKey) (target : Text) (fuel from to : ℕ)
    (small : to < 2 ^ 32 - 1) (base : K.ExtendedKey) (max_accounts max_batch : ℕ)
    (account : PoolAccount)
    → brute_force_account_script K P auctioneer_key target fuel from to base max_accounts max_batch
      ≡ some (ok account)
    → (p : Recovered K P auctioneer_key target fuel from to small base max_batch account)
      × (p.number < max_accounts)
unfolding brute_force_account_script
brute_force_account_script-Recovered K P auctioneer_key target fuel from to small base max_accounts
      max_batch account h =
    let (p, lo, hi) =
      account_loop-Recovered K P auctioneer_key target fuel from to small base max_batch
        max_accounts 0 account h in
    (p, omega arith)
