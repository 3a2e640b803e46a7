-- ===== src/Pool/Found.antt =====
-- What the search of cmd/chantools/closepoolaccount.go finds.
use chantools.Prelude.{
  ℕ, zero, suc, ◌+◌, ◌-◌, ◌%◌, ◌^◌, ◌≤◌, ◌<◌, Option, none, some, Result, ok, err, panic, ◌>>◌, ltb,
  ◌≡◌, ◌⊎◌, inl, inr, refl, ◌∙◌, ap, subst, arith, >>=-eq-ok, ok-injective, Bool-cases,
}
use chantools.Prelude.Text.{Text, text_eq, text_eq_sound}
use chantools.HdKeychain.Derive.{KeyLib}
use chantools.Pool.{
  Version, version_witness_script, MuSig2Version, witness_v0_script_hash, witness_v1_taproot,
  AggregateKey, PoolLib, PoolAccount, PoolError, not_derived, build_failed, hash_failed,
  combine_failed, control_block_failed, pool_try, drop, end_block, block_loop, before, or_next,
  check_class, account_ops, taproot_ops, musig2_keys, tweaked_trader, tweaked_auctioneer,
  try_script, taproot_account, try_taproot, fast_script, fast_script_taproot,
}

pub pool_try-eq-ok :
    {A : Type 0} (o : Option A) (e : PoolError) {a : A} → pool_try o e ≡ ok a → o ≡ some a
pool_try-eq-ok none e h = cc
pool_try-eq-ok (some a) e h = ap some (ok-injective h)

pub some_injective : {A : Type 0} {a b : A} → some a ≡ some b → a ≡ b
some_injective h = cc

pub before-eq-ok :
    {A B : Type 0} (m : Result PoolError A) (next : A → Option (Result PoolError B)) {b : B}
    → before m next ≡ some (ok b)
    → (a : A) × (m ≡ ok a) × (next a ≡ some (ok b))
unfolding before
before-eq-ok (ok a) next h = (a, refl, h)
before-eq-ok (err e) next h = cc
before-eq-ok panic next h = cc

pub or_next-eq-ok :
    {A : Type 0} (m : Option (Result PoolError A)) (next : Option (Result PoolError (Option A)))
    {a : A}
    → or_next m next ≡ some (ok (some a))
    → (m ≡ some (ok a)) ⊎ (next ≡ some (ok (some a)))
unfolding or_next
or_next-eq-ok none next h = cc
or_next-eq-ok (some (ok b)) next h =
    inl (ap (λ x. some (ok x)) (some_injective (ok-injective (some_injective h))))
or_next-eq-ok (some (err e)) next h = inr h
or_next-eq-ok (some panic) next h = cc

module _ {A : Type 0} (try_block : ℕ → Result PoolError (Option A)) (to : ℕ) where
  block_loop_sound :
      (fuel i : ℕ) {a : A}
      → to < 2 ^ 32 - 1
      → block_loop try_block fuel i to ≡ some (ok a)
      → (j : ℕ) × (i ≤ j) × (j ≤ to) × (try_block j ≡ ok (some a))
  unfolding block_loop end_block
  block_loop_sound zero i small h = cc
  block_loop_sound (suc fuel) i {a} small h = elim (Bool-cases (ltb to i)) [
    | inl above ↦ absurd (refused (rw above at h))
    | inr within ↦
        round (try_block i) refl (ground arith) (block_loop_sound fuel ((i + 1) % 2 ^ 32) small)
          (rw within at h)
  ]
    where
      refused : some (err not_derived) ≡ some (ok a) → ⊥
      refused p = cc

      round :
          (m : Result PoolError (Option A))
          → try_block i ≡ m
          → i ≤ to
          → (block_loop try_block fuel ((i + 1) % 2 ^ 32) to ≡ some (ok a)
              → (j : ℕ) × ((i + 1) % 2 ^ 32 ≤ j) × (j ≤ to) × (try_block j ≡ ok (some a)))
          → end_block m (block_loop try_block fuel ((i + 1) % 2 ^ 32) to) ≡ some (ok a)
          → (j : ℕ) × (i ≤ j) × (j ≤ to) × (try_block j ≡ ok (some a))
      round (ok (some b)) e le later h =
          (i, omega arith, le, e ∙ ap (λ x. ok (some x)) (ok-injective (some_injective h)))
      round (ok none) e le later h =
          let (j, above, below, found) = later h in (j, omega (arith, above), below, found)
      round (err e') e le later h = cc
      round panic e le later h = cc

module _ (K : KeyLib) (P : PoolLib K) (target : Text) (auctioneer_key : K.PublicKey) where
  -- An account whose output has the target as its script.
  pub data Pays (trader batch : K.PublicKey) (secret : Text) (account : PoolAccount) : Type 0 where
    by_script :
        account.version ≡ version_witness_script
        → P.build_script (
            account_ops K P
              (P.tweak_pub_key_with_tweak trader account.key_tweak)
              (P.tweak_pub_key auctioneer_key (P.tweak_pub_key_with_tweak trader account.key_tweak))
              account.expiry)
          ≡ some account.witness_script
        → P.witness_script_hash account.witness_script ≡ some target
        → Pays trader batch secret account
    by_taproot :
        (musig2 : MuSig2Version) (auctioneer trader' : K.PublicKey) (key : AggregateKey K)
        → musig2_keys K P account.version auctioneer_key trader ≡ ok (musig2, auctioneer, trader')
        → P.build_script
            (taproot_ops K P (P.tweak_pub_key_with_tweak trader account.key_tweak) account.expiry)
          ≡ some account.witness_script
        → P.musig2_combine_keys musig2 auctioneer trader' (P.tap_hash account.witness_script)
          ≡ some key
        → P.serialize_schnorr key.final_key ≡ drop 2 target
        → Pays trader batch secret account

  -- An account as the search for one trader key, batch key and secret returns it.
  pub record IsAccountOf (i : ℕ) (trader batch : K.PublicKey) (secret : Text) (from to : ℕ)
      (account : PoolAccount) : Type 0 where
    pub index_kept : account.key_index ≡ i
    pub secret_kept : account.shared_key ≡ secret
    pub batch_kept : account.batch_key ≡ P.serialize_compressed batch
    pub tweak_kept : account.key_tweak ≡ P.trader_key_tweak batch secret trader
    pub late : from ≤ account.expiry
    pub early : account.expiry ≤ to
    pub pays : Pays trader batch secret account

  module _ (i : ℕ) (trader batch : K.PublicKey) (secret : Text) (from to : ℕ) where
    try_script-IsAccountOf :
        (block : ℕ) (account : PoolAccount)
        → from ≤ block
        → block ≤ to
        → try_script K P target i trader auctioneer_key batch secret block ≡ ok (some account)
        → IsAccountOf i trader batch secret from to account
    unfolding try_script
    try_script-IsAccountOf block account lo hi h =
        let (script, e, r) =
          >>=-eq-ok
            (pool_try
              (P.build_script (
                account_ops K P (tweaked_trader K P target i trader auctioneer_key batch secret)
                  (tweaked_auctioneer K P target i trader auctioneer_key batch secret) block))
              build_failed)
            _ h in
        let (hash, e', r') = >>=-eq-ok (pool_try (P.witness_script_hash script) hash_failed) _ r in
        elim (Bool-cases (text_eq hash target)) [
          | inl hit ↦
              subst (IsAccountOf i trader batch secret from to)
                (some_injective (ok-injective (rw hit at r')))
                (record {
                  index_kept = refl;
                  secret_kept = refl;
                  batch_kept = refl;
                  tweak_kept = refl;
                  late = lo;
                  early = hi;
                  pays = by_script refl (pool_try-eq-ok _ build_failed e) (
                      pool_try-eq-ok (P.witness_script_hash script) hash_failed e'
                      ∙ ap some (text_eq_sound hash target hit));
                })
          | inr miss ↦ absurd (missed (rw miss at r'))
        ]
      where
        missed : ◌≡◌ {A = Result PoolError (Option PoolAccount)} (ok none) (ok (some account)) → ⊥
        missed p = cc

    try_taproot-IsAccountOf :
        (version : Version) (keys : MuSig2Version × K.PublicKey × K.PublicKey) (block : ℕ)
        (account : PoolAccount)
        → musig2_keys K P version auctioneer_key trader ≡ ok keys
        → from ≤ block
        → block ≤ to
        → try_taproot K P target i trader auctioneer_key batch secret version keys block
          ≡ ok (some account)
        → IsAccountOf i trader batch secret from to account
    unfolding try_taproot taproot_account
    try_taproot-IsAccountOf version (musig2, auctioneer, trader') block account made lo hi h =
        let (script, e, r) =
          >>=-eq-ok
            (pool_try
              (P.build_script (
                taproot_ops K P (tweaked_trader K P target i trader auctioneer_key batch secret)
                  block))
              build_failed)
            _ h in
        let (key, e', r') =
          >>=-eq-ok
            (pool_try (P.musig2_combine_keys musig2 auctioneer trader' (P.tap_hash script))
              combine_failed)
            _ r in
        elim (Bool-cases (text_eq (P.serialize_schnorr key.final_key) (drop 2 target))) [
          | inl hit ↦
              let (bytes, e'', r'') =
                >>=-eq-ok
                  (pool_try (P.control_block key.pre_tweaked_key (P.is_odd key.final_key))
                    control_block_failed)
                  _ (rw hit at r') in
              subst (IsAccountOf i trader batch secret from to) (some_injective (ok-injective r''))
                (record {
                  index_kept = refl;
                  secret_kept = refl;
                  batch_kept = refl;
                  tweak_kept = refl;
                  late = lo;
                  early = hi;
                  pays =
                      by_taproot musig2 auctioneer trader' key made
                        (pool_try-eq-ok _ build_failed e)
                        (pool_try-eq-ok
                          (P.musig2_combine_keys musig2 auctioneer trader' (P.tap_hash script))
                          combine_failed e')
                        (text_eq_sound (P.serialize_schnorr key.final_key) (drop 2 target) hit);
                })
          | inr miss ↦ absurd (missed (rw miss at r'))
        ]
      where
        missed : ◌≡◌ {A = Result PoolError (Option PoolAccount)} (ok none) (ok (some account)) → ⊥
        missed p = cc

    module _ (fuel : ℕ) (small : to < 2 ^ 32 - 1) where
      pub fast_script-IsAccountOf :
          (account : PoolAccount)
          → fast_script K P target i trader auctioneer_key batch secret fuel from to
            ≡ some (ok account)
          → IsAccountOf i trader batch secret from to account
      unfolding fast_script
      fast_script-IsAccountOf account h =
          let (u, e, r) = before-eq-ok (check_class K P target witness_v0_script_hash) _ h in
          let (j, lo, hi, found) =
            block_loop_sound (try_script K P target i trader auctioneer_key batch secret) to fuel
              from small r in
          try_script-IsAccountOf j account lo hi found

      pub fast_script_taproot-IsAccountOf :
          (version : Version) (account : PoolAccount)
          → fast_script_taproot K P target i trader auctioneer_key batch secret version fuel from to
            ≡ some (ok account)
          → IsAccountOf i trader batch secret from to account
      unfolding fast_script_taproot
      fast_script_taproot-IsAccountOf version account h =
          let (keys, e, r) =
            before-eq-ok
              (check_class K P target witness_v1_taproot
                >> musig2_keys K P version auctioneer_key trader)
              _ h in
          let (u, e', made) = >>=-eq-ok (check_class K P target witness_v1_taproot) _ e in
          let (j, lo, hi, found) =
            block_loop_sound
              (try_taproot K P target i trader auctioneer_key batch secret version keys) to fuel
              from small r in
          try_taproot-IsAccountOf version keys j account made lo hi found
