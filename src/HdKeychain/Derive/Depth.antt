-- ===== src/HdKeychain/Derive/Depth.antt =====
-- The levels at which `DeriveChildren` of lnd/hdkeychain.go serializes a key, and lnd's wallet.
use chantools.Prelude.{
  ℕ, ◌+◌, ◌^◌, ◌<◌, ◌≤◌, List, [], ◌∷◌, ◌++◌, some, Result, ok, ◌>>=◌, ◌==◌, if◌then◌else◌, ◌≡◌,
  refl, ◌≢◌, ◌∙◌, sym, arith, Option-cases, >>=-cong, >>=_assoc, >>=-eq-ok, inl, inr,
}
use chantools.HdKeychain.Path.{hardened_key_start}
use chantools.HdKeychain.Derive.{
  KeyLib, KeyError, derive_failed, reload_failed, try, key_id, next_id, settle, derive_loop,
  derive_children,
}

-- What `hdkeychain` documents of the depth: a child is one level below its parent, and a key that
-- is serialized and read back stays where it was.
pub record DepthLaws (K : KeyLib) : Type 0 where
  pub derived :
      (k : K.ExtendedKey) (i : ℕ) (d : K.ExtendedKey)
      → K.derive_non_standard k i ≡ some d
      → K.depth d ≡ K.depth k + 1
  pub reloaded : (k r : K.ExtendedKey) → K.reload k ≡ some r → K.depth r ≡ K.depth k

module _ (K : KeyLib) where
  -- Derivation with no serialization in between.
  unfoldable pub walk : K.ExtendedKey → List ℕ → Result KeyError K.ExtendedKey
  walk key [] = ok key
  walk key (part ∷ parts) = try (K.derive_non_standard key part) derive_failed >>= λ d. walk d parts

  pub walk-append :
      (ps qs : List ℕ) (key : K.ExtendedKey)
      → walk key (ps ++ qs) ≡ (walk key ps >>= λ k. walk k qs)
  unfolding walk
  walk-append [] qs key = refl
  walk-append (p ∷ ps) qs key = elim (Option-cases (K.derive_non_standard key p)) [
    | inl e ↦ rw e
    | inr (d, e) ↦ rw e (walk-append ps qs d)
  ]

module _ (K : KeyLib) (laws : DepthLaws K) where
  -- A level other than 2 and 3 is derived with no serialization.
  derive_loop_plain :
      (path : List ℕ) (idx : ℕ) (key : K.ExtendedKey) (part : ℕ) (parts : List ℕ)
      (d : K.ExtendedKey)
      → K.derive_non_standard key part ≡ some d
      → K.depth d ≢ 2
      → K.depth d ≢ 3
      → derive_loop K path idx key (part ∷ parts) ≡ derive_loop K path (idx + 1) d parts
  unfolding derive_loop next_id settle
  derive_loop_plain path idx key part parts d e h2 h3 = ground arith

  pub derive_loop_deep :
      (path : List ℕ) (idx : ℕ) (key : K.ExtendedKey) (parts : List ℕ)
      → 3 ≤ K.depth key
      → derive_loop K path idx key parts ≡ walk K key parts
  unfolding walk
  derive_loop_deep path idx key [] h = unfold derive_loop in refl
  derive_loop_deep path idx key (part ∷ parts) h =
      elim (Option-cases (K.derive_non_standard key part)) [
        | inl e ↦ unfold derive_loop in rw e
        | inr (d, e) ↦
            let deeper : K.depth d ≡ K.depth key + 1 = laws.derived key part d e in
            derive_loop_plain path idx key part parts d e (omega arith) (omega arith)
            ∙ derive_loop_deep path (idx + 1) d parts (omega arith)
            ∙ sym (rw e)
      ]

key_id-zero : (c : ℕ) → c < 2 ^ 32 → (key_id c == 0) ≡ (c == hardened_key_start)
unfolding key_id
key_id-zero c h = ground arith

module _ (K : KeyLib) where
  child : K.ExtendedKey → ℕ → Result KeyError K.ExtendedKey
  child key part = try (K.derive_non_standard key part) derive_failed

  -- lnd serializes the coin type and the account key, but for the default account.
  store : ℕ → K.ExtendedKey → Result KeyError K.ExtendedKey
  store account key =
      if account == hardened_key_start then ok key else try (K.reload key) reload_failed

  -- What lnd's wallet does on a path of three levels and more.
  pub wallet_derive : K.ExtendedKey → ℕ → ℕ → ℕ → List ℕ → Result KeyError K.ExtendedKey
  wallet_derive master purpose coin account rest = do
    purpose_key ← child master purpose
    coin_key ← child purpose_key coin
    stored_coin_key ← store account coin_key
    account_key ← child stored_coin_key account
    stored_account_key ← store account account_key
    walk K stored_account_key rest

module _ (K : KeyLib) (laws : DepthLaws K) where
  derive_loop_account :
      (path : List ℕ) (key : K.ExtendedKey) (c : ℕ) (rest : List ℕ)
      → c < 2 ^ 32
      → K.depth key ≡ 2
      → derive_loop K path 2 key (c ∷ rest)
        ≡ (child K key c >>= λ k. store K c k >>= λ s. derive_loop K path 3 s rest)
  unfolding derive_loop next_id settle child store
  derive_loop_account path key c rest hc h = elim (Option-cases (K.derive_non_standard key c)) [
    | inl e ↦ rw e
    | inr (d, e) ↦ ground (arith, laws.derived key c d e, key_id-zero c hc)
  ]

  derive_loop_coin :
      (a b c : ℕ) (key : K.ExtendedKey) (rest : List ℕ)
      → c < 2 ^ 32
      → K.depth key ≡ 1
      → derive_loop K (a ∷ b ∷ c ∷ rest) 1 key (b ∷ c ∷ rest) ≡ (
          child K key b >>= λ k.
          store K c k >>= λ s. derive_loop K (a ∷ b ∷ c ∷ rest) 2 s (c ∷ rest))
  unfolding derive_loop next_id settle child store
  derive_loop_coin a b c key rest hc h = elim (Option-cases (K.derive_non_standard key b)) [
    | inl e ↦ rw e
    | inr (d, e) ↦ ground (arith, laws.derived key b d e, key_id-zero c hc)
  ]

  store-depth :
      (c : ℕ) (k : K.ExtendedKey) {s : K.ExtendedKey} → store K c k ≡ ok s → K.depth s ≡ K.depth k
  unfolding store
  store-depth c k {s} h = elim (Option-cases (K.reload k)) [
    | inl e ↦ ground arith
    | inr (r, e) ↦ ground (arith, laws.reloaded k r e)
  ]

  child-depth :
      (k : K.ExtendedKey) (i : ℕ) {d : K.ExtendedKey}
      → child K k i ≡ ok d
      → K.depth d ≡ K.depth k + 1
  unfolding child
  child-depth k i {d} h = elim (Option-cases (K.derive_non_standard k i)) [
    | inl e ↦ ground arith
    | inr (r, e) ↦ ground (arith, laws.derived k i r e)
  ]

  derive_loop_below_coin :
      (path : List ℕ) (c : ℕ) (rest : List ℕ) (key : K.ExtendedKey)
      → c < 2 ^ 32
      → K.depth key ≡ 2
      → derive_loop K path 2 key (c ∷ rest)
        ≡ (child K key c >>= λ k. store K c k >>= λ s. walk K s rest)
  derive_loop_below_coin path c rest key hc h =
      derive_loop_account path key c rest hc h
      ∙ >>=-cong (child K key c) _ _ λ k made. >>=-cong (store K c k) _ _ λ s kept.
        derive_loop_deep K laws path 3 s rest
          (omega (arith, child-depth key c made, store-depth c k kept))

  derive_loop_below_purpose :
      (a b c : ℕ) (rest : List ℕ) (key : K.ExtendedKey)
      → c < 2 ^ 32
      → K.depth key ≡ 1
      → derive_loop K (a ∷ b ∷ c ∷ rest) 1 key (b ∷ c ∷ rest) ≡ (
          child K key b >>= λ coin_key. store K c coin_key >>= λ stored.
          child K stored c >>= λ k. store K c k >>= λ s. walk K s rest)
  derive_loop_below_purpose a b c rest key hc h =
      derive_loop_coin a b c key rest hc h
      ∙ >>=-cong (child K key b) _ _ λ k made. >>=-cong (store K c k) _ _ λ s kept.
        derive_loop_below_coin (a ∷ b ∷ c ∷ rest) c rest s hc
          (omega (arith, child-depth key b made, store-depth c k kept))

  -- From a key of depth 0, under `DepthLaws`, and for an account index of 32 bits, `DeriveChildren` does
  -- what lnd's wallet does, whatever the path below the account.
  pub derive_children-eq-wallet_derive :
      (master : K.ExtendedKey) (purpose coin account : ℕ) (rest : List ℕ)
      → K.depth master ≡ 0
      → account < 2 ^ 32
      → derive_children K master (purpose ∷ coin ∷ account ∷ rest)
        ≡ wallet_derive K master purpose coin account rest
  unfolding derive_children wallet_derive
  derive_children-eq-wallet_derive master a b c rest h hc =
      elim (Option-cases (K.derive_non_standard master a)) [
        | inl e ↦ unfold derive_loop child in rw e
        | inr (d, e) ↦
            let below : K.depth d ≡ K.depth master + 1 = laws.derived master a d e in
            derive_loop_plain K laws (a ∷ b ∷ c ∷ rest) 0 master a (b ∷ c ∷ rest) d e (omega arith)
              (omega arith)
            ∙ derive_loop_below_purpose a b c rest d hc (omega arith)
            ∙ unfold child in rw e
      ]

  walk-depth :
      (key : K.ExtendedKey) (parts : List ℕ) {k : K.ExtendedKey}
      → walk K key parts ≡ ok k
      → K.depth key ≤ K.depth k
  unfolding walk
  walk-depth key [] h = ground arith
  walk-depth key (p ∷ ps) {k} h = elim (Option-cases (K.derive_non_standard key p)) [
    | inl e ↦ ground arith
    | inr (d, e) ↦ omega (arith, laws.derived key p d e, walk-depth d ps (subst_walk d e))
  ]
    where
      subst_walk : (d : K.ExtendedKey) → K.derive_non_standard key p ≡ some d → walk K d ps ≡ ok k
      subst_walk d e = rw e at h

  wallet_derive-append :
      (master : K.ExtendedKey) (a b c : ℕ) (ps qs : List ℕ)
      → wallet_derive K master a b c (ps ++ qs)
        ≡ (wallet_derive K master a b c ps >>= λ k. walk K k qs)
  unfolding wallet_derive
  wallet_derive-append master a b c ps qs = simp (>>=_assoc, walk-append)

  wallet_derive-depth :
      (master : K.ExtendedKey) (a b c : ℕ) (ps : List ℕ) {k : K.ExtendedKey}
      → K.depth master ≡ 0
      → wallet_derive K master a b c ps ≡ ok k
      → 3 ≤ K.depth k
  unfolding wallet_derive
  wallet_derive-depth master a b c ps h e =
      let (k1, e1, r1) = >>=-eq-ok (child K master a) _ e in
      let (k2, e2, r2) = >>=-eq-ok (child K k1 b) _ r1 in
      let (s2, e3, r3) = >>=-eq-ok (store K c k2) _ r2 in
      let (k3, e4, r4) = >>=-eq-ok (child K s2 c) _ r3 in
      let (s3, e5, r5) = >>=-eq-ok (store K c k3) _ r4 in
      omega (
        arith,
        child-depth master a e1,
        child-depth k1 b e2,
        store-depth c k2 e3,
        child-depth s2 c e4,
        store-depth c k3 e5,
        walk-depth s3 ps r5,
      )

  walk-eq-derive_children :
      (key : K.ExtendedKey) (qs : List ℕ)
      → 3 ≤ K.depth key
      → walk K key qs ≡ derive_children K key qs
  unfolding derive_children
  walk-eq-derive_children key qs h = sym (derive_loop_deep K laws qs 0 key qs h)

  -- From a key of depth 0, under `DepthLaws`, and for an account index of 32 bits, a path can be derived
  -- in two parts below the account.
  pub derive_children-append :
      (master : K.ExtendedKey) (purpose coin account : ℕ) (ps qs : List ℕ)
      → K.depth master ≡ 0
      → account < 2 ^ 32
      → derive_children K master (purpose ∷ coin ∷ account ∷ (ps ++ qs)) ≡ (
          derive_children K master (purpose ∷ coin ∷ account ∷ ps) >>= λ key.
          derive_children K key qs)
  derive_children-append master a b c ps qs h hc =
      rw (derive_children-eq-wallet_derive master a b c (ps ++ qs) h hc) (
        rw (derive_children-eq-wallet_derive master a b c ps h hc) (
          wallet_derive-append master a b c ps qs
          ∙ >>=-cong (wallet_derive K master a b c ps) _ _
              λ k made. walk-eq-derive_children k qs (wallet_derive-depth master a b c ps h made)))
