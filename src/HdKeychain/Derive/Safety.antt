-- ===== src/HdKeychain/Derive/Safety.antt =====
-- The look ahead of `DeriveChildren` in lnd/hdkeychain.go, `path[idx+1]`.
use chantools.Prelude.{
  ℕ, ◌+◌, ◌<◌, List, [], ◌∷◌, ok, panic, ◌≡◌, ◌≢◌, arith, length, get_elem?, get_elem?_total,
  Option-cases, inl, inr, >>=-ne-panic,
}
use chantools.HdKeychain.Derive.{KeyLib, next_id, settle, derive_loop, derive_children}
use chantools.HdKeychain.Derive.Depth.{DepthLaws}

module _ (K : KeyLib) where
  next_id-ne-panic :
      (path : List ℕ) (idx : ℕ) (d : K.ExtendedKey)
      → (K.depth d ≡ 2 → 2 < length path → idx + 1 < length path)
      → next_id K path idx d ≢ panic
  unfolding next_id
  next_id-ne-panic path idx d h = elim (Option-cases (get_elem? path (idx + 1))) [
    | inl e ↦ ground (arith, get_elem?_total path (idx + 1))
    | inr (n, e) ↦ ground arith
  ]

  settle-ne-panic : (part next : ℕ) (d : K.ExtendedKey) → settle K part next d ≢ panic
  unfolding settle
  settle-ne-panic part next d = ground arith

  settle-depth :
      (laws : DepthLaws K) (part next : ℕ) (d : K.ExtendedKey) {s : K.ExtendedKey}
      → settle K part next d ≡ ok s
      → K.depth s ≡ K.depth d
  unfolding settle
  settle-depth laws part next d {s} h = elim (Option-cases (K.reload d)) [
    | inl e ↦ ground arith
    | inr (r, e) ↦ ground (arith, laws.reloaded d r e)
  ]

module _ (K : KeyLib) (laws : DepthLaws K) (start : ℕ) (path : List ℕ) where
  derive_loop-ne-panic :
      (parts : List ℕ) (idx : ℕ) (key : K.ExtendedKey)
      → idx + length parts ≡ length path
      → K.depth key ≡ start + idx
      → derive_loop K path idx key parts ≢ panic
  unfolding derive_loop
  derive_loop-ne-panic [] idx key h hd = λ p. cc
  derive_loop-ne-panic (part ∷ parts) idx key h hd =
      elim (Option-cases (K.derive_non_standard key part)) [
        | inl e ↦ rw e (λ p. cc)
        | inr (d, e) ↦
            let below : K.depth d ≡ K.depth key + 1 = laws.derived key part d e in
            rw e (
              >>=-ne-panic (next_id K path idx d) _ (next_id-ne-panic K path idx d (omega arith))
                (λ next looked.
                  >>=-ne-panic (settle K part next d) _ (settle-ne-panic K part next d)
                    (λ s settled.
                      derive_loop-ne-panic parts (idx + 1) s (omega arith)
                        (omega (arith, settle-depth K laws part next d settled)))))
      ]

-- Under `DepthLaws`, `DeriveChildren` never reads behind the end of its path, whatever key it starts
-- from.
pub derive_children-ne-panic :
    (K : KeyLib) (laws : DepthLaws K) (key : K.ExtendedKey) (path : List ℕ)
    → derive_children K key path ≢ panic
unfolding derive_children
derive_children-ne-panic K laws key path =
    derive_loop-ne-panic K laws (K.depth key) path path 0 key (omega arith) (omega arith)
