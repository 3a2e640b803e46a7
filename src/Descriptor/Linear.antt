-- ===== src/Descriptor/Linear.antt =====
-- The polynomial of btc/descriptors.go is linear in the symbols at its end.
use chantools.Prelude.{ℕ, ◌+◌, ◌*◌, ◌/◌, ◌%◌, ◌^◌, ◌≤◌, ◌<◌, ◌≡◌, ◌∙◌, refl, sym, ap, arith}
use chantools.Prelude.{List, [], ◌∷◌, Bool-cases, inl, inr, ◌==◌, All, subst}
use chantools.Descriptor.{mix, polymod_step, polymod_from, generator}
use chantools.Descriptor.Xor.{
  xor, xor_bits, xor_bits-lt, xor_bits_comm, xor_bits-zero, xor_bits_assoc, xor_bits_self,
  xor_bits_split, xor_bits_shift, xor_bits_narrow,
}

-- The mixing of the generators commutes with an exclusive or.
mix-xor :
    (top bit : ℕ) (gs : List ℕ) (a v : ℕ) → mix top bit gs (xor a v) ≡ xor (mix top bit gs a) v
unfolding mix
mix-xor top bit [] a v = refl
mix-xor top bit (g ∷ gs) a v = elim (Bool-cases ((top / bit) % 2 == 0)) [
  | inl even ↦ rw even (mix-xor top (bit * 2) gs a v)
  | inr odd ↦ rw odd (ap (mix top (bit * 2) gs) (swap a v g) ∙ mix-xor top (bit * 2) gs (xor a g) v)
]
  where
    swap : (a v g : ℕ) → xor (xor a v) g ≡ xor (xor a g) v
    swap a v g =
        unfold xor in
        (xor_bits_assoc 64 a v g
          ∙ ap (xor_bits 64 a) (xor_bits_comm 64 v g)
          ∙ sym (xor_bits_assoc 64 a g v))

-- A word that differs in at most its 35 lowest bits has the same top.
xor_low :
    (a e : ℕ)
    → a < 2 ^ 64
    → e < 2 ^ 35
    → xor a e ≡ (a / 2 ^ 35) * 2 ^ 35 + xor_bits 35 (a % 2 ^ 35) e
unfolding xor
xor_low a e word small =
    let parts : a ≡ (a / 2 ^ 35) * 2 ^ 35 + a % 2 ^ 35 = omega arith in
    ap (λ n. xor_bits 64 n e) parts
    ∙ xor_bits_split 35 64 29 (a / 2 ^ 35) (a % 2 ^ 35) e refl (omega arith) small (omega arith)

xor_digit :
    (u e d : ℕ)
    → u < 2 ^ 35
    → e < 2 ^ 35
    → d < 32
    → xor (u * 2 ^ 5) (e * 32 + d) ≡ xor_bits 35 u e * 2 ^ 5 + d
unfolding xor
xor_digit u e d low small digit =
    xor_bits_shift 5 64 59 u e d refl digit
    ∙ ap (λ n. n * 2 ^ 5 + d) (xor_bits_narrow 35 59 u e (omega arith) low small)

pub xor_zero_right : (a : ℕ) → a < 2 ^ 64 → xor a 0 ≡ a
unfolding xor
xor_zero_right a word = xor_bits-zero 64 a word

-- One more digit, behind a difference of at most 35 bits.
polymod_step-xor :
    (a e d : ℕ)
    → a < 2 ^ 64
    → e < 2 ^ 35
    → d < 32
    → polymod_step (xor a e) d ≡ xor (polymod_step a 0) (e * 32 + d)
unfolding polymod_step
polymod_step-xor a e d word small digit =
    let l = xor_bits-lt 35 (a % 2 ^ 35) e in
    let low = xor_low a e word small in
    let top : xor a e / 2 ^ 35 ≡ a / 2 ^ 35 = omega (arith, low, l) in
    let rest : xor a e % 2 ^ 35 ≡ xor_bits 35 (a % 2 ^ 35) e = omega (arith, low, l) in
    let X = xor_bits 35 (a % 2 ^ 35) e in
    let alone : xor (X * 2 ^ 5) d ≡ X * 2 ^ 5 + d =
      ap (xor (X * 2 ^ 5)) (zero_times d)
      ∙ xor_digit X 0 d l (omega arith) digit
      ∙ ap (λ n. n * 2 ^ 5 + d) (xor_bits-zero 35 X l) in
    let u = a % 2 ^ 35 in
    let shifted : xor (u * 2 ^ 5) (e * 32 + d) ≡ X * 2 ^ 5 + d =
      xor_digit u e d (omega arith) small digit in
    let bare : xor (u * 2 ^ 5) 0 ≡ u * 2 ^ 5 = xor_zero_right (u * 2 ^ 5) (omega arith) in
    ap (λ n. mix n 1 generator (xor ((xor a e % 2 ^ 35) * 2 ^ 5) d)) top
    ∙ ap (λ n. mix (a / 2 ^ 35) 1 generator (xor (n * 2 ^ 5) d)) rest
    ∙ ap (mix (a / 2 ^ 35) 1 generator)
        (alone ∙ sym shifted ∙ ap (λ n. xor n (e * 32 + d)) (sym bare))
    ∙ mix-xor (a / 2 ^ 35) 1 generator (xor (u * 2 ^ 5) 0) (e * 32 + d)
  where
    zero_times : (d : ℕ) → d ≡ 0 * 32 + d
    zero_times d = omega arith

pub xor-lt : (k a b : ℕ) → k ≤ 64 → a < 2 ^ k → b < 2 ^ k → xor a b < 2 ^ k
unfolding xor
xor-lt k a b wide low_a low_b =
    subst (λ n. n < 2 ^ k) (sym (xor_bits_narrow k 64 a b wide low_a low_b)) (xor_bits-lt k a b)

mix-lt :
    (top bit : ℕ) (gs : List ℕ) (a : ℕ)
    → All (λ g. g < 2 ^ 40) gs
    → a < 2 ^ 40
    → mix top bit gs a < 2 ^ 40
unfolding mix
mix-lt top bit [] a small low = low
mix-lt top bit (g ∷ gs) a (s, small) low = elim (Bool-cases ((top / bit) % 2 == 0)) [
  | inl even ↦ rw even (mix-lt top (bit * 2) gs a small low)
  | inr odd ↦ rw odd (mix-lt top (bit * 2) gs (xor a g) small (xor-lt 40 a g (omega arith) low s))
]

-- A round whose value has 5 bits gives 40 bits.
pub polymod_step-lt : (a v : ℕ) → v < 32 → polymod_step a v < 2 ^ 40
unfolding polymod_step
polymod_step-lt a v small =
    mix-lt (a / 2 ^ 35) 1 generator (xor ((a % 2 ^ 35) * 2 ^ 5) v)
      (omega arith, (omega arith, (omega arith, (omega arith, (omega arith, tt)))))
      (xor-lt 40 ((a % 2 ^ 35) * 2 ^ 5) v (omega arith) (omega arith) (omega arith))

-- Digits behind a number, and zeros in their place.
abbrev pub pack : ℕ → List ℕ → ℕ
pack e [] = e
pack e (d ∷ ds) = pack (e * 32 + d) ds

abbrev pub Fits : ℕ → List ℕ → Type 0
Fits e [] = Unit
Fits e (d ∷ ds) = (e < 2 ^ 35) × (d < 32) × Fits (e * 32 + d) ds

abbrev pub blank : List ℕ → List ℕ
blank [] = []
blank (_ ∷ ds) = 0 ∷ blank ds

pub polymod_from-xor :
    (a e : ℕ) (ds : List ℕ)
    → a < 2 ^ 64
    → Fits e ds
    → polymod_from (xor a e) ds ≡ xor (polymod_from a (blank ds)) (pack e ds)
unfolding polymod_from
polymod_from-xor a e [] word fits = refl
polymod_from-xor a e (d ∷ ds) word (small, digit, fits) =
    ap (λ n. polymod_from n ds) (polymod_step-xor a e d word small digit)
    ∙ polymod_from-xor (polymod_step a 0) (e * 32 + d) ds
        (omega (arith, polymod_step-lt a 0 (omega arith))) fits

pub xor_twice : (a b : ℕ) → b < 2 ^ 64 → xor a (xor a b) ≡ b
unfolding xor
xor_twice a b word =
    sym (xor_bits_assoc 64 a a b)
    ∙ ap (λ n. xor_bits 64 n b) (xor_bits_self 64 a)
    ∙ xor_bits_comm 64 0 b
    ∙ xor_bits-zero 64 b word

mix-word : (top bit : ℕ) (gs : List ℕ) (a : ℕ) → a < 2 ^ 64 → mix top bit gs a < 2 ^ 64
unfolding mix xor
mix-word top bit [] a word = word
mix-word top bit (g ∷ gs) a word = elim (Bool-cases ((top / bit) % 2 == 0)) [
  | inl even ↦ rw even (mix-word top (bit * 2) gs a word)
  | inr odd ↦ rw odd (mix-word top (bit * 2) gs (xor a g) (xor_bits-lt 64 a g))
]

-- Any values give a word.
pub polymod_from-word : (chk : ℕ) (vs : List ℕ) → chk < 2 ^ 64 → polymod_from chk vs < 2 ^ 64
unfolding polymod_from polymod_step xor
polymod_from-word chk [] word = word
polymod_from-word chk (v ∷ vs) word = polymod_from-word (polymod_step chk v) vs (
    mix-word (chk / 2 ^ 35) 1 generator (xor ((chk % 2 ^ 35) * 2 ^ 5) v)
      (xor_bits-lt 64 ((chk % 2 ^ 35) * 2 ^ 5) v))
