-- ===== src/Descriptor/Created.antt =====
-- The checksum that `DescriptorSumCreate` of btc/descriptors.go appends.
use chantools.Prelude.{
  ℕ, zero, suc, ◌*◌, ◌/◌, ◌%◌, ◌^◌, ◌<◌, List, [], ◌∷◌, ◌++◌, some, ok, length, get_elem?,
  get_elem?_total, ◌≡◌, refl, sym, ap, ◌∙◌, arith,
}
use chantools.Prelude.Text.{Text}
use chantools.Descriptor.{
  polymod, polymod_from, polymod_step, expand, checksum_charset, checksum_chars, zeros,
  descriptor_sum_create,
}
use chantools.Descriptor.Xor.{xor}
use chantools.Descriptor.Linear.{
  polymod_from-xor, polymod_step-lt, xor-lt, xor_zero_right, xor_twice, pack, Fits,
  polymod_from-word,
}

-- Characters with their places in the alphabet of checksums.
abbrev pub AreSymbols : Text → List ℕ → Type 0
AreSymbols [] [] = Unit
AreSymbols [] (_ ∷ _) = ⊥
AreSymbols (_ ∷ _) [] = ⊥
AreSymbols (c ∷ cs) (v ∷ vs) = (get_elem? checksum_charset v ≡ some c) × AreSymbols cs vs

-- The lowest `n` groups of 5 bits, the highest one first.
abbrev digits : ℕ → ℕ → List ℕ
digits x zero = []
digits x (suc n) = (x / 2 ^ (5 * n)) % 32 ∷ digits x n

checksum_chars-AreSymbols :
    (x n : ℕ)
    → (cs : Text) × (checksum_chars x n ≡ ok cs) × (length cs ≡ n) × AreSymbols cs (digits x n)
unfolding checksum_chars
checksum_chars-AreSymbols x zero = ([], refl, refl, tt)
checksum_chars-AreSymbols x (suc n) =
    let (c, at) = get_elem?_total checksum_charset ((x / 2 ^ (5 * n)) % 32) (omega arith) in
    let (cs, e, len, symbols) = checksum_chars-AreSymbols x n in
    (c ∷ cs, rw (at, e), omega (arith, len), (at, symbols))

polymod_from-append :
    (chk : ℕ) (vs ws : List ℕ) → polymod_from chk (vs ++ ws) ≡ polymod_from (polymod_from chk vs) ws
unfolding polymod_from
polymod_from-append chk [] ws = refl
polymod_from-append chk (v ∷ vs) ws = polymod_from-append (polymod_step chk v) vs ws

digits-Fits : (x : ℕ) → x < 2 ^ 40 → Fits 0 (digits x 8)
digits-Fits x small = (
  omega arith,
  omega arith,
  (
    omega arith,
    omega arith,
    (
      omega arith,
      omega arith,
      (
        omega arith,
        omega arith,
        (
          omega arith,
          omega arith,
          (omega arith, omega arith, (omega arith, omega arith, (omega arith, omega arith, tt))),
        ),
      ),
    ),
  ),
)

pack-digits : (x : ℕ) → x < 2 ^ 40 → pack 0 (digits x 8) ≡ x
pack-digits x small = omega arith

polymod_from-digits :
    (chk x : ℕ)
    → chk < 2 ^ 64
    → x < 2 ^ 40
    → polymod_from chk (digits x 8) ≡ xor (polymod_from chk zeros) x
polymod_from-digits chk x word small =
    ap (λ n. polymod_from n (digits x 8)) (sym (xor_zero_right chk word))
    ∙ polymod_from-xor chk 0 (digits x 8) word (digits-Fits x small)
    ∙ ap (xor (polymod_from chk zeros)) (pack-digits x small)

zeros-lt : (chk : ℕ) → polymod_from chk zeros < 2 ^ 40
unfolding polymod_from
zeros-lt chk = polymod_step-lt _ 0 (omega arith)

-- The state before the digits may be any word.
digits-check :
    (chk : ℕ) → chk < 2 ^ 64 → polymod_from chk (digits (xor (polymod_from chk zeros) 1) 8) ≡ 1
digits-check chk word =
    let P = polymod_from chk zeros in
    polymod_from-digits chk (xor P 1) word
      (xor-lt 40 P 1 (omega arith) (zeros-lt chk) (omega arith))
    ∙ xor_twice P 1 (omega arith)

-- `DescriptorSumCreate` never reads outside the alphabet: it returns the descriptor, a `#` and eight characters
-- of the alphabet, and these are its checksum: behind the symbols of the descriptor, their places in the alphabet
-- make the polynomial's remainder 1.
pub descriptor_sum_create-AreSymbols :
    (s : Text)
    → (cs : Text) × (vs : List ℕ) × (descriptor_sum_create s ≡ ok (s ++ b'#' ∷ cs))
      × (length cs ≡ 8)
      × AreSymbols cs vs
      × (polymod (expand s ++ vs) ≡ 1)
unfolding descriptor_sum_create polymod
descriptor_sum_create-AreSymbols s =
    let chk = polymod_from 1 (expand s) in
    let x = xor (polymod_from 1 (expand s ++ zeros)) 1 in
    let (cs, e, len, symbols) = checksum_chars-AreSymbols x 8 in
    let same : x ≡ xor (polymod_from chk zeros) 1 =
      ap (λ n. xor n 1) (polymod_from-append 1 (expand s) zeros) in
    (
      cs,
      digits x 8,
      rw e refl,
      len,
      symbols,
      polymod_from-append 1 (expand s) (digits x 8)
          ∙ ap (λ n. polymod_from chk (digits n 8)) same
          ∙ digits-check chk (polymod_from-word 1 (expand s) (omega arith)),
    )
