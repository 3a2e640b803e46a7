-- ===== src/Descriptor/Check.antt =====
-- What btc/descriptors.go creates and accepts.
use chantools.Prelude.{
  ℕ, ◌-◌, ◌*◌, ◌/◌, ◌%◌, ◌^◌, ◌≤◌, ◌<◌, List, [], ◌∷◌, ◌++◌, Bool, true, false, none, ok, ltb, ◌==◌,
  length, length-append, subst, ◌≡◌, refl, arith, All, Bool-cases, inl, inr,
}
use chantools.Prelude.Text.{Text, contains}
use chantools.Descriptor.{
  polymod, polymod_from, polymod_step, mix, generator, expand, checksum_charset, find_text,
  checksum_symbol, check_parts, take, drop, split_end, descriptor_sum_check, all_in_charset,
}
use chantools.Descriptor.Xor.{xor, xor_bits-lt, xor_bits_high, xor_bits_comm}

-- A word above 40 bits.
abbrev High : ℕ → Type 0
High a = (2 ^ 40 ≤ a) × (a < 2 ^ 64)

xor-High : (a b : ℕ) → b < 2 ^ 40 → High a → High (xor a b)
unfolding xor
xor-High a b small (big, bound) =
    (xor_bits_high 40 64 a b (omega arith) small big bound, xor_bits-lt 64 a b)

mix-High :
    (top bit : ℕ) (gs : List ℕ) (chk : ℕ)
    → All (λ g. g < 2 ^ 40) gs
    → High chk
    → High (mix top bit gs chk)
unfolding mix
mix-High top bit [] chk small high = high
mix-High top bit (g ∷ gs) chk (s, small) high = elim (Bool-cases ((top / bit) % 2 == 0)) [
  | inl even ↦ rw even (mix-High top (bit * 2) gs chk small high)
  | inr odd ↦ rw odd (mix-High top (bit * 2) gs (xor chk g) small (xor-High chk g s high))
]

all_ones-High : (a : ℕ) → a < 2 ^ 40 → High (xor a (2 ^ 64 - 1))
unfolding xor
all_ones-High a small = rw (xor_bits_comm 64 a (2 ^ 64 - 1)) (
  xor_bits_high 40 64 (2 ^ 64 - 1) a (omega arith) small (omega arith) (omega arith),
  xor_bits-lt 64 (2 ^ 64 - 1) a,
)

generators : All (λ g. g < 2 ^ 40) generator
generators = (omega arith, (omega arith, (omega arith, (omega arith, (omega arith, tt)))))

polymod_step-High : (chk : ℕ) → High (polymod_step chk (2 ^ 64 - 1))
unfolding polymod_step
polymod_step-High chk =
    mix-High (chk / 2 ^ 35) 1 generator (xor ((chk % 2 ^ 35) * 2 ^ 5) (2 ^ 64 - 1)) generators
      (all_ones-High ((chk % 2 ^ 35) * 2 ^ 5) (omega arith))

polymod_from-snoc :
    (chk : ℕ) (symbols : List ℕ) (v : ℕ)
    → polymod_from chk (symbols ++ v ∷ []) ≡ polymod_step (polymod_from chk symbols) v
unfolding polymod_from
polymod_from-snoc chk [] v = refl
polymod_from-snoc chk (s ∷ symbols) v = polymod_from-snoc (polymod_step chk s) symbols v

polymod-missed : (symbols : List ℕ) → (polymod (symbols ++ (2 ^ 64 - 1) ∷ []) == 1) ≡ false
unfolding polymod
polymod-missed symbols =
    let (big, bound) = polymod_step-High (polymod_from 1 symbols) in
    rw (polymod_from-snoc 1 symbols (2 ^ 64 - 1)) (ground (arith, big))

contains-middle : (c : ℕ) (s t : Text) → contains c (s ++ c ∷ t) ≡ true
unfolding contains
contains-middle c [] t = ground arith
contains-middle c (d ∷ s) t = ground (arith, contains-middle c s t)

take-length : (s t : Text) → take (length s) (s ++ t) ≡ s
take-length [] t = refl
take-length (c ∷ s) t = rw (take-length s t)

drop-length : (s t : Text) → drop (length s) (s ++ t) ≡ t
drop-length [] t = refl
drop-length (c ∷ s) t = drop-length s t

split_end-append : (s t : Text) → split_end (s ++ t) (length t) ≡ ok (s, t)
unfolding split_end
split_end-append s t =
    let same : length (s ++ t) - length t ≡ length s = omega (arith, length-append s t) in
    let long : ltb (length (s ++ t)) (length t) ≡ false = ground (arith, length-append s t) in
    rw (long, same, take-length s t, drop-length s t)

check_parts-missed :
    (body checksum : Text)
    → find_text checksum checksum_charset ≡ none
    → check_parts body (b'#' ∷ checksum) ≡ ok false
unfolding check_parts checksum_symbol
check_parts-missed body checksum missing = elim (Bool-cases (all_in_charset checksum)) [
  | inl inside ↦ rw (inside, missing, polymod-missed (expand body))
  | inr outside ↦ rw outside
]

-- A text with a checksum of eight characters is refused whenever these do not stand side by side in
-- the alphabet of checksums, whatever the text before them is.
pub descriptor_sum_check_refuses :
    (body checksum : Text) (require : Bool)
    → length checksum ≡ 8
    → find_text checksum checksum_charset ≡ none
    → descriptor_sum_check (body ++ b'#' ∷ checksum) require ≡ ok false
unfolding descriptor_sum_check
descriptor_sum_check_refuses body checksum require eight missing =
    let split : split_end (body ++ b'#' ∷ checksum) 9 ≡ ok (body, b'#' ∷ checksum) =
      subst (λ n. split_end (body ++ b'#' ∷ checksum) n ≡ ok (body, b'#' ∷ checksum))
        (omega (arith, eight)) (split_end-append body (b'#' ∷ checksum)) in
    rw (contains-middle b'#' body checksum, split) (check_parts-missed body checksum missing)
