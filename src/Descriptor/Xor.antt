-- ===== src/Descriptor/Xor.antt =====
-- Exclusive or of machine words, and the bits that it keeps.
use chantools.Prelude.{ℕ, zero, suc, ◌+◌, ◌*◌, ◌/◌, ◌%◌, ◌^◌, ◌≤◌, ◌<◌, ◌≡◌, refl, arith}

-- The lowest `w` bits.
unfoldable pub xor_bits : ℕ → ℕ → ℕ → ℕ
xor_bits zero a b = 0
xor_bits (suc w) a b = (a % 2 + b % 2) % 2 + 2 * xor_bits w (a / 2) (b / 2)

-- `^` on `uint64`.
unfoldable pub xor : ℕ → ℕ → ℕ
xor a b = xor_bits 64 a b

pow_suc : (w : ℕ) → 2 ^ suc w ≡ 2 * 2 ^ w
pow_suc w = omega arith

pub xor_bits-lt : (w a b : ℕ) → xor_bits w a b < 2 ^ w
unfolding xor_bits
xor_bits-lt zero a b = omega arith
xor_bits-lt (suc w) a b = omega (arith, xor_bits-lt w (a / 2) (b / 2), pow_suc w)

pub xor_bits-zero : (w a : ℕ) → a < 2 ^ w → xor_bits w a 0 ≡ a
unfolding xor_bits
xor_bits-zero zero a h = omega arith
xor_bits-zero (suc w) a h = omega (arith, xor_bits-zero w (a / 2) (omega (arith, pow_suc w)))

pub xor_bits_comm : (w a b : ℕ) → xor_bits w a b ≡ xor_bits w b a
unfolding xor_bits
xor_bits_comm zero a b = refl
xor_bits_comm (suc w) a b = omega (arith, xor_bits_comm w (a / 2) (b / 2))

-- A number above `k` bits stays above them under an exclusive or with `k` bits.
pub xor_bits_high :
    (k w a b : ℕ) → k ≤ w → b < 2 ^ k → 2 ^ k ≤ a → a < 2 ^ w → 2 ^ k ≤ xor_bits w a b
unfolding xor_bits
xor_bits_high zero w a b kw small big bound =
    let nothing : b ≡ 0 = omega arith in rw nothing (omega (arith, xor_bits-zero w a bound))
xor_bits_high (suc k) zero a b kw small big bound = absurd (omega arith)
xor_bits_high (suc k) (suc w) a b kw small big bound = omega (
  arith,
  pow_suc k,
  xor_bits_high k w (a / 2) (b / 2) (omega arith) (omega (arith, pow_suc k))
      (omega (arith, pow_suc k)) (omega (arith, pow_suc w)),
)

pub xor_bits_assoc : (w a b c : ℕ) → xor_bits w (xor_bits w a b) c ≡ xor_bits w a (xor_bits w b c)
unfolding xor_bits
xor_bits_assoc zero a b c = refl
xor_bits_assoc (suc w) a b c =
    let r = xor_bits w (a / 2) (b / 2) in
    let q = xor_bits w (b / 2) (c / 2) in
    let left : ((a % 2 + b % 2) % 2 + 2 * r) / 2 ≡ r = omega arith in
    let right : ((b % 2 + c % 2) % 2 + 2 * q) / 2 ≡ q = omega arith in
    let bits : (((a % 2 + b % 2) % 2 + 2 * r) % 2 + c % 2) % 2
        ≡ (a % 2 + ((b % 2 + c % 2) % 2 + 2 * q) % 2) % 2 =
      omega arith in
    rw (left, right, bits, xor_bits_assoc w (a / 2) (b / 2) (c / 2)) refl

times_two : (h k : ℕ) → h * 2 ^ suc k ≡ 2 * (h * 2 ^ k)
times_two h k = rw (pow_suc k) (omega arith)

pub xor_bits_self : (w a : ℕ) → xor_bits w a a ≡ 0
unfolding xor_bits
xor_bits_self zero a = refl
xor_bits_self (suc w) a = omega (arith, xor_bits_self w (a / 2))

-- The higher bits of the first number stay where the second one has none.
pub xor_bits_split :
    (k w v h l e : ℕ)
    → w ≡ k + v
    → l < 2 ^ k
    → e < 2 ^ k
    → h < 2 ^ v
    → xor_bits w (h * 2 ^ k + l) e ≡ h * 2 ^ k + xor_bits k l e
unfolding xor_bits
xor_bits_split zero w v h l e whole low small high =
    let same : w ≡ v = omega arith in
    let nothing : e ≡ 0 = omega arith in
    let alone : h * 2 ^ 0 + l ≡ h = omega arith in
    let kept : h * 2 ^ 0 ≡ h = omega arith in
    rw (same, nothing, alone, kept) (omega (arith, xor_bits-zero v h high))
xor_bits_split (suc k) zero v h l e whole low small high = absurd (omega arith)
xor_bits_split (suc k) (suc w) v h l e whole low small high =
    let twice = times_two h k in
    let half : (h * 2 ^ suc k + l) / 2 ≡ h * 2 ^ k + l / 2 = omega (arith, twice) in
    let rest =
      xor_bits_split k w v h (l / 2) (e / 2) (omega arith) (omega (arith, pow_suc k))
        (omega (arith, pow_suc k)) high in
    rw half (omega (arith, twice, rest))

-- A shift by `k` bits, with something in the bits that are free.
pub xor_bits_shift :
    (k w v u e d : ℕ)
    → w ≡ k + v
    → d < 2 ^ k
    → xor_bits w (u * 2 ^ k) (e * 2 ^ k + d) ≡ xor_bits v u e * 2 ^ k + d
unfolding xor_bits
xor_bits_shift zero w v u e d whole small =
    let same : w ≡ v = omega arith in
    let left : u * 2 ^ 0 ≡ u = omega arith in
    let right : e * 2 ^ 0 + d ≡ e = omega arith in rw (same, left, right) (omega arith)
xor_bits_shift (suc k) zero v u e d whole small = absurd (omega arith)
xor_bits_shift (suc k) (suc w) v u e d whole small =
    let twice = times_two u k in
    let twice' = times_two e k in
    let twice'' = times_two (xor_bits v u e) k in
    let half : (u * 2 ^ suc k) / 2 ≡ u * 2 ^ k = omega (arith, twice) in
    let half' : (e * 2 ^ suc k + d) / 2 ≡ e * 2 ^ k + d / 2 = omega (arith, twice') in
    rw (half, half')
      (omega (
        arith,
        twice,
        twice',
        twice'',
        xor_bits_shift k w v u e (d / 2) (omega arith) (omega (arith, pow_suc k)),
      ))

-- Numbers of `k` bits, in a wider word.
pub xor_bits_narrow :
    (k w a b : ℕ) → k ≤ w → a < 2 ^ k → b < 2 ^ k → xor_bits w a b ≡ xor_bits k a b
unfolding xor_bits
xor_bits_narrow zero w a b wide low_a low_b =
    let none_a : a ≡ 0 = omega arith in
    let none_b : b ≡ 0 = omega arith in rw (none_a, none_b) (xor_bits_self w 0)
xor_bits_narrow (suc k) zero a b wide low_a low_b = absurd (omega arith)
xor_bits_narrow (suc k) (suc w) a b wide low_a low_b = omega (
  arith,
  xor_bits_narrow k w (a / 2) (b / 2) (omega arith) (omega (arith, pow_suc k))
      (omega (arith, pow_suc k)),
)
