-- ===== src/Prelude/Text/Decimal.antt =====
-- Go's `strconv.Atoi`, `ParseInt` and `ParseUint` in base 10, and the `%d` of `fmt`.
use chantools.Prelude.{
  ℕ, zero, suc, ◌+◌, ◌-◌, ◌*◌, ◌/◌, ◌%◌, ◌^◌, ◌<◌, [], ◌∷◌, ◌++◌, Bool, true, false, ◌&&◌, Option,
  none, some, ◌==◌, ltb, leb, if◌then◌else◌, ◌≡◌, refl, arith, All, append_assoc, ap,
}
use chantools.Prelude.Int.{ℤ, pos, negsuc}
use chantools.Prelude.Text.{Text, Lacks}

unfoldable pub is_digit : ℕ → Bool
is_digit c = leb b'0' c && leb c b'9'

-- The number that digits spell behind `n`.
unfoldable pub digits_from : ℕ → Text → Option ℕ
unfolding is_digit
digits_from n [] = some n
digits_from n (c ∷ s) =
    let rest = digits_from (n * 10 + (c - b'0')) s in if is_digit c then rest else none

-- One or more digits.
unfoldable pub digits_value : Text → Option ℕ
unfolding digits_from
digits_value [] = none
digits_value (c ∷ s) = digits_from 0 (c ∷ s)

-- `strconv.ParseUint(s, 10, bits)`.
unfoldable pub parse_uint : ℕ → Text → Option ℕ
unfolding digits_value
parse_uint bits s = elim (digits_value s) [
  | none ↦ none
  | some n ↦ if ltb n (2 ^ bits) then some n else none
]

-- A magnitude below the bound `2 ^ (bits - 1)`; the negative range has one number more.
unfoldable pub signed : ℕ → Bool → Option ℕ → Option ℤ
signed bits negative none = none
signed bits negative (some n) =
    if negative
    then (if n == 0
        then some (pos 0)
        else if leb n (2 ^ (bits - 1))
        then some (negsuc (n - 1))
        else none)
    else if ltb n (2 ^ (bits - 1))
    then some (pos n)
    else none

-- `strconv.ParseInt(s, 10, bits)`; `strconv.Atoi` is this at 64 bits.
unfoldable pub parse_int : ℕ → Text → Option ℤ
unfolding digits_value signed
parse_int bits [] = none
parse_int bits (c ∷ s) =
    if c == b'-'
    then signed bits true (digits_value s)
    else if c == b'+'
    then signed bits false (digits_value s)
    else signed bits false (digits_value (c ∷ s))

unfoldable pub atoi : Text → Option ℤ
unfolding parse_int
atoi s = parse_int 64 s

-- The conversion of an `int` to an unsigned type of `bits` bits: two's complement, cut off.
unfoldable pub to_uint : ℕ → ℤ → ℕ
to_uint bits (pos n) = n % 2 ^ bits
to_uint bits (negsuc n) = (2 ^ 64 - 1 - n) % 2 ^ bits

-- The digits of `n` in front of `out`; the fuel bounds the number of digits.
print_from : ℕ → ℕ → Text → Text
print_from zero n out = out
print_from (suc f) n out =
    let rest = print_from f (n / 10) ((b'0' + n % 10) ∷ out) in
    if ltb n 10 then (b'0' + n) ∷ out else rest

-- `%d` of a number that is not negative.
unfoldable pub decimal : ℕ → Text
unfolding print_from
decimal n = print_from (suc n) n []

digits_from_last :
    (n : ℕ) (out : Text) → digits_from (n / 10) ((b'0' + n % 10) ∷ out) ≡ digits_from n out
unfolding digits_from
digits_from_last n out = ground arith

digits_from_print :
    (f n : ℕ) (out : Text) → n < f → digits_from 0 (print_from f n out) ≡ digits_from n out
unfolding print_from
digits_from_print zero n out h = absurd (omega arith)
digits_from_print (suc f) n out h = ground (
  arith,
  digits_from_print f (n / 10) ((b'0' + n % 10) ∷ out),
  digits_from_last n out,
  single n out,
)
  where
    single : (n : ℕ) (out : Text) → n < 10 → digits_from 0 ((b'0' + n) ∷ out) ≡ digits_from n out
    single n out h = unfold digits_from in ground arith

print_from-append : (f n : ℕ) (out : Text) → print_from f n out ≡ print_from f n [] ++ out
unfolding print_from
print_from-append zero n out = refl
print_from-append (suc f) n out = ground (
  arith,
  print_from-append f (n / 10) ((b'0' + n % 10) ∷ out),
  print_from-append f (n / 10) ((b'0' + n % 10) ∷ []),
  append_assoc (print_from f (n / 10) []) ((b'0' + n % 10) ∷ []) out,
)

-- All but the last digit.
abbrev pub leading : ℕ → Text
unfolding print_from
leading n = if ltb n 10 then [] else print_from n (n / 10) []

pub decimal_last : (n : ℕ) → decimal n ≡ leading n ++ (b'0' + n % 10) ∷ []
unfolding decimal leading
decimal_last n = ground (arith, print_from-append n (n / 10) ((b'0' + n % 10) ∷ []))

abbrev pub Digits : Text → Type 0
Digits = All (λ c. is_digit c ≡ true)

print_from-Digits : (f n : ℕ) (out : Text) → Digits out → Digits (print_from f n out)
unfolding print_from is_digit
print_from-Digits zero n out h = h
print_from-Digits (suc f) n out h =
    ground (arith, print_from-Digits f (n / 10) ((b'0' + n % 10) ∷ out))

pub decimal-Digits : (n : ℕ) → Digits (decimal n)
unfolding decimal
decimal-Digits n = print_from-Digits (suc n) n [] tt

pub Digits-Lacks : (c : ℕ) (s : Text) → is_digit c ≡ false → Digits s → Lacks c s
Digits-Lacks c [] h _ = tt
Digits-Lacks c (x ∷ s) h (hx, hs) = ((λ e. cc (ap is_digit e)), Digits-Lacks c s h hs)

-- A printed number is read back.
pub digits_value-decimal : (n : ℕ) → digits_value (decimal n) ≡ some n
digits_value-decimal n =
    rw (nonempty (decimal n) (leading n) (decimal_last n))
      (unfold decimal digits_from in digits_from_print (suc n) n [] (omega arith))
  where
    nonempty : (s t : Text) → s ≡ t ++ (b'0' + n % 10) ∷ [] → digits_value s ≡ digits_from 0 s
    nonempty [] [] h = cc
    nonempty [] (x ∷ t) h = cc
    nonempty (c ∷ s) t h = unfold digits_value in refl

parse_int-Digits :
    (bits : ℕ) (s : Text) → Digits s → parse_int bits s ≡ signed bits false (digits_value s)
unfolding parse_int is_digit
parse_int-Digits bits [] h = unfold signed in refl
parse_int-Digits bits (c ∷ s) (hc, hs) = ground arith

pub atoi-decimal : (n : ℕ) → n < 2 ^ 63 → atoi (decimal n) ≡ some (pos n)
unfolding atoi signed
atoi-decimal n h =
    rw (parse_int-Digits 64 (decimal n) (decimal-Digits n), digits_value-decimal n) (ground arith)
