-- ===== src/HdKeychain/Path/RoundTrip.antt =====
-- `ParsePath` of lnd/hdkeychain.go and paths as BIP 32 writes them.
use chantools.Prelude.{
  ℕ, ◌+◌, ◌-◌, ◌%◌, ◌^◌, ◌<◌, List, [], ◌∷◌, ◌++◌, ok, ltb, if◌then◌else◌, ◌≡◌, refl, All,
  All-append, arith, append_assoc, append-nil, map, ◌∙◌, Bool-cases, inl, inr, false,
}
use chantools.Prelude.Text.{
  Text, Lacks, split, trim_right, trim_space, is_space, contains-Lacks, contains_at_end,
  split-Lacks, split_at_sep, trim_right_mark, trim_space_id,
}
use chantools.Prelude.Text.Decimal.{
  to_uint, decimal, is_digit, leading, decimal_last, decimal-Digits, Digits-Lacks, atoi-decimal,
}
use chantools.HdKeychain.Path.{hardened_key_start, read_part, parse_part, parse_parts, parse_path}

-- An index as BIP 32 writes it: from 2^31 on it is hardened, and carries the mark.
unfoldable pub print_index : ℕ → Text
print_index i =
    if ltb i hardened_key_start then decimal i else decimal (i - hardened_key_start) ++ b'\'' ∷ []

-- "/" and an index, for each index.
unfoldable pub print_tail : List ℕ → Text
print_tail [] = []
print_tail (i ∷ is) = b'/' ∷ (print_index i ++ print_tail is)

unfoldable pub print_path : List ℕ → Text
print_path is = b'm' ∷ print_tail is

pub decimal-Lacks : (c n : ℕ) → is_digit c ≡ false → Lacks c (decimal n)
decimal-Lacks c n h = Digits-Lacks c (decimal n) h (decimal-Digits n)

trim_right-decimal : (n : ℕ) → trim_right b'\'' (decimal n ++ b'\'' ∷ []) ≡ decimal n
trim_right-decimal n =
    rw (decimal_last n) (trim_right_mark (leading n) (b'0' + n % 10) b'\'' (omega arith))

read_part-decimal :
    (index n : ℕ) → n < 2 ^ 63 → read_part index (decimal n) ≡ ok ((index + n % 2 ^ 32) % 2 ^ 32)
unfolding read_part to_uint
read_part-decimal index n h = rw (atoi-decimal n h, read_part)

-- A number with the mark is read as the hardened index, cut off to 32 bits.
pub parse_part-hardened :
    (n : ℕ)
    → n < 2 ^ 63
    → parse_part (decimal n ++ b'\'' ∷ []) ≡ ok ((hardened_key_start + n % 2 ^ 32) % 2 ^ 32)
unfolding parse_part
parse_part-hardened n h = ground (
  arith,
  contains_at_end b'\'' (decimal n),
  trim_right-decimal n,
  read_part-decimal hardened_key_start n,
)

parse_part-plain : (n : ℕ) → n < 2 ^ 32 → parse_part (decimal n) ≡ ok n
unfolding parse_part is_digit
parse_part-plain n h =
    ground
      (arith, contains-Lacks b'\'' (decimal n) (decimal-Lacks b'\'' n refl), read_part-decimal 0 n)

parse_part-print : (i : ℕ) → i < 2 ^ 32 → parse_part (print_index i) ≡ ok i
unfolding print_index
parse_part-print i h =
    ground (arith, parse_part-plain i, parse_part-hardened (i - hardened_key_start))

pub slash-Lacks : (i : ℕ) → Lacks b'/' (print_index i)
unfolding print_index is_digit
slash-Lacks i = elim (Bool-cases (ltb i hardened_key_start)) [
  | inl low ↦ rw low (decimal-Lacks b'/' i refl)
  | inr high ↦ rw high (
      All-append _ (decimal (i - hardened_key_start)) (b'\'' ∷ [])
        (decimal-Lacks b'/' (i - hardened_key_start) refl) (omega arith))
]

split-print :
    (i : ℕ) (is : List ℕ)
    → split b'/' (print_index i ++ print_tail is) ≡ print_index i ∷ map print_index is
unfolding print_tail
split-print i [] = rw append-nil (split-Lacks b'/' (print_index i) (slash-Lacks i))
split-print i (j ∷ js) =
    rw (split_at_sep b'/' (print_index i) (print_index j ++ print_tail js) (slash-Lacks i))
      (rw (split-print j js))

parse_parts-print :
    (is : List ℕ) → All (λ i. i < 2 ^ 32) is → parse_parts (map print_index is) ≡ ok is
unfolding parse_parts
parse_parts-print [] h = refl
parse_parts-print (i ∷ is) (hi, hs) = rw (parse_part-print i hi, parse_parts-print is hs)

-- A text whose last character is no space.
abbrev Ends : Text → Type 0
Ends t = (s : Text) × (c : ℕ) × (t ≡ s ++ c ∷ []) × (is_space c ≡ false)

Ends-append : (u t : Text) → Ends t → Ends (u ++ t)
Ends-append u t (s, c, e, h) = (u ++ s, c, rw (e, append_assoc), h)

print_index-Ends : (i : ℕ) → Ends (print_index i)
unfolding print_index is_space
print_index-Ends i = elim (Bool-cases (ltb i hardened_key_start)) [
  | inl low ↦ (leading i, b'0' + i % 10, rw low (decimal_last i), ground arith)
  | inr high ↦ (decimal (i - hardened_key_start), b'\'', rw high, refl)
]

print_tail-Ends : (i : ℕ) (is : List ℕ) → Ends (print_index i ++ print_tail is)
unfolding print_tail
print_tail-Ends i [] = rw append-nil (print_index-Ends i)
print_tail-Ends i (j ∷ js) =
    Ends-append (print_index i) _ (Ends-append (b'/' ∷ []) _ (print_tail-Ends j js))

trim_space-print : (i : ℕ) (is : List ℕ) → trim_space (print_path (i ∷ is)) ≡ print_path (i ∷ is)
unfolding print_path print_tail is_space
trim_space-print i is =
    let (s, c, e, h) = print_tail-Ends i is in rw e (trim_space_id b'm' (b'/' ∷ s) c refl h)

pub parse_path_of :
    (path s : Text)
    → trim_space path ≡ path
    → path ≡ b'm' ∷ b'/' ∷ s
    → parse_path path ≡ parse_parts (split b'/' s)
unfolding parse_path split
parse_path_of path s trimmed e = rw trimmed (rw e (ground arith))

-- A printed path is read back: every non-empty list of 32-bit indices.
pub parse_path-print :
    (i : ℕ) (is : List ℕ)
    → All (λ j. j < 2 ^ 32) (i ∷ is)
    → parse_path (print_path (i ∷ is)) ≡ ok (i ∷ is)
parse_path-print i is h =
    parse_path_of (print_path (i ∷ is)) (print_index i ++ print_tail is) (trim_space-print i is)
      (unfold print_path print_tail in refl)
    ∙ rw (split-print i is) (parse_parts-print (i ∷ is) h)
