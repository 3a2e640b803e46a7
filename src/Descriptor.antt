-- ===== src/Descriptor.antt =====
-- btc/descriptors.go: the checksum of an output descriptor. Texts are bytes; those outside ASCII stand
-- in no alphabet.
pub mod Xor
pub mod Linear
pub mod Created
pub mod Check
use chantools.Prelude.{
  ℕ, zero, suc, ◌+◌, ◌-◌, ◌*◌, ◌/◌, ◌%◌, ◌^◌, List, [], ◌∷◌, ◌++◌, Bool, true, false, not, ◌&&◌,
  ◌||◌, Option, none, some, Result, ok, panic, ◌>>=◌, or_panic, ltb, ◌==◌, if◌then◌else◌, length,
  get_elem?,
}
use chantools.Prelude.Text.{Text, codes, contains, text_eq}
use chantools.Descriptor.Xor.{xor}

abbrev pub take : ℕ → Text → Text
take zero s = []
take (suc n) [] = []
take (suc n) (c ∷ s) = c ∷ take n s

abbrev pub drop : ℕ → Text → Text
drop zero s = s
drop (suc n) [] = []
drop (suc n) (c ∷ s) = drop n s

abbrev pub input_charset : Text
input_charset =
    codes
      "0123456789()[],'/*abcdefgh@:$%{}IJKLMNOPQRSTUVWXYZ&+-.;<=>?!^_|~ijklmnopqrstuvwxyzABCDEFGH`#\\\"\\\\ "

abbrev pub checksum_charset : Text
checksum_charset = codes "qpzry9x8gf2tvdw0s3jn54khce6mua7l"

abbrev pub generator : List ℕ
generator = 0xf5dee51989 ∷ 0xa9fdca3312 ∷ 0x1bab10e32d ∷ 0x3706b1677a ∷ 0x644d626ffd ∷ []

-- The inner loop: the generators whose bit of `top` is set, `bit` being 2^i.
unfoldable pub mix : ℕ → ℕ → List ℕ → ℕ → ℕ
mix top bit [] chk = chk
mix top bit (g ∷ gs) chk = mix top (bit * 2) gs (if (top / bit) % 2 == 0 then chk else xor chk g)

-- One round of `descriptorSumPolymod`.
unfoldable pub polymod_step : ℕ → ℕ → ℕ
polymod_step chk value = mix (chk / 2 ^ 35) 1 generator (xor ((chk % 2 ^ 35) * 2 ^ 5) value)

unfoldable pub polymod_from : ℕ → List ℕ → ℕ
polymod_from chk [] = chk
polymod_from chk (value ∷ symbols) = polymod_from (polymod_step chk value) symbols

-- `descriptorSumPolymod`
unfoldable pub polymod : List ℕ → ℕ
polymod symbols = polymod_from 1 symbols

unfoldable pub bump : Option ℕ → Option ℕ
bump none = none
bump (some i) = some (i + 1)

-- `strings.IndexRune`
unfoldable pub index_of : ℕ → Text → Option ℕ
index_of c [] = none
index_of c (d ∷ s) = let rest = bump (index_of c s) in if d == c then some 0 else rest

-- What is left of the groups at the end.
unfoldable pub flush : List ℕ → List ℕ
flush [] = []
flush (a ∷ []) = a ∷ []
flush (a ∷ b ∷ []) = (a * 3 + b) ∷ []
flush (a ∷ b ∷ c ∷ gs) = []

-- The symbols and the groups after one more group.
unfoldable pub close_group : List ℕ → List ℕ → ℕ → List ℕ × List ℕ
close_group symbols [] g = (symbols, g ∷ [])
close_group symbols (a ∷ []) g = (symbols, a ∷ g ∷ [])
close_group symbols (a ∷ b ∷ gs) g = (symbols ++ (a * 9 + b * 3 + g) ∷ [], [])

unfoldable pub expand_loop : Text → List ℕ → List ℕ → List ℕ
expand_loop [] symbols groups = symbols ++ flush groups
expand_loop (c ∷ s) symbols groups = elim (index_of c input_charset) [
  | none ↦ []
  | some v ↦ let p = close_group (symbols ++ (v % 32) ∷ []) groups (v / 32) in expand_loop s p.0 p.1
]

-- `descriptorSumExpand`; `nil` is no symbols.
unfoldable pub expand : Text → List ℕ
expand s = expand_loop s [] []

-- The characters of a checksum, `n` of them left: `checksumCharset[(checksum>>(5*(7-i)))&31]`.
unfoldable pub checksum_chars : ℕ → ℕ → Result (Unit {0}) Text
checksum_chars checksum zero = ok []
checksum_chars checksum (suc n) = do
  c ← or_panic (get_elem? checksum_charset ((checksum / 2 ^ (5 * n)) % 32))
  cs ← checksum_chars checksum n
  ok (c ∷ cs)

abbrev pub zeros : List ℕ
zeros = 0 ∷ 0 ∷ 0 ∷ 0 ∷ 0 ∷ 0 ∷ 0 ∷ 0 ∷ []

unfoldable pub descriptor_sum_create : Text → Result (Unit {0}) Text
descriptor_sum_create s = do
  cs ← checksum_chars (xor (polymod (expand s ++ zeros)) 1) 8
  ok (s ++ b'#' ∷ cs)

unfoldable pub starts_with : Text → Text → Bool
starts_with [] s = true
starts_with (_ ∷ _) [] = false
starts_with (c ∷ t) (d ∷ s) = d == c && starts_with t s

-- `strings.Index` of a text that is not empty.
unfoldable pub find_text : Text → Text → Option ℕ
find_text t [] = none
find_text t (d ∷ s) =
    let rest = bump (find_text t s) in if starts_with t (d ∷ s) then some 0 else rest

-- `uint64(strings.Index(...))`: -1 wraps around.
unfoldable pub checksum_symbol : Option ℕ → ℕ
checksum_symbol none = 2 ^ 64 - 1
checksum_symbol (some i) = i

-- The test of each character of the checksum.
unfoldable pub all_in_charset : Text → Bool
all_in_charset [] = true
all_in_charset (c ∷ cs) = contains c checksum_charset && all_in_charset cs

-- A text at its length less `n`: what stands before, and what is left. A shorter text panics.
unfoldable pub split_end : Text → ℕ → Result (Unit {0}) (Text × Text)
split_end s n =
    if ltb (length s) n then panic else ok (take (length s - n) s, drop (length s - n) s)

-- The tests on the text before its last nine characters and on these.
unfoldable pub check_parts : Text → Text → Result (Unit {0}) Bool
check_parts body [] = panic
check_parts body (c ∷ checksum) =
    if not (c == b'#') || not (all_in_charset checksum)
    then ok false
    else ok
        (polymod (expand body ++ checksum_symbol (find_text checksum checksum_charset) ∷ []) == 1)

unfoldable pub descriptor_sum_check : Text → Bool → Result (Unit {0}) Bool
descriptor_sum_check s require =
    if not (contains b'#' s) then ok (not require) else (split_end s 9 >>= λ p. check_parts p.0 p.1)
