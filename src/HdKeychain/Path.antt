-- ===== src/HdKeychain/Path.antt =====
-- `ParsePath` and the functions of lnd/hdkeychain.go that print a derivation path. A path is a
-- text of code points, an index a `uint32`.
pub mod RoundTrip
pub mod Printed
use chantools.Prelude.{
  ℕ, ◌+◌, ◌%◌, ◌^◌, List, [], ◌∷◌, ◌++◌, Bool, true, false, ◌&&◌, ◌==◌, Option, none, some, Result,
  ok, err, ◌>>=◌, ◌>>◌, fail_if, not, if◌then◌else◌,
}
use chantools.Prelude.Text.{Text, codes, contains, split, trim_right, trim_space}
use chantools.Prelude.Text.Decimal.{atoi, to_uint, decimal}

-- `HardenedKeyStart`, 2^31.
abbrev pub hardened_key_start : ℕ
hardened_key_start = 2 ^ 31

pub data PathError : Type 0 where
  empty_path no_prefix : PathError
  bad_part : Text → PathError

-- `HardenedKey`: the sum is a `uint32`.
unfoldable pub hardened_key : ℕ → ℕ
hardened_key key = (key + hardened_key_start) % 2 ^ 32

-- `index + uint32(parsed)`, a `uint32`.
unfoldable pub read_part : ℕ → Text → Result PathError ℕ
read_part index part = elim (atoi part) [
  | none ↦ err (bad_part part)
  | some parsed ↦ ok ((index + to_uint 32 parsed) % 2 ^ 32)
]

-- One round of the loop of `ParsePath`.
unfoldable pub parse_part : Text → Result PathError ℕ
unfolding read_part
parse_part part =
    if contains b'\'' part
    then read_part hardened_key_start (trim_right b'\'' part)
    else read_part 0 part

unfoldable pub parse_parts : List Text → Result PathError (List ℕ)
unfolding parse_part
parse_parts [] = ok []
parse_parts (part ∷ parts) = do
  index ← parse_part part
  indices ← parse_parts parts
  ok (index ∷ indices)

is_empty : Text → Bool
is_empty [] = true
is_empty (_ ∷ _) = false

-- `strings.HasPrefix(path, "m/")`.
has_m_prefix : Text → Bool
has_m_prefix [] = false
has_m_prefix (c ∷ []) = false
has_m_prefix (c ∷ d ∷ s) = c == b'm' && d == b'/'

-- `parts[1:]`.
rest : List Text → List Text
rest [] = []
rest (_ ∷ parts) = parts

unfoldable pub parse_path : Text → Result PathError (List ℕ)
unfolding parse_parts is_empty has_m_prefix rest
parse_path raw = do
  let path = trim_space raw
  fail_if (is_empty path) empty_path
  fail_if (not (has_m_prefix path)) no_prefix
  parse_parts (rest (split b'/' path))

-- `fmt.Sprintf(LndDerivationPath, coinType, family)`, where `LndDerivationPath` is
-- "m/1017'/%d'/%d'".
unfoldable pub lnd_derivation_path : ℕ → ℕ → Text
lnd_derivation_path coin_type family =
    codes "m/1017'/" ++ (decimal coin_type ++ (codes "'/" ++ (decimal family ++ codes "'")))

unfoldable pub multisig_path : ℕ → ℕ → ℕ → Text
multisig_path coin_type family index =
    lnd_derivation_path coin_type family ++ (codes "/0/" ++ decimal index)

unfoldable pub identity_path : ℕ → ℕ → Text
identity_path coin_type family = lnd_derivation_path coin_type family ++ codes "/0/0"

abbrev pub wallet_default_derivation_path : Text
wallet_default_derivation_path = codes "m/84'/0'/0'"

abbrev pub wallet_bip49_derivation_path : Text
wallet_bip49_derivation_path = codes "m/49'/0'/0'"

abbrev pub wallet_bip86_derivation_path : Text
wallet_bip86_derivation_path = codes "m/86'/0'/0'"

parse_all : List Text → Result PathError (List (List ℕ))
parse_all [] = ok []
parse_all (path ∷ paths) = do p ← parse_path path; ps ← parse_all paths; ok (p ∷ ps)

-- `AllDerivationPaths`; the second argument is lnd's `KeyFamilyPaymentBase`.
unfoldable pub all_derivation_paths : ℕ → ℕ → Result PathError (List Text × List (List ℕ))
unfolding parse_all lnd_derivation_path
all_derivation_paths coin_type payment_base = do
  let path_strings =
      wallet_bip49_derivation_path
      ∷ wallet_default_derivation_path
      ∷ wallet_bip86_derivation_path
      ∷ lnd_derivation_path coin_type payment_base
      ∷ []
  paths ← parse_all path_strings
  ok (path_strings, paths)
