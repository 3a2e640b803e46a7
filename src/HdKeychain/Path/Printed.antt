-- ===== src/HdKeychain/Path/Printed.antt =====
-- `ParsePath` and the paths that lnd/hdkeychain.go prints itself.
use chantools.Prelude.{
  ℕ, ◌+◌, ◌-◌, ◌%◌, ◌^◌, ◌<◌, ◌≤◌, List, [], ◌∷◌, ◌++◌, ok, false, ◌∙◌, ◌≡◌, refl, arith,
  append_assoc, append-nil, map, All-append,
}
use chantools.Prelude.Text.{
  Lacks, codes, contains, split, split-Lacks, trim_right, trim_space, trim_space_id, is_space,
}
use chantools.Prelude.Text.Decimal.{atoi, to_uint, decimal, is_digit}
use chantools.HdKeychain.Path.{
  hardened_key_start, parse_parts, parse_path, lnd_derivation_path, multisig_path, identity_path,
  all_derivation_paths, wallet_default_derivation_path, wallet_bip49_derivation_path,
  wallet_bip86_derivation_path,
}
use chantools.HdKeychain.Path.RoundTrip.{
  print_index, print_tail, print_path, parse_path-print, parse_part-hardened, parse_path_of,
  decimal-Lacks,
}

print_index-hardened :
    (n : ℕ) → n < 2 ^ 31 → print_index (hardened_key_start + n) ≡ decimal n ++ b'\'' ∷ []
unfolding print_index
print_index-hardened n h = ground (arith, cut n)
  where
    cut : (n : ℕ) → hardened_key_start + n - hardened_key_start ≡ n
    cut n = omega arith

print_index-plain : (n : ℕ) → n < 2 ^ 31 → print_index n ≡ decimal n
unfolding print_index
print_index-plain n h = ground arith

decimal_zero : decimal 0 ≡ b'0' ∷ []
unfolding decimal
decimal_zero = refl

-- The indices of "m/1017'/coin'/family'".
abbrev pub account_indices : ℕ → ℕ → List ℕ
account_indices coin_type family =
    (hardened_key_start + 1017)
    ∷ (hardened_key_start + coin_type)
    ∷ (hardened_key_start + family)
    ∷ []

print_account :
    (coin_type family : ℕ) (is : List ℕ)
    → coin_type < 2 ^ 31
    → family < 2 ^ 31
    → print_path (account_indices coin_type family ++ is)
      ≡ lnd_derivation_path coin_type family ++ print_tail is
unfolding print_path print_tail lnd_derivation_path decimal
print_account coin_type family is hc hf = rw (print_index-hardened 1017 (omega arith)) (
    rw (print_index-hardened coin_type hc)
      (rw (print_index-hardened family hf) (simp append_assoc)))

-- The path of lnd's keys in an account is read as the five indices that it stands for, if coin type,
-- family and index are below 2^31.
pub parse_path-multisig_path :
    (coin_type family index : ℕ)
    → coin_type < 2 ^ 31
    → family < 2 ^ 31
    → index < 2 ^ 31
    → parse_path (multisig_path coin_type family index)
      ≡ ok (account_indices coin_type family ++ 0 ∷ index ∷ [])
parse_path-multisig_path coin_type family index hc hf hi =
    rw printed (parse_path-print (hardened_key_start + 1017) _ (omega arith))
  where
    printed :
        multisig_path coin_type family index
        ≡ print_path (account_indices coin_type family ++ 0 ∷ index ∷ [])
    printed =
        unfold multisig_path print_tail in
        rw (print_account coin_type family (0 ∷ index ∷ []) hc hf) (
          rw (print_index-plain 0 (omega arith), decimal_zero)
            (rw (print_index-plain index hi) (simp append-nil)))

pub identity_path-eq-multisig_path :
    (coin_type family : ℕ) → identity_path coin_type family ≡ multisig_path coin_type family 0
unfolding identity_path multisig_path
identity_path-eq-multisig_path coin_type family = rw (decimal_zero)

-- The path of the node's identity is read as the five indices of the first key of its family.
pub parse_path-identity_path :
    (coin_type family : ℕ)
    → coin_type < 2 ^ 31
    → family < 2 ^ 31
    → parse_path (identity_path coin_type family)
      ≡ ok (account_indices coin_type family ++ 0 ∷ 0 ∷ [])
parse_path-identity_path coin_type family hc hf =
    rw (identity_path-eq-multisig_path coin_type family)
      (parse_path-multisig_path coin_type family 0 hc hf (omega arith))

parse_path-lnd_derivation_path :
    (coin_type family : ℕ)
    → coin_type < 2 ^ 31
    → family < 2 ^ 31
    → parse_path (lnd_derivation_path coin_type family) ≡ ok (account_indices coin_type family)
parse_path-lnd_derivation_path coin_type family hc hf =
    rw printed (parse_path-print (hardened_key_start + 1017) _ (omega arith))
  where
    printed : lnd_derivation_path coin_type family ≡ print_path (account_indices coin_type family)
    printed = unfold print_tail in rw (print_account coin_type family [] hc hf) (simp append-nil)

-- `AllDerivationPaths` never fails on a coin type and a family below 2^31: it returns the four
-- paths of lnd's wallet with the indices that they stand for.
pub all_derivation_paths_lem :
    (coin_type payment_base : ℕ)
    → coin_type < 2 ^ 31
    → payment_base < 2 ^ 31
    → all_derivation_paths coin_type payment_base
      ≡ ok (
        wallet_bip49_derivation_path
            ∷ wallet_default_derivation_path
            ∷ wallet_bip86_derivation_path
            ∷ lnd_derivation_path coin_type payment_base
            ∷ [],
        map
              (λ purpose. map (λ n. hardened_key_start + n) (purpose ∷ 0 ∷ 0 ∷ []))
              (49 ∷ 84 ∷ 86 ∷ [])
            ++ account_indices coin_type payment_base ∷ [],
      )
unfolding all_derivation_paths parse_path trim_space split contains atoi trim_right to_uint
all_derivation_paths_lem coin_type payment_base hc hp =
    rw (parse_path-lnd_derivation_path coin_type payment_base hc hp)

-- A hardened mark on a number from 2^31 to 2^32 - 1, which has bit 31 set already, is lost: the index wraps around to the
-- one that is not hardened.
pub parse_path-mark_lost :
    (n : ℕ)
    → 2 ^ 31 ≤ n
    → n < 2 ^ 32
    → parse_path (codes "m/" ++ decimal n ++ codes "'") ≡ ok ((n - 2 ^ 31) ∷ [])
unfolding parse_parts is_space
parse_path-mark_lost n low high =
    parse_path_of _ (decimal n ++ b'\'' ∷ [])
      (trim_space_id b'm' (b'/' ∷ decimal n) b'\'' space_m refl) refl
    ∙ rw (split-Lacks b'/' (decimal n ++ b'\'' ∷ []) marked-Lacks)
        (rw (parse_part-hardened n (omega arith), parse_parts) (cc (wrapped)))
  where
    space_m : is_space b'm' ≡ false
    space_m = unfold is_space in refl

    marked-Lacks : Lacks b'/' (decimal n ++ b'\'' ∷ [])
    marked-Lacks =
        All-append _ (decimal n) (b'\'' ∷ []) (decimal-Lacks b'/' n (unfold is_digit in refl))
          (omega arith)

    wrapped : (hardened_key_start + n % 2 ^ 32) % 2 ^ 32 ≡ n - 2 ^ 31
    wrapped = omega arith
