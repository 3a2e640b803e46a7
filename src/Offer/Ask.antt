-- ===== src/Offer/Ask.antt =====
-- `askAboutChannel`: the share of a channel that the user wants. Each call of it reads one line; an
-- `int64` is an integer, and its arithmetic wraps around.
pub mod Shares
use chantools.Prelude.{
  ℕ, suc, ◌+◌, ◌-◌, ◌%◌, ◌^◌, List, [], ◌∷◌, Bool, Option, none, some, Result, ok, err, panic, ltb,
  if◌then◌else◌,
}
use chantools.Prelude.Int.{ℤ, pos, negsuc, ◌+ℤ◌, ◌-ℤ◌, ltb_ℤ}
use chantools.Prelude.Text.{Text, trim_space}
use chantools.Prelude.Text.Decimal.{parse_uint}
use chantools.Prelude.Int64.{to_int64, sub64, add64}
use chantools.Offer.Files.{OfferError, read_failed, bad_amount}

-- The answer to a line that was read as `our_part`: it splits the capacity, or the user is asked
-- again.
unfoldable pub answer :
    ℤ
    → Result OfferError (ℤ × ℤ × List Text)
    → List Text
    → Option ℕ
    → Result OfferError (ℤ × ℤ × List Text)
answer capacity again lines none = err bad_amount
answer capacity again lines (some our_part) =
    if ltb_ℤ capacity (to_int64 our_part)
    then again
    else ok (to_int64 our_part, sub64 capacity (to_int64 our_part), lines)

-- Our part, their part and the lines that are left. Input that ends is an error.
unfoldable pub ask : ℤ → List Text → Result OfferError (ℤ × ℤ × List Text)
ask capacity [] = err read_failed
ask capacity (line ∷ lines) =
    answer capacity (ask capacity lines) lines (parse_uint 64 (trim_space line))

-- The loop over the channels that sums up what goes to whom.
unfoldable pub tally : List ℤ → ℤ → ℤ → List Text → Result OfferError (ℤ × ℤ)
tally [] ours theirs lines = ok (ours, theirs)
tally (capacity ∷ capacities) ours theirs lines = elim (ask capacity lines) [
  | ok (our_part, their_part, rest) ↦
      tally capacities (add64 ours our_part) (add64 theirs their_part) rest
  | err e ↦ err e
  | panic ↦ panic
]
