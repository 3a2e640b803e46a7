-- ===== src/Offer/Fees.antt =====
-- The dust rule, the outputs and the distribution of the fees in `Execute`. The sums are `int64`
-- values that are not negative; the dust limit and the fee come from lnd's libraries.
pub mod Conservation
use chantools.Prelude.{
  ℕ, ◌+◌, ◌-◌, ◌/◌, Bool, ◌&&◌, Option, none, some, Result, ok, err, ◌>>=◌, or_panic, ltb,
  if◌then◌else◌,
}
use chantools.Offer.Files.{OfferError, fees_unhandled}

-- The two sums and the values of the two outputs, of which one may be missing.
pub record Split : Type 0 where
  pub our_sum : ℕ
  pub their_sum : ℕ
  pub our_output : Option ℕ
  pub their_output : Option ℕ

-- "Don't create dust."
unfoldable pub drop_dust : ℕ → ℕ → ℕ
drop_dust dust_limit sum = if ltb sum dust_limit then 0 else sum

-- "Only add output for us if we should receive something."
unfoldable pub output_for : ℕ → Option ℕ
output_for sum = if ltb 0 sum then some sum else none

unfoldable pub make_outputs : ℕ → ℕ → ℕ → Split
unfolding drop_dust output_for
make_outputs dust_limit our_sum their_sum = record {
  our_sum = drop_dust dust_limit our_sum;
  their_sum = drop_dust dust_limit their_sum;
  our_output = output_for (drop_dust dust_limit our_sum);
  their_output = output_for (drop_dust dust_limit their_sum);
}

pay_both : Split → ℕ → Result OfferError Split
pay_both s half = do
  ours ← or_panic s.our_output
  theirs ← or_panic s.their_output
  ok (record {
    our_sum = s.our_sum - half;
    their_sum = s.their_sum - half;
    our_output = some (ours - half);
    their_output = some (theirs - half);
  })

pay_ours : Split → ℕ → Result OfferError Split
pay_ours s fee = do
  ours ← or_panic s.our_output
  ok (record s { our_sum = s.our_sum - fee; our_output = some (ours - fee) })

pay_theirs : Split → ℕ → Result OfferError Split
pay_theirs s fee = do
  theirs ← or_panic s.their_output
  ok (record s { their_sum = s.their_sum - fee; their_output = some (theirs - fee) })

-- "Distribute the fees.": `a - b > 0` on integers is `b < a`. A missing output panics.
unfoldable pub distribute : Split → ℕ → Result OfferError Split
unfolding pay_both pay_ours pay_theirs
distribute s total_fee =
    let half_fee = total_fee / 2 in
    if ltb half_fee s.our_sum && ltb half_fee s.their_sum
    then pay_both s half_fee
    else if ltb total_fee s.our_sum
    then pay_ours s total_fee
    else if ltb total_fee s.their_sum
    then pay_theirs s total_fee
    else err fees_unhandled
