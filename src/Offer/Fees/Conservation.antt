-- ===== src/Offer/Fees/Conservation.antt =====
-- The outputs of the offer after the fees are distributed.
use chantools.Prelude.{ℕ, ◌+◌, ◌-◌, ◌≤◌, Option, none, some, ok, panic, ◌≡◌, ◌≢◌, arith}
use chantools.Offer.Fees.{Split, drop_dust, output_for, make_outputs, distribute}

-- What an output pays.
abbrev pub value : Option ℕ → ℕ
value none = 0
value (some n) = n

-- No output is empty, and each holds what its side is due.
pub record IsPaid (s : Split) : Type 0 where
  pub ours : s.our_output ≡ output_for s.our_sum
  pub theirs : s.their_output ≡ output_for s.their_sum

make_outputs-IsPaid : (dust ours theirs : ℕ) → IsPaid (make_outputs dust ours theirs)
unfolding make_outputs
make_outputs-IsPaid dust ours theirs = ground arith

-- Fees are taken from outputs that exist, whatever the dust limit, the sums and the fee are.
distribute-ne-panic :
    (dust ours theirs fee : ℕ) → distribute (make_outputs dust ours theirs) fee ≢ panic
unfolding make_outputs distribute
distribute-ne-panic dust ours theirs fee = ground arith

-- After the fees each output still pays something and holds what its side is due.
pub distribute-IsPaid :
    (dust ours theirs fee : ℕ) {s : Split}
    → distribute (make_outputs dust ours theirs) fee ≡ ok s
    → IsPaid s
unfolding make_outputs distribute
distribute-IsPaid dust ours theirs fee h = ground arith

-- No satoshi appears or is lost but the fee: the outputs and the fee that is paid add up to the
-- sums that are no dust, and an odd fee that is shared is short by at most one.
pub distribute_conserves :
    (dust ours theirs fee : ℕ) {s : Split}
    → distribute (make_outputs dust ours theirs) fee ≡ ok s
    → (paid : ℕ) × (value s.our_output + value s.their_output + paid
        ≡ drop_dust dust ours + drop_dust dust theirs)
      × (paid ≤ fee)
      × (fee ≤ paid + 1)
unfolding make_outputs distribute
distribute_conserves dust ours theirs fee {s} h = (
  (drop_dust dust ours + drop_dust dust theirs) - (value s.our_output + value s.their_output),
  ground arith,
  ground arith,
  ground arith,
)
