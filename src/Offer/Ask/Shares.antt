-- ===== src/Offer/Ask/Shares.antt =====
-- The shares that `askAboutChannel` of zombierecovery_makeoffer.go returns.
use chantools.Prelude.{
  ℕ, ◌+◌, ◌-◌, ◌^◌, ◌<◌, ◌≤◌, List, [], ◌∷◌, Option, none, some, Result, ok, ◌≡◌, refl, arith,
  Bool-cases, inl, inr, ok-injective, subst, All,
}
use chantools.Prelude.Int.{ℤ, pos, negsuc, ltb_ℤ}
use chantools.Prelude.Text.{Text, trim_space}
use chantools.Prelude.Text.Decimal.{parse_uint}
use chantools.Offer.Files.{OfferError}
use chantools.Prelude.Int64.{to_int64, sub64, to_int64-pos, sub64-pos}
use chantools.Offer.Ask.{answer, ask}

-- A line on which no number of 2^63 or more stands.
abbrev pub Small : Text → Type 0
Small line = (n : ℕ) → parse_uint 64 (trim_space line) ≡ some n → n < 2 ^ 63

-- The answer for a capacity: our share and the peer's.
abbrev pub Shares : ℕ → ℤ × ℤ × List Text → Type 0
Shares capacity r = (n : ℕ) × (n ≤ capacity) × (r.0 ≡ pos n) × (r.1 ≡ pos (capacity - n))

answer-Shares :
    (capacity : ℕ) (again : Result OfferError (ℤ × ℤ × List Text)) (lines : List Text)
    (o : Option ℕ) {r : ℤ × ℤ × List Text}
    → capacity < 2 ^ 63
    → ((n : ℕ) → o ≡ some n → n < 2 ^ 63)
    → (again ≡ ok r → Shares capacity r)
    → answer (pos capacity) again lines o ≡ ok r
    → Shares capacity r
unfolding answer
answer-Shares capacity again lines none hc small later h = cc
answer-Shares capacity again lines (some n) {r} hc small later h =
    elim (Bool-cases (ltb_ℤ (pos capacity) (pos n))) [
      | inl above ↦ later (rw (to_int64-pos n (small n refl), above) at h)
      | inr fits ↦
          subst (Shares capacity) (ok-injective (rw (to_int64-pos n (small n refl), fits) at h))
            (n, ground arith, refl, sub64-pos capacity n hc (ground arith))
    ]

-- For a capacity below 2^63, as long as no number of 2^63 or more is entered, an answer splits the
-- capacity: both shares are amounts, and they add up to it.
pub ask-Shares :
    (capacity : ℕ) (lines : List Text) {r : ℤ × ℤ × List Text}
    → capacity < 2 ^ 63
    → All Small lines
    → ask (pos capacity) lines ≡ ok r
    → Shares capacity r
unfolding ask
ask-Shares capacity [] hc small h = cc
ask-Shares capacity (line ∷ lines) hc (s, small) h =
    answer-Shares capacity (ask (pos capacity) lines) lines (parse_uint 64 (trim_space line)) hc s
      (ask-Shares capacity lines hc small) h

-- A number n from 2^63 to 2^64 - 1 turns negative and passes the test against the capacity, and where
-- the difference does not overflow, which is where capacity + 2^64 - n is below 2^63, the peer is
-- promised more than the channel holds.
pub ask_overflow :
    (capacity n : ℕ) (line : Text) (lines : List Text)
    → parse_uint 64 (trim_space line) ≡ some n
    → 2 ^ 63 ≤ n
    → n < 2 ^ 64
    → capacity + (2 ^ 64 - n) < 2 ^ 63
    → (ours : ℤ) × (theirs : ℕ) × (ask (pos capacity) (line ∷ lines) ≡ ok (ours, pos theirs, lines))
      × (capacity < theirs)
unfolding ask answer to_int64 sub64
ask_overflow capacity n line lines read high low small =
    (negsuc (2 ^ 64 - 1 - n), capacity + (2 ^ 64 - n), rw read (ground arith), omega arith)
