-- ===== src/Summary/Values.antt =====
-- The values of the unspent outputs of a closing transaction, which btc/summary.go reads.
use chantools.Prelude.{
  ℕ, List, [], ◌∷◌, Bool, true, false, not, ◌==◌, Result, ok, err, panic, some, none, if◌then◌else◌,
  filterb, ◌≡◌, refl, ap, Bool-cases, inl, inr,
}
use chantools.Explorer.{Vout, Tx, ApiError, Api, transaction}
use chantools.Dataformat.{SummaryEntry}
use chantools.Summary.{unspent_outputs}

-- In the order of the transaction.
abbrev pub unspent_values : List Vout → List ℕ
unspent_values [] = []
unspent_values (v ∷ vs) =
    if v.outspend.spent then unspent_values vs else v.out.value ∷ unspent_values vs

abbrev pub values : List Vout → List ℕ
values [] = []
values (v ∷ vs) = v.out.value ∷ values vs

filterb-unspent_values :
    (vs : List Vout) → values (filterb (λ v. not v.outspend.spent) vs) ≡ unspent_values vs
filterb-unspent_values [] = refl
filterb-unspent_values (v ∷ vs) = elim (Bool-cases v.outspend.spent) [
  | inl spent ↦ rw spent (filterb-unspent_values vs)
  | inr left ↦ rw left (ap (λ ns. v.out.value ∷ ns) (filterb-unspent_values vs))
]

pub values-unspent_outputs : (tx : Tx) → values (unspent_outputs tx) ≡ unspent_values tx.vout
values-unspent_outputs tx = filterb-unspent_values tx.vout

abbrev pub first_of : List ℕ → ℕ
first_of [] = 0
first_of (n ∷ _) = n

abbrev pub is_none : List ℕ → Bool
is_none [] = true
is_none (_ ∷ _) = false

-- The one value of the list is the given one.
abbrev pub is_only : ℕ → List ℕ → Bool
is_only n [] = false
is_only n (m ∷ []) = m == n
is_only n (m ∷ _ ∷ _) = false

abbrev pub first_unspent : Result ApiError Tx → ℕ
first_unspent (ok tx) = first_of (unspent_values tx.vout)
first_unspent (err e) = 0
first_unspent panic = 0

-- The value of the first unspent output of the transaction that closed the channel, as the explorer has it.
abbrev pub force_value : Api → SummaryEntry → ℕ
force_value api e = elim e.closing_tx [ none ↦ 0 | some c ↦ first_unspent (transaction api c.txid) ]
