-- ===== src/Summary/Outcome.antt =====
-- What an entry says after a round of `SummarizeChannels`, btc/summary.go, by the explorer's answers.
use chantools.Prelude.{
  ℕ, ◌∙◌, Bool, Bool-cases, inl, inr, not, ◌&&◌, ◌==◌, err, sym, ap, List, [], ◌∷◌, true, false,
  none, some, ◌≡◌, refl, arith, length,
}
use chantools.Explorer.{Vout, Tx, tx_not_found, Api, transaction}
use chantools.Prelude.Text.{Text}
use chantools.Dataformat.{ClosingTx, SummaryEntry, SummaryEntryFile}
use chantools.Summary.{could_be_ours, report_coop, report_force, report_unspent, new_closing}
use chantools.Summary.Round.{Funding, Closing, found_spent}
use chantools.Summary.Values.{unspent_values, values, is_none, is_only}

-- Whether a closed channel may have funds left: it has a local balance and an output that is not spent, which
-- after a force close is not the peer's alone.
abbrev pub has_funds : Bool → SummaryEntry → List ℕ → Bool
has_funds forced e vs =
    not (e.local_balance == 0) && (not (is_none vs) && not (forced && is_only e.remote_balance vs))

-- What an entry says of a transaction that closed its channel.
pub record ClosedBy (e : SummaryEntry) (c : ClosingTx) (txid : Text) (tx : Tx) (forced : Bool)
    : Type 0 where
  pub exists : e.chan_exists ≡ true
  pub closing_tx : e.closing_tx ≡ some c
  pub txid_kept : c.txid ≡ txid
  pub force_close : c.force_close ≡ forced
  pub all_spent : c.all_outs_spent ≡ is_none (unspent_values tx.vout)
  pub potential : e.has_potential ≡ has_funds forced e (unspent_values tx.vout)

-- What an entry says, by the answers of the explorer.
pub data Outcome (api : Api) (channel e : SummaryEntry) : Type 0 where
  missing :
      transaction api channel.funding_txid ≡ err tx_not_found
      → e.chan_exists ≡ false
      → Outcome api channel e
  still_open :
      (v : Vout)
      → Funding (transaction api channel.funding_txid) channel v
      → v.outspend.spent ≡ false
      → e.chan_exists ≡ true
      → e.closing_tx ≡ none
      → e.has_potential ≡ true
      → Outcome api channel e
  closed :
      (v : Vout) (tx : Tx) (forced : Bool) (c : ClosingTx)
      → Closing api (transaction api channel.funding_txid) channel v tx (not forced)
      → ClosedBy e c v.outspend.txid tx forced
      → Outcome api channel e

is_none-values : (vs : List Vout) → is_none (values vs) ≡ (length vs == 0)
is_none-values [] = refl
is_none-values (v ∷ vs) = ground arith

could_be_ours-has_funds :
    (e : SummaryEntry) (first : Vout) (rest : List Vout)
    → could_be_ours e first rest ≡ has_funds true e (values (first ∷ rest))
unfolding could_be_ours
could_be_ours-has_funds e first [] = ground arith
could_be_ours-has_funds e first (second ∷ rest) = ground arith

module _ (api : Api) (file : SummaryEntryFile) (channel : SummaryEntry) (v : Vout)
    (height : ℕ) where
  pub report_coop-ClosedBy :
      (tx : Tx) (utxo : List Vout)
      → values utxo ≡ unspent_values tx.vout
      → (c : ClosingTx) × ClosedBy
          (report_coop file
            (found_spent channel v.outspend height)
            (new_closing v.outspend height)
            utxo).1
          c
          v.outspend.txid
          tx
          false
  unfolding report_coop new_closing
  report_coop-ClosedBy tx utxo same = (
    _,
    record {
      exists = refl;
      closing_tx = refl;
      txid_kept = refl;
      force_close = refl;
      all_spent = ground (arith, is_none-values utxo);
      potential = rw (sym same) (ground (arith, is_none-values utxo));
    },
  )

  pub report_force-ClosedBy :
      (tx : Tx) (utxo : List Vout)
      → values utxo ≡ unspent_values tx.vout
      → (c : ClosingTx) × ClosedBy
          (report_force file
            (found_spent channel v.outspend height)
            (new_closing v.outspend height)
            utxo).1
          c
          v.outspend.txid
          tx
          true
  unfolding report_force report_unspent new_closing
  report_force-ClosedBy tx [] same = (
    _,
    record {
      exists = refl;
      closing_tx = refl;
      txid_kept = refl;
      force_close = refl;
      all_spent = ap is_none same;
      potential = rw (sym same) (ground arith);
    },
  )
  report_force-ClosedBy tx (first ∷ rest) same =
      let ours = could_be_ours-has_funds (found_spent channel v.outspend height) first rest in
      elim (Bool-cases (could_be_ours (found_spent channel v.outspend height) first rest)) [
        | inl may ↦ rw may (
          _,
          record {
            exists = refl;
            closing_tx = refl;
            txid_kept = refl;
            force_close = refl;
            all_spent = ap is_none same;
            potential =
                sym may ∙ ours ∙ ap (has_funds true (found_spent channel v.outspend height)) same;
          },
        )
        | inr theirs ↦ rw theirs (
          _,
          record {
            exists = refl;
            closing_tx = refl;
            txid_kept = refl;
            force_close = refl;
            all_spent = ap is_none same;
            potential =
                sym theirs
                ∙ ours
                ∙ ap (has_funds true (found_spent channel v.outspend height)) same;
          },
        )
      ]
