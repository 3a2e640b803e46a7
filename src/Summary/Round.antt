-- ===== src/Summary/Round.antt =====
-- The ways in which a round of `SummarizeChannels`, btc/summary.go, can end without an error.
use chantools.Prelude.{
  ℕ, Bool, true, false, Option, none, some, refl, ap, Result, ok, err, panic, or_panic, ◌≡◌, subst,
  >>=-eq-ok, ok-injective, Bool-cases, inl, inr, get_elem?,
}
use chantools.Explorer.{Outspend, Vout, Tx, ApiError, tx_not_found, Api, transaction}
use chantools.Dataformat.{SummaryEntry, SummaryEntryFile}
use chantools.Summary.{
  inc32, report_coop, report_force, closed_file, report_outspend, report_open, new_closing,
  summarize_found, summarize_channel, is_coop_close, unspent_outputs,
}

-- A channel whose funding output is spent, as `reportOutspend` gets it.
abbrev pub found_spent : SummaryEntry → Outspend → ℕ → SummaryEntry
found_spent channel os height = record channel {
  chan_exists = true;
  closing_tx = some (new_closing os height);
}

abbrev pub spent_file : SummaryEntryFile → SummaryEntry → SummaryEntryFile
spent_file file channel =
    closed_file (record file { closed_channels = inc32 file.closed_channels }) channel

-- The funding output of a channel in the answer for its transaction.
abbrev pub Funding : Result ApiError Tx → SummaryEntry → Vout → Type 0
Funding answer channel v =
    (tx : Tx) × (answer ≡ ok tx) × (get_elem? tx.vout channel.funding_tx_index ≡ some v)

-- A funding output that is spent by a transaction, which is a cooperative close or not.
pub record Closing (api : Api) (answer : Result ApiError Tx) (channel : SummaryEntry) (v : Vout)
    (spend_tx : Tx) (coop : Bool) : Type 0 where
  pub funding : Funding answer channel v
  pub spent : v.outspend.spent ≡ true
  pub spending : transaction api v.outspend.txid ≡ ok spend_tx
  pub together : is_coop_close spend_tx ≡ ok coop

module _ {ℓ} (api : Api) (file : SummaryEntryFile) (channel : SummaryEntry)
    (answer : Result ApiError Tx) (P : SummaryEntryFile × SummaryEntry → Type ℓ)
    (missing : answer ≡ err tx_not_found → P (file, record channel { chan_exists = false }))
    (opened : (v : Vout)
      → Funding answer channel v
      → v.outspend.spent ≡ false
      → P (report_open file channel))
    (cooped : (v : Vout) (height : ℕ) (spend_tx : Tx)
      → Closing api answer channel v spend_tx true
      → P (
          report_coop
            (spent_file file (found_spent channel v.outspend height))
            (found_spent channel v.outspend height)
            (new_closing v.outspend height)
            (unspent_outputs spend_tx)))
    (forced : (v : Vout) (height : ℕ) (spend_tx : Tx)
      → Closing api answer channel v spend_tx false
      → P (
          report_force
            (spent_file file (found_spent channel v.outspend height))
            (found_spent channel v.outspend height)
            (new_closing v.outspend height)
            (unspent_outputs spend_tx))) where
  report_outspend_cases :
      (v : Vout) (height : ℕ) {p : SummaryEntryFile × SummaryEntry}
      → Funding answer channel v
      → v.outspend.spent ≡ true
      → report_outspend api
          (record file { closed_channels = inc32 file.closed_channels })
          (found_spent channel v.outspend height)
          v.outspend
        ≡ ok p
      → P p
  unfolding report_outspend
  report_outspend_cases v height {p} funding spent h =
      let (spend_tx, e1, r1) = >>=-eq-ok (transaction api v.outspend.txid) _ h in
      let (coop, e2, r2) = >>=-eq-ok (is_coop_close spend_tx) _ r1 in
      elim (Bool-cases coop) [
        | inl together ↦ subst P (ok-injective (rw together at r2)) (
            cooped v height spend_tx (record {
              funding = funding;
              spent = spent;
              spending = e1;
              together = rw together at e2;
            }))
        | inr alone ↦ subst P (ok-injective (rw alone at r2)) (
            forced v height spend_tx (record {
              funding = funding;
              spent = spent;
              spending = e1;
              together = rw alone at e2;
            }))
      ]

  summarize_found_cases :
      (tx : Tx) {p : SummaryEntryFile × SummaryEntry}
      → answer ≡ ok tx
      → summarize_found api file channel tx ≡ ok p
      → P p
  unfolding summarize_found
  summarize_found_cases tx {p} known h =
      let (v, e1, r1) = >>=-eq-ok (or_panic (get_elem? tx.vout channel.funding_tx_index)) _ h in
      let funding : Funding answer channel v =
        (tx, known, there (get_elem? tx.vout channel.funding_tx_index) e1) in
      elim (Bool-cases v.outspend.spent) [
        | inl closed ↦
            let (status, e2, r2) = >>=-eq-ok (or_panic v.outspend.status) _ (rw closed at r1) in
            report_outspend_cases v status.block_height funding closed r2
        | inr unspent ↦ subst P (ok-injective (rw unspent at r1)) (opened v funding unspent)
      ]
    where
      there : (o : Option Vout) {v : Vout} → or_panic {E = ApiError} o ≡ ok v → o ≡ some v
      there none e = cc
      there (some w) e = ap some (ok-injective e)

  by_answer :
      (a : Result ApiError Tx) {p : SummaryEntryFile × SummaryEntry}
      → answer ≡ a
      → summarize_channel api file channel a ≡ ok p
      → P p
  unfolding summarize_channel
  by_answer (ok tx) known h = summarize_found_cases tx known h
  by_answer (err tx_not_found) known h = subst P (ok-injective h) (missing known)
  by_answer (err (ApiError.fetch_failed t)) known h = cc
  by_answer (err ApiError.invalid_outpoint) known h = cc
  by_answer (err ApiError.invalid_index) known h = cc
  by_answer (err ApiError.no_tx_found) known h = cc
  by_answer panic known h = cc

  pub summarize_channel_cases :
      {p : SummaryEntryFile × SummaryEntry} → summarize_channel api file channel answer ≡ ok p → P p
  summarize_channel_cases h = by_answer answer refl h
