-- ===== src/Summary/Facts.antt =====
-- The entries of `SummarizeChannels`, btc/summary.go.
use chantools.Prelude.{
  ℕ, Bool-cases, inl, inr, ap, List, [], ◌∷◌, true, false, ok, ◌≡◌, refl, subst, >>=-eq-ok,
  ok-injective,
}
use chantools.Explorer.{Outspend, Vout, Api, transaction}
use chantools.Dataformat.{SummaryEntry, SummaryEntryFile}
use chantools.Summary.{
  empty_file, could_be_ours, report_coop, report_force, report_unspent, report_open, new_closing,
  summarize_channel, summarize_loop, summarize_channels, unspent_outputs,
}
use chantools.Summary.Round.{Funding, found_spent, summarize_channel_cases}
use chantools.Summary.Values.{values-unspent_outputs}
use chantools.Summary.Outcome.{
  Outcome, missing, still_open, closed, report_coop-ClosedBy, report_force-ClosedBy,
}

-- What a run keeps of a channel, and what its entry says afterwards.
pub record Reported (api : Api) (channel e : SummaryEntry) : Type 0 where
  pub remote_pubkey : e.remote_pubkey ≡ channel.remote_pubkey
  pub channel_point : e.channel_point ≡ channel.channel_point
  pub funding_txid : e.funding_txid ≡ channel.funding_txid
  pub funding_tx_index : e.funding_tx_index ≡ channel.funding_tx_index
  pub capacity : e.capacity ≡ channel.capacity
  pub initiator : e.initiator ≡ channel.initiator
  pub local_balance : e.local_balance ≡ channel.local_balance
  pub remote_balance : e.remote_balance ≡ channel.remote_balance
  pub commit_point : e.local_unrevoked_commit_point ≡ channel.local_unrevoked_commit_point
  pub outcome : Outcome api channel e

abbrev ReportedIn : Api → SummaryEntry → SummaryEntryFile × SummaryEntry → Type 0
ReportedIn api channel p = Reported api channel p.1

-- Entry by entry.
abbrev pub AllReported : Api → List SummaryEntry → List SummaryEntry → Type 0
AllReported api [] [] = Unit
AllReported api [] (_ ∷ _) = ⊥
AllReported api (_ ∷ _) [] = ⊥
AllReported api (c ∷ cs) (e ∷ es) = Reported api c e × AllReported api cs es

-- An entry that differs from the channel in what a run may change only.
abbrev Kept : SummaryEntry → SummaryEntry → Type 0
Kept channel e = e ≡ record channel {
  chan_exists = e.chan_exists;
  closing_tx = e.closing_tx;
  has_potential = e.has_potential;
}

reported :
    (api : Api) (channel e : SummaryEntry)
    → Kept channel e
    → Outcome api channel e
    → Reported api channel e
reported api channel e kept outcome = record {
  remote_pubkey = ap (λ (x : SummaryEntry). x.remote_pubkey) kept;
  channel_point = ap (λ (x : SummaryEntry). x.channel_point) kept;
  funding_txid = ap (λ (x : SummaryEntry). x.funding_txid) kept;
  funding_tx_index = ap (λ (x : SummaryEntry). x.funding_tx_index) kept;
  capacity = ap (λ (x : SummaryEntry). x.capacity) kept;
  initiator = ap (λ (x : SummaryEntry). x.initiator) kept;
  local_balance = ap (λ (x : SummaryEntry). x.local_balance) kept;
  remote_balance = ap (λ (x : SummaryEntry). x.remote_balance) kept;
  commit_point = ap (λ (x : SummaryEntry). x.local_unrevoked_commit_point) kept;
  outcome = outcome;
}

report_coop-Kept :
    (file : SummaryEntryFile) (channel : SummaryEntry) (os : Outspend) (height : ℕ)
    (utxo : List Vout)
    → Kept channel (report_coop file (found_spent channel os height) (new_closing os height) utxo).1
unfolding report_coop
report_coop-Kept file channel os height utxo = refl

report_force-Kept :
    (file : SummaryEntryFile) (channel : SummaryEntry) (os : Outspend) (height : ℕ)
    (utxo : List Vout)
    → Kept channel
        (report_force file (found_spent channel os height) (new_closing os height) utxo).1
unfolding report_force report_unspent
report_force-Kept file channel os height [] = refl
report_force-Kept file channel os height (first ∷ rest) =
    elim (Bool-cases (could_be_ours (found_spent channel os height) first rest)) [
      | inl may ↦ rw may refl
      | inr theirs ↦ rw theirs refl
    ]

report_open-Reported :
    (api : Api) (file : SummaryEntryFile) (channel : SummaryEntry) (v : Vout)
    → Funding (transaction api channel.funding_txid) channel v
    → v.outspend.spent ≡ false
    → ReportedIn api channel (report_open file channel)
unfolding report_open
report_open-Reported api file channel v funding unspent =
    reported api channel _ refl (still_open v funding unspent refl refl refl)

summarize_channel-Reported :
    (api : Api) (file : SummaryEntryFile) (channel : SummaryEntry)
    {p : SummaryEntryFile × SummaryEntry}
    → summarize_channel api file channel (transaction api channel.funding_txid) ≡ ok p
    → ReportedIn api channel p
summarize_channel-Reported api file channel h =
    summarize_channel_cases api file channel (transaction api channel.funding_txid)
      (ReportedIn api channel) (λ unknown. reported api channel _ refl (missing unknown refl))
      (report_open-Reported api file channel)
      (λ v height tx c.
        let (closing, by) =
          report_coop-ClosedBy api _ channel v height tx (unspent_outputs tx)
            (values-unspent_outputs tx) in
        reported api channel _ (report_coop-Kept _ channel v.outspend height (unspent_outputs tx))
          (closed v tx false closing c by))
      (λ v height tx c.
        let (closing, by) =
          report_force-ClosedBy api _ channel v height tx (unspent_outputs tx)
            (values-unspent_outputs tx) in
        reported api channel _ (report_force-Kept _ channel v.outspend height (unspent_outputs tx))
          (closed v tx true closing c by))
      h

summarize_loop-AllReported :
    (api : Api) (file : SummaryEntryFile) (channels : List SummaryEntry)
    {q : SummaryEntryFile × List SummaryEntry}
    → summarize_loop api file channels ≡ ok q
    → AllReported api channels q.1
unfolding summarize_loop
summarize_loop-AllReported api file [] h = subst (λ q. AllReported api [] q.1) (ok-injective h) tt
summarize_loop-AllReported api file (channel ∷ channels) h =
    let (p, e1, r1) =
      >>=-eq-ok (summarize_channel api file channel (transaction api channel.funding_txid)) _ h in
    let (s, e2, r2) = >>=-eq-ok (summarize_loop api p.0 channels) _ r1 in
    subst (λ q. AllReported api (channel ∷ channels) q.1) (ok-injective r2)
      (
        summarize_channel-Reported api file channel e1,
        summarize_loop-AllReported api p.0 channels e2,
      )

-- The summary has one entry for each channel, in the given order, with the channel's identity and
-- balances unchanged. The entry says of a channel whose funding transaction the explorer does not find that it
-- does not exist, of one whose funding output is not spent that it is open and has funds, and of any other which
-- transaction closed it, whether by force, whether all its outputs are spent, and that it has funds exactly
-- if there is a local balance and an unspent output that, after a force close, is not the peer's alone.
pub summarize_channels-AllReported :
    (api : Api) (channels : List SummaryEntry) {file : SummaryEntryFile}
    → summarize_channels api channels ≡ ok file
    → AllReported api channels file.channels
unfolding summarize_channels
summarize_channels-AllReported api channels {file} h =
    let (q, e, r) = >>=-eq-ok (summarize_loop api empty_file channels) _ h in
    subst (λ f. AllReported api channels f.channels) (ok-injective r)
      (summarize_loop-AllReported api empty_file channels e)
