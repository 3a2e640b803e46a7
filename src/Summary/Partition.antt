-- ===== src/Summary/Partition.antt =====
-- The counters of `SummarizeChannels`, btc/summary.go, against the number of channels.
use chantools.Prelude.{
  panic, Bool, not, err, ◌+◌, ◌^◌, ◌<◌, List, [], ◌∷◌, true, false, Result, ok, ◌≡◌, refl, arith,
  length, count,
}
use chantools.Explorer.{Tx, ApiError, tx_not_found, Api, transaction}
use chantools.Dataformat.{SummaryEntry, SummaryEntryFile}
use chantools.Summary.{summarize_channels}
use chantools.Summary.Recount.{
  is_open, is_closed, is_forced, is_coop, is_spent, is_unspent, summarize_channels-Agrees,
}
use chantools.Summary.Outcome.{Outcome, missing, still_open, closed}
use chantools.Summary.Facts.{AllReported, summarize_channels-AllReported}

abbrev pub not_found : Result ApiError Tx → Bool
not_found (ok tx) = false
not_found panic = false
not_found (err tx_not_found) = true
not_found (err e) = false

-- Whether the explorer does not find the funding transaction of a channel.
abbrev pub is_unknown : Api → SummaryEntry → Bool
is_unknown api channel = not_found (transaction api channel.funding_txid)

Outcome-exists :
    (api : Api) (channel e : SummaryEntry)
    → Outcome api channel e
    → not e.chan_exists ≡ is_unknown api channel
Outcome-exists api channel e (missing unknown gone) = rw (unknown, gone) refl
Outcome-exists api channel e (still_open v (tx, known, _) _ exists _ _) = rw (known, exists) refl
Outcome-exists api channel e (closed v tx forced c by of_tx) =
    let (tx', known, _) = by.funding in rw (known, of_tx.exists) refl

count-unknown :
    (api : Api) (cs es : List SummaryEntry)
    → AllReported api cs es
    → (count (λ e. not e.chan_exists) es ≡ count (is_unknown api) cs) × (length es ≡ length cs)
count-unknown api [] [] h = (refl, refl)
count-unknown api [] (e ∷ es) h = absurd h
count-unknown api (c ∷ cs) [] h = absurd h
count-unknown api (c ∷ cs) (e ∷ es) (h, hs) =
    let same = Outcome-exists api c e h.outcome in ground (arith, count-unknown api cs es hs, same)

count-split :
    (es : List SummaryEntry)
    → (count is_closed es ≡ count is_coop es + count is_forced es)
      × (count is_forced es ≡ count is_spent es + count is_unspent es)
      × (count is_open es + count is_closed es + count (λ e. not e.chan_exists) es ≡ length es)
count-split [] = omega arith
count-split (e ∷ es) = ground (arith, count-split es)

-- With fewer than 2^32 channels the counters and the channels that the explorer does not know
-- partition the channels: open, closed and unknown ones are all; closed channels are cooperative or
-- forced, and forced ones are fully spent or have outputs left.
pub summarize_channels_partition :
    (api : Api) (channels : List SummaryEntry) {file : SummaryEntryFile}
    → summarize_channels api channels ≡ ok file
    → length channels < 2 ^ 32
    → (file.open_channels + file.closed_channels + count (is_unknown api) channels
        ≡ length channels)
      × (file.closed_channels ≡ file.coop_closed_channels + file.force_closed_channels)
      × (file.force_closed_channels ≡ file.fully_spent_channels + file.channels_with_unspent)
summarize_channels_partition api channels {file} h few =
    let a = summarize_channels-Agrees api channels h in
    omega (
      arith,
      a.opened,
      a.closed,
      a.cooped,
      a.forced,
      a.spent,
      a.unspent,
      count-split file.channels,
      count-unknown api channels file.channels (summarize_channels-AllReported api channels h),
    )
