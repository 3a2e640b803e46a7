-- ===== src/Summary.antt =====
-- btc/summary.go: the summary of a list of channels. The loop changes the entries in place; here it
-- returns them, in their order, beside the counters. Logging is left out.
pub mod Round
pub mod Values
pub mod Recount
pub mod Outcome
pub mod Facts
pub mod Partition
use mathlib.Core.Option
use chantools.Prelude.{
  ℕ, ◌+◌, ◌%◌, ◌^◌, List, [], ◌∷◌, ◌++◌, Bool, true, false, not, ◌&&◌, Option, none, some, Result,
  ok, err, panic, ◌>>=◌, or_panic, ltb, ◌==◌, length, get_elem?, filterb, if◌then◌else◌,
}
use chantools.Prelude.Text.{Text, codes, text_eq}
use chantools.Explorer.{Outspend, Vout, Vin, Tx, ApiError, tx_not_found, Api, transaction}
use chantools.Dataformat.{ClosingTx, SummaryEntry, SummaryEntryFile}

-- The `++` and `+=` of a `uint32` and a `uint64`.
abbrev pub inc32 : ℕ → ℕ
inc32 n = (n + 1) % 2 ^ 32

abbrev pub add64 : ℕ → ℕ → ℕ
add64 n m = (n + m) % 2 ^ 64

abbrev pub empty_file : SummaryEntryFile
empty_file = record {
  channels = [];
  open_channels = 0;
  closed_channels = 0;
  force_closed_channels = 0;
  coop_closed_channels = 0;
  fully_spent_channels = 0;
  channels_with_unspent = 0;
  channels_with_potential = 0;
  funds_open_channels = 0;
  funds_closed_channels = 0;
  funds_closed_spent = 0;
  funds_force_close = 0;
  funds_coop_close = 0;
  open_channel_list = [];
}

unfoldable pub is_p2wkh : Vout → Bool
is_p2wkh v = text_eq v.out.script_pubkey_type (codes "v0_p2wpkh")

unfoldable pub could_be_ours : SummaryEntry → Vout → List Vout → Bool
could_be_ours entry first rest =
    if length rest == 0 && first.out.value == entry.remote_balance
    then false
    else not (entry.local_balance == 0)

-- The sequence number of a transaction's first input; a transaction with no input panics.
unfoldable pub is_coop_close : Tx → Result ApiError Bool
is_coop_close tx = or_panic (get_elem? tx.vin 0) >>= λ vin. ok (vin.sequence == 0xffffffff)

-- The loop over the unspent outputs that remembers the last P2WKH address.
unfoldable pub to_remote_addr : Text → List Vout → Text
to_remote_addr addr [] = addr
to_remote_addr addr (o ∷ os) =
    to_remote_addr (if is_p2wkh o then o.out.script_pubkey_addr else addr) os

-- `reportOutspend` on a cooperative close.
unfoldable pub report_coop :
    SummaryEntryFile → SummaryEntry → ClosingTx → List Vout → SummaryEntryFile × SummaryEntry
report_coop file entry closing utxo = (
  record file {
    coop_closed_channels = inc32 file.coop_closed_channels;
    funds_coop_close = add64 file.funds_coop_close entry.local_balance;
  },
  record entry {
    closing_tx = some (record closing { force_close = false; all_outs_spent = length utxo == 0 });
    has_potential = ltb 0 entry.local_balance && not (length utxo == 0);
  },
)

-- A force close of which output `first` is the first that is not spent. `our_addr` is set if it is
-- the only one.
unfoldable pub report_unspent :
    SummaryEntryFile → SummaryEntry → ClosingTx → Vout → List Vout → SummaryEntryFile × SummaryEntry
report_unspent file entry closing first rest =
    let closing' = record closing {
      force_close = true;
      all_outs_spent = false;
      to_remote_addr = to_remote_addr closing.to_remote_addr (first ∷ rest);
    } in
    let file' = record file {
      force_closed_channels = inc32 file.force_closed_channels;
      channels_with_unspent = inc32 file.channels_with_unspent;
    } in
    if could_be_ours entry first rest
    then (
      record file' {
        channels_with_potential = inc32 file.channels_with_potential;
        funds_force_close = add64 file.funds_force_close first.out.value;
      },
      record entry {
        closing_tx = some (record closing' {
          our_addr =
              if length rest == 0 && is_p2wkh first && not first.outspend.spent
              then first.out.script_pubkey_addr
              else closing.our_addr;
        });
        has_potential = true;
      },
    )
    else (file', record entry { closing_tx = some closing'; has_potential = false })

-- `reportOutspend` on a force close.
unfoldable pub report_force :
    SummaryEntryFile → SummaryEntry → ClosingTx → List Vout → SummaryEntryFile × SummaryEntry
report_force file entry closing (first ∷ rest) = report_unspent file entry closing first rest
report_force file entry closing [] = (
  record file {
    force_closed_channels = inc32 file.force_closed_channels;
    funds_closed_spent = add64 file.funds_closed_spent entry.local_balance;
    fully_spent_channels = inc32 file.fully_spent_channels;
  },
  record entry {
    closing_tx = some (record closing { force_close = true; all_outs_spent = true });
    has_potential = false;
  },
)

unfoldable pub closed_file : SummaryEntryFile → SummaryEntry → SummaryEntryFile
closed_file file entry = record file {
  funds_closed_channels = add64 file.funds_closed_channels entry.local_balance;
}

-- A channel whose funding output is not spent.
unfoldable pub report_open : SummaryEntryFile → SummaryEntry → SummaryEntryFile × SummaryEntry
report_open file entry =
    let entry' = record entry { chan_exists = true; closing_tx = none; has_potential = true } in
    (
      record file {
        open_channels = inc32 file.open_channels;
        funds_open_channels = add64 file.funds_open_channels entry.local_balance;
        open_channel_list = file.open_channel_list ++ entry' ∷ [];
      },
      entry',
    )

unfoldable pub new_closing : Outspend → ℕ → ClosingTx
new_closing os height = record {
  txid = os.txid;
  force_close = false;
  all_outs_spent = false;
  our_addr = [];
  to_remote_addr = [];
  sweep_privkey = [];
  conf_height = height % 2 ^ 32;
}

-- `utxo`
abbrev pub unspent_outputs : Tx → List Vout
unspent_outputs tx = filterb (λ v. not v.outspend.spent) tx.vout

module _ (api : Api) where
  unfoldable pub report_outspend :
      SummaryEntryFile → SummaryEntry → Outspend → Result ApiError (SummaryEntryFile × SummaryEntry)
  report_outspend file entry os = do
    spend_tx ← transaction api os.txid
    coop ← is_coop_close spend_tx
    closing ← or_panic entry.closing_tx
    ok (
        if coop
        then report_coop (closed_file file entry) entry closing (unspent_outputs spend_tx)
        else report_force (closed_file file entry) entry closing (unspent_outputs spend_tx))

  -- One round of the loop for a channel whose funding transaction was found.
  unfoldable pub summarize_found :
      SummaryEntryFile → SummaryEntry → Tx → Result ApiError (SummaryEntryFile × SummaryEntry)
  summarize_found file channel tx = do
    funding ← or_panic (get_elem? tx.vout channel.funding_tx_index)
    let closed = or_panic funding.outspend.status >>= λ status.
        report_outspend (record file { closed_channels = inc32 file.closed_channels })
          (record channel {
            chan_exists = true;
            closing_tx = some (new_closing funding.outspend status.block_height);
          })
          funding.outspend
    if funding.outspend.spent then closed else ok (report_open file channel)

  -- One round of the loop, on the answer of the explorer.
  unfoldable pub summarize_channel :
      SummaryEntryFile
      → SummaryEntry
      → Result ApiError Tx
      → Result ApiError (SummaryEntryFile × SummaryEntry)
  summarize_channel file channel (err tx_not_found) =
      ok (file, record channel { chan_exists = false })
  summarize_channel file channel (err e) = err e
  summarize_channel file channel panic = panic
  summarize_channel file channel (ok tx) = summarize_found file channel tx

  unfoldable pub summarize_loop :
      SummaryEntryFile → List SummaryEntry → Result ApiError (SummaryEntryFile × List SummaryEntry)
  summarize_loop file [] = ok (file, [])
  summarize_loop file (channel ∷ channels) = do
    p ← summarize_channel file channel (transaction api channel.funding_txid)
    q ← summarize_loop p.0 channels
    ok (q.0, p.1 ∷ q.1)

  -- `SummarizeChannels`
  unfoldable pub summarize_channels : List SummaryEntry → Result ApiError SummaryEntryFile
  unfolding summarize_loop
  summarize_channels channels =
      summarize_loop empty_file channels >>= λ q. ok (record q.0 { channels = q.1 })
