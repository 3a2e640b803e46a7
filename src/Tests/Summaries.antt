-- ===== src/Tests/Summaries.antt =====
-- The summary of channels at a concrete answer of the explorer.
use chantools.Prelude.{
  ℕ, ◌+◌, List, [], ◌∷◌, Bool, some, none, Result, ok, err, ◌≡◌, refl, arith, true, false,
  if◌then◌else◌, ◌==◌,
}
use chantools.Prelude.Text.{Text, codes, text_eq}
use chantools.Dataformat.{SummaryEntry, SummaryEntryFile}
use chantools.Explorer.{
  Api, TxData, Outspend, VoutData, transaction, outspends, ApiError, tx_not_found,
}
use chantools.Prelude.{All, count}
use chantools.Explorer.{unspent}
use chantools.Explorer.Unspent.{IsUnspent, unspent-IsUnspent}
use chantools.Summary.{
  empty_file, summarize_channels, summarize_loop, summarize_channel, summarize_found,
  report_outspend, is_coop_close, report_force, report_unspent, report_coop, report_open,
  new_closing, closed_file, to_remote_addr, is_p2wkh, could_be_ours,
}
use chantools.Summary.Recount.{Agrees, summarize_channels-Agrees}
use chantools.Summary.Facts.{AllReported, summarize_channels-AllReported}
use chantools.Summary.Partition.{is_unknown, summarize_channels_partition}

abbrev output : VoutData
output = record {
  script_pubkey = 6 ∷ [];
  script_pubkey_asm = [];
  script_pubkey_type = codes "v0_p2wpkh";
  script_pubkey_addr = 7 ∷ [];
  value = 40000;
}

abbrev txid_is : ℕ → Text → Bool
txid_is n [] = false
txid_is n (c ∷ _) = c == n

abbrev transaction_of : Text → ℕ → TxData
transaction_of txid sequence = record {
  txid = txid;
  vin = record { txid = 9 ∷ []; vout = 0; prevout = none; sequence = sequence } ∷ [];
  vout = output ∷ [];
}

-- Transaction 4 is spent by transaction 5, a force close with one output left; no other is known.
abbrev fetch_tx : Text → Result ApiError TxData
fetch_tx txid =
    if txid_is 4 txid
    then ok (transaction_of txid 0)
    else (if txid_is 5 txid then ok (transaction_of txid 2) else err tx_not_found)

abbrev fetch_outspend : Text → ℕ → Result ApiError Outspend
fetch_outspend txid idx = ok (record {
  spent = txid_is 4 txid;
  txid = 5 ∷ [];
  vin = 0;
  status = some (record { confirmed = true; block_height = 700000; block_hash = [] });
})

abbrev explorer : Api
explorer = record {
  fetch_tx = fetch_tx;
  fetch_outspend = fetch_outspend;
  fetch_address = λ a. err tx_not_found;
  fetch_address_txs = λ a. err tx_not_found;
}

abbrev channel : Text → SummaryEntry
channel txid = record {
  remote_pubkey = 2 ∷ [];
  channel_point = 3 ∷ [];
  funding_txid = txid;
  funding_tx_index = 0;
  capacity = 100000;
  initiator = true;
  local_balance = 40000;
  remote_balance = 60000;
  chan_exists = true;
  has_potential = true;
  local_unrevoked_commit_point = [];
  closing_tx = none;
  force_close = none;
}

-- Of the first channel the explorer knows the funding transaction, of the second it does not.
abbrev channels : List SummaryEntry
channels = channel (4 ∷ []) ∷ channel (6 ∷ []) ∷ []

abbrev closed : SummaryEntry
closed = record (channel (4 ∷ [])) {
  closing_tx = some (record {
    txid = 5 ∷ [];
    force_close = true;
    all_outs_spent = false;
    our_addr = 7 ∷ [];
    to_remote_addr = 7 ∷ [];
    sweep_privkey = [];
    conf_height = 700000;
  });
}

abbrev file : SummaryEntryFile
file = record empty_file {
  channels = closed ∷ record (channel (6 ∷ [])) { chan_exists = false } ∷ [];
  closed_channels = 1;
  force_closed_channels = 1;
  channels_with_unspent = 1;
  channels_with_potential = 1;
  funds_closed_channels = 40000;
  funds_force_close = 40000;
}

summarized : summarize_channels explorer channels ≡ ok file
unfolding summarize_channels summarize_loop summarize_channel summarize_found report_outspend
    is_coop_close report_force report_unspent report_coop report_open new_closing closed_file
    to_remote_addr is_p2wkh could_be_ours transaction outspends text_eq
summarized = refl

summarize_channels-Agrees_example : Agrees explorer file file.channels
summarize_channels-Agrees_example = summarize_channels-Agrees explorer channels summarized

summarize_channels-AllReported_example : AllReported explorer channels file.channels
summarize_channels-AllReported_example = summarize_channels-AllReported explorer channels summarized

summarize_channels_partition_example :
    (0 + 1 + count (is_unknown explorer) channels ≡ 2) × (1 ≡ 0 + 1) × (1 ≡ 0 + 1)
summarize_channels_partition_example =
    summarize_channels_partition explorer channels summarized (omega arith)

-- The address of the output is paid by both transactions, and one of the outputs is spent.
abbrev pub address_explorer : Api
address_explorer = record explorer {
  fetch_address = λ a. ok (record {
    chain_stats = record { funded_txo_sum = 80000; spent_txo_sum = 40000 };
    mempool_stats = record { funded_txo_sum = 0; spent_txo_sum = 0 };
  });
  fetch_address_txs = λ a. ok (transaction_of (4 ∷ []) 0 ∷ transaction_of (5 ∷ []) 2 ∷ []);
}

left_over : unspent address_explorer (7 ∷ []) ≡ ok ((5 ∷ [], 0, output) ∷ [])
unfolding unspent text_eq
left_over = refl

unspent-IsUnspent_example : All (IsUnspent address_explorer (7 ∷ [])) ((5 ∷ [], 0, output) ∷ [])
unspent-IsUnspent_example = unspent-IsUnspent address_explorer (7 ∷ []) left_over
