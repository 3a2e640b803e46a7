-- ===== src/Dataformat.antt =====
-- dataformat/summary.go and dataformat/input.go: the summary of a channel and the inputs that it is
-- made from. Texts are code points, amounts `uint64` numbers.
use chantools.Prelude.{
  ℕ, ◌%◌, ◌^◌, List, [], ◌∷◌, ◌++◌, Bool, false, Option, none, some, Result, ok, panic, ◌>>=◌,
}
use chantools.Prelude.Text.{Text, split}
use chantools.Prelude.Text.Decimal.{atoi, to_uint}

pub record ClosingTx : Type 0 where
  pub txid : Text
  pub force_close : Bool
  pub all_outs_spent : Bool
  pub our_addr : Text
  pub to_remote_addr : Text
  pub sweep_privkey : Text
  pub conf_height : ℕ

pub record BasePoint : Type 0 where
  pub family : ℕ
  pub index : ℕ
  pub pub_key : Text

pub record Out : Type 0 where
  pub script : Text
  pub script_asm : Text
  pub value : ℕ

pub record ForceClose : Type 0 where
  pub txid : Text
  pub serialized : Text
  pub csv_delay : ℕ
  pub delay_base_point : Option BasePoint
  pub revocation_base_point : Option BasePoint
  pub commit_point : Text
  pub outs : List Out

pub record SummaryEntry : Type 0 where
  pub remote_pubkey : Text
  pub channel_point : Text
  pub funding_txid : Text
  pub funding_tx_index : ℕ
  pub capacity : ℕ
  pub initiator : Bool
  pub local_balance : ℕ
  pub remote_balance : ℕ
  pub chan_exists : Bool
  pub has_potential : Bool
  pub local_unrevoked_commit_point : Text
  pub closing_tx : Option ClosingTx
  pub force_close : Option ForceClose

pub record SummaryEntryFile : Type 0 where
  pub channels : List SummaryEntry
  pub open_channels : ℕ
  pub closed_channels : ℕ
  pub force_closed_channels : ℕ
  pub coop_closed_channels : ℕ
  pub fully_spent_channels : ℕ
  pub channels_with_unspent : ℕ
  pub channels_with_potential : ℕ
  pub funds_open_channels : ℕ
  pub funds_closed_channels : ℕ
  pub funds_closed_spent : ℕ
  pub funds_force_close : ℕ
  pub funds_coop_close : ℕ
  pub open_channel_list : List SummaryEntry

-- The error type of the conversions, which panic where they cannot go on.
pub data NoError : Type 0 where

-- The two parts of a channel point; anything else panics.
two_parts : List Text → Result NoError (Text × Text)
two_parts [] = panic
two_parts (a ∷ []) = panic
two_parts (a ∷ b ∷ []) = ok (a, b)
two_parts (a ∷ b ∷ c ∷ parts) = panic

-- `parseInt`
parse_int : Text → Result NoError ℕ
parse_int s = elim (atoi s) [ none ↦ panic | some index ↦ ok (to_uint 64 index) ]

-- `FundingTXID`
unfoldable pub funding_txid : Text → Result NoError Text
unfolding two_parts
funding_txid chan_point = two_parts (split b':' chan_point) >>= λ p. ok p.0

-- `FundingTXIndex`
unfoldable pub funding_tx_index : Text → Result NoError ℕ
unfolding two_parts parse_int
funding_tx_index chan_point =
    two_parts (split b':' chan_point) >>= λ p. parse_int p.1 >>= λ i. ok (i % 2 ^ 32)

pub record ListChannelsChannel : Type 0 where
  pub remote_pubkey : Text
  pub channel_point : Text
  pub capacity : ℕ
  pub initiator : Bool
  pub local_balance : ℕ
  pub remote_balance : ℕ

pub record PendingChannelsChannel : Type 0 where
  pub remote_pubkey : Text
  pub channel_point : Text
  pub capacity : ℕ
  pub local_balance : ℕ
  pub remote_balance : ℕ

-- `ListChannelsChannel.AsSummaryEntry`
unfoldable pub list_entry : ListChannelsChannel → Result NoError SummaryEntry
list_entry c = do
  txid ← funding_txid c.channel_point
  index ← funding_tx_index c.channel_point
  ok (record {
    remote_pubkey = c.remote_pubkey;
    channel_point = c.channel_point;
    funding_txid = txid;
    funding_tx_index = index;
    capacity = c.capacity;
    initiator = c.initiator;
    local_balance = c.local_balance;
    remote_balance = c.remote_balance;
    chan_exists = false;
    has_potential = false;
    local_unrevoked_commit_point = [];
    closing_tx = none;
    force_close = none;
  })

-- `PendingChannelsChannel.AsSummaryEntry`: nothing says who opened the channel.
unfoldable pub pending_entry : PendingChannelsChannel → Result NoError SummaryEntry
unfolding list_entry
pending_entry c = list_entry (record {
  remote_pubkey = c.remote_pubkey;
  channel_point = c.channel_point;
  capacity = c.capacity;
  initiator = false;
  local_balance = c.local_balance;
  remote_balance = c.remote_balance;
})

pub record PendingChannelsFile : Type 0 where
  pub pending_open : List PendingChannelsChannel
  pub pending_closing : List PendingChannelsChannel
  pub pending_force_closing : List PendingChannelsChannel
  pub waiting_close : List PendingChannelsChannel

-- The entries of a list of channels, in its order.
unfoldable pub entries_of :
    {A : Type 0} → (A → Result NoError SummaryEntry) → List A → Result NoError (List SummaryEntry)
entries_of entry [] = ok []
entries_of entry (c ∷ cs) = do e ← entry c; es ← entries_of entry cs; ok (e ∷ es)

-- `ListChannelsFile.AsSummaryEntries`
unfoldable pub list_entries : List ListChannelsChannel → Result NoError (List SummaryEntry)
list_entries = entries_of list_entry

-- `PendingChannelsFile.AsSummaryEntries`: the four lists fill the result one behind the other.
unfoldable pub pending_entries : PendingChannelsFile → Result NoError (List SummaryEntry)
pending_entries f = do
  opening ← entries_of pending_entry f.pending_open
  closing ← entries_of pending_entry f.pending_closing
  forced ← entries_of pending_entry f.pending_force_closing
  waiting ← entries_of pending_entry f.waiting_close
  ok (opening ++ (closing ++ (forced ++ waiting)))
