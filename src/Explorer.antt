-- ===== src/Explorer.antt =====
-- btc/explorer_api.go: the block explorer. Its answers are a parameter; what is put together from
-- them is modelled.
pub mod Unspent
use chantools.Prelude.{
  ℕ, ◌+◌, ◌-◌, ◌%◌, ◌^◌, List, [], ◌∷◌, ◌++◌, Bool, Option, none, some, Result, ok, err, panic,
  ◌>>=◌, ◌>>◌, fail_if, or_panic, leb, ◌==◌, length, get_elem?, if◌then◌else◌,
}
use chantools.Prelude.Int.{ℤ, pos, negsuc}
use chantools.Prelude.Text.{Text, split, text_eq}
use chantools.Prelude.Text.Decimal.{atoi}

pub record Status : Type 0 where
  pub confirmed : Bool
  pub block_height : ℕ
  pub block_hash : Text

-- The status is a pointer.
pub record Outspend : Type 0 where
  pub spent : Bool
  pub txid : Text
  pub vin : ℕ
  pub status : Option Status

-- An output as the explorer sends it.
pub record VoutData : Type 0 where
  pub script_pubkey : Text
  pub script_pubkey_asm : Text
  pub script_pubkey_type : Text
  pub script_pubkey_addr : Text
  pub value : ℕ

-- An output with what spends it.
pub record Vout : Type 0 where
  pub out : VoutData
  pub outspend : Outspend

pub record Vin : Type 0 where
  pub txid : Text
  pub vout : ℕ
  pub prevout : Option VoutData
  pub sequence : ℕ

pub record TxData : Type 0 where
  pub txid : Text
  pub vin : List Vin
  pub vout : List VoutData

pub record Tx : Type 0 where
  pub txid : Text
  pub vin : List Vin
  pub vout : List Vout

pub record Stats : Type 0 where
  pub funded_txo_sum : ℕ
  pub spent_txo_sum : ℕ

pub record AddressStats : Type 0 where
  pub chain_stats : Stats
  pub mempool_stats : Stats

pub data ApiError : Type 0 where
  tx_not_found : ApiError
  fetch_failed : Text → ApiError
  invalid_outpoint invalid_index no_tx_found : ApiError

-- What `fetchJSON` brings from each address of the explorer.
pub record Api : Type 0 where
  pub fetch_tx : Text → Result ApiError TxData
  pub fetch_outspend : Text → ℕ → Result ApiError Outspend
  pub fetch_address : Text → Result ApiError AddressStats
  pub fetch_address_txs : Text → Result ApiError (List TxData)

module _ (api : Api) where
  -- The loop of `Transaction`: one request for each output.
  unfoldable pub outspends : Text → ℕ → List VoutData → Result ApiError (List Vout)
  outspends txid idx [] = ok []
  outspends txid idx (v ∷ vs) = do
    outspend ← api.fetch_outspend txid idx
    rest ← outspends txid (idx + 1) vs
    ok (record { out = v; outspend = outspend } ∷ rest)

  unfoldable pub transaction : Text → Result ApiError Tx
  transaction txid = do
    tx ← api.fetch_tx txid
    vout ← outspends txid 0 tx.vout
    ok (record { txid = tx.txid; vin = tx.vin; vout = vout })

  -- The two parts of an outpoint.
  outpoint_parts : List Text → Result ApiError (Text × Text)
  outpoint_parts [] = err invalid_outpoint
  outpoint_parts (a ∷ []) = err invalid_outpoint
  outpoint_parts (a ∷ b ∷ []) = ok (a, b)
  outpoint_parts (a ∷ b ∷ c ∷ parts) = err invalid_outpoint

  -- `tx.Vout[vout]` behind the test `len(tx.Vout) <= vout`, which lets a negative index pass.
  address_at : List Vout → Option ℤ → Result ApiError Text
  address_at vouts none = err invalid_index
  address_at vouts (some (negsuc n)) = panic
  address_at vouts (some (pos n)) =
      fail_if (leb (length vouts) n) invalid_index
      >> (or_panic (get_elem? vouts n) >>= λ v. ok v.out.script_pubkey_addr)

  -- `Address`
  unfoldable pub address : Text → Result ApiError Text
  unfolding outpoint_parts address_at
  address outpoint = do
    parts ← outpoint_parts (split b':' outpoint)
    tx ← transaction parts.0
    address_at tx.vout (atoi parts.1)

  -- The outputs of a transaction that pay an address, with the transaction and their index.
  paying_outputs : Text → Text → ℕ → List VoutData → List (Text × ℕ × VoutData)
  paying_outputs addr txid idx [] = []
  paying_outputs addr txid idx (v ∷ vs) =
      let rest = paying_outputs addr txid (idx + 1) vs in
      if text_eq v.script_pubkey_addr addr then (txid, idx, v) ∷ rest else rest

  outputs_of : Text → List TxData → List (Text × ℕ × VoutData)
  unfolding paying_outputs
  outputs_of addr [] = []
  outputs_of addr (tx ∷ txs) = paying_outputs addr tx.txid 0 tx.vout ++ outputs_of addr txs

  -- The outputs that the explorer says are not spent.
  still_unspent : List (Text × ℕ × VoutData) → Result ApiError (List (Text × ℕ × VoutData))
  still_unspent [] = ok []
  still_unspent ((txid, idx, v) ∷ outs) = do
    outspend ← api.fetch_outspend txid idx
    rest ← still_unspent outs
    ok (if outspend.spent then rest else (txid, idx, v) ∷ rest)

  -- `Unspent`; the sums are `uint64`.
  unfoldable pub unspent : Text → Result ApiError (List (Text × ℕ × VoutData))
  unfolding outputs_of still_unspent
  unspent addr = do
    stats ← api.fetch_address addr
    let confirmed =
        (stats.chain_stats.funded_txo_sum + 2 ^ 64 - stats.chain_stats.spent_txo_sum) % 2 ^ 64
    let unconfirmed =
        (stats.mempool_stats.funded_txo_sum + 2 ^ 64 - stats.mempool_stats.spent_txo_sum) % 2 ^ 64
    let found = api.fetch_address_txs addr >>= λ txs. still_unspent (outputs_of addr txs)
    if (confirmed + unconfirmed) % 2 ^ 64 == 0 then ok [] else found
