-- ===== src/TimeLock/Targets.antt =====
-- `sweepTimeLockFromSummary` of cmd/chantools/sweeptimelock.go: the outputs that are swept. Hex and keys
-- are read by Go's and btcec's libraries, a parameter.
use chantools.Prelude.{
  ℕ, ◌+◌, ◌%◌, ◌^◌, List, [], ◌∷◌, Bool, false, ◌==◌, ◌||◌, Option, none, some, Result, ok, ◌>>=◌,
  or_panic, if◌then◌else◌, get_elem?,
}
use chantools.Prelude.Int.{ℤ}
use chantools.Prelude.Int64.{to_int64}
use chantools.Prelude.Text.{Text}
use chantools.HdKeychain.Derive.{KeyLib}
use chantools.HdKeychain.Ring.{KeyDescriptor}
use chantools.Dataformat.{SummaryEntry, ClosingTx, ForceClose, BasePoint, Out}
use chantools.TimeLock.{
  LockError, or_error, bad_commit_point, bad_revocation_base, bad_delay_base, bad_script,
  bad_tx_hash,
}

pub record ParseLib (K : KeyLib) : Type 0 where
  -- `hex.DecodeString`
  pub decode_hex : Text → Option Text
  -- `btcec.ParsePubKey`
  pub parse_pub_key : Text → Option K.PublicKey
  -- `chainhash.NewHashFromStr`
  pub parse_hash : Text → Option Text

pub record SweepTarget (K : KeyLib) : Type 0 where
  pub channel_point : Text
  pub txid : Text
  pub index : ℕ
  pub lock_script : Text
  pub value : ℤ
  pub commit_point : K.PublicKey
  pub revocation_base_point : K.PublicKey
  pub delay_base_point_desc : KeyDescriptor K

unfoldable pub all_spent : Option ClosingTx → Bool
all_spent none = false
all_spent (some c) = c.all_outs_spent

-- The last output that holds the local balance.
unfoldable pub last_index : ℕ → ℕ → List Out → Option ℕ → Option ℕ
last_index balance idx [] found = found
last_index balance idx (o ∷ os) found =
    last_index balance (idx + 1) os (if o.value == balance then some idx else found)

-- The output of the commitment that can be swept: the only one, or one that holds the balance.
unfoldable pub tx_index : ℕ → List Out → Option ℕ
tx_index balance [] = none
tx_index balance (o ∷ []) = some 0
tx_index balance (o ∷ p ∷ os) = last_index balance 0 (o ∷ p ∷ os) none

module _ (K : KeyLib) (P : ParseLib K) where
  unfoldable pub pub_key_from_hex : Text → Option K.PublicKey
  pub_key_from_hex s = elim (P.decode_hex s) [ none ↦ none | some bytes ↦ P.parse_pub_key bytes ]

  -- `BasePoint.Desc`
  unfoldable pub desc : BasePoint → Option (KeyDescriptor K)
  desc b = elim (pub_key_from_hex b.pub_key) [
    | none ↦ none
    | some key ↦
        some
          (record { locator = record { family = b.family; index = b.index }; pub_key = some key })
  ]

  -- What is swept of a force close, given the index of its output.
  unfoldable pub target_of : SummaryEntry → ForceClose → ℕ → Result LockError (SweepTarget K)
  target_of entry fc index = do
    commit_point ← or_error (pub_key_from_hex fc.commit_point) bad_commit_point
    revocation ← or_panic fc.revocation_base_point
    rev_base ← or_error (pub_key_from_hex revocation.pub_key) bad_revocation_base
    delay ← or_panic fc.delay_base_point
    delay_desc ← or_error (desc delay) bad_delay_base
    out ← or_panic (get_elem? fc.outs index)
    lock_script ← or_error (P.decode_hex out.script) bad_script
    tx_hash ← or_error (P.parse_hash fc.txid) bad_tx_hash
    ok (record {
      channel_point = entry.channel_point;
      txid = tx_hash;
      index = index % 2 ^ 32;
      lock_script = lock_script;
      value = to_int64 out.value;
      commit_point = commit_point;
      revocation_base_point = rev_base;
      delay_base_point_desc = delay_desc;
    })

  -- A channel whose output is not found is left out.
  unfoldable pub target_at :
      SummaryEntry → ForceClose → Option ℕ → Result LockError (Option (SweepTarget K))
  target_at entry fc none = ok none
  target_at entry fc (some index) = target_of entry fc index >>= λ t. ok (some t)

  -- A channel with no force close, with nothing left or with no balance of ours is left out.
  unfoldable pub target :
      SummaryEntry → Option ForceClose → Result LockError (Option (SweepTarget K))
  target entry none = ok none
  target entry (some fc) =
      if all_spent entry.closing_tx || entry.local_balance == 0
      then ok none
      else target_at entry fc (tx_index entry.local_balance fc.outs)

  unfoldable pub prepend : Option (SweepTarget K) → List (SweepTarget K) → List (SweepTarget K)
  prepend none ts = ts
  prepend (some t) ts = t ∷ ts

  -- The loop over the entries.
  unfoldable pub targets : List SummaryEntry → Result LockError (List (SweepTarget K))
  targets [] = ok []
  targets (entry ∷ entries) = do
    t ← target entry entry.force_close
    ts ← targets entries
    ok (prepend t ts)
