-- ===== src/Rescue/Channels.antt =====
-- `rescueClosedChannels` and `rescueClosedChannel`: which channels are tried, with which points.
pub mod Found
use chantools.Prelude.{
  ℕ, List, [], ◌∷◌, ◌++◌, Bool, true, false, ◌&&◌, ◌||◌, not, Option, none, some, Result, ok, err,
  panic, ◌>>=◌, ◌>>◌, fail_if, wrap, if◌then◌else◌, map,
}
use chantools.Prelude.Text.{Text, text_eq}
use chantools.HdKeychain.Derive.{KeyLib}
use chantools.HdKeychain.Ring.{Consts}
use chantools.HdKeychain.Address.{
  AddressKind, witness_pub_key_hash, witness_script_hash, taproot, other_kind, AddressLib,
}
use chantools.Dataformat.{SummaryEntry, ClosingTx}
use chantools.Rescue.{
  TweakLib, RescueError, fill_failed, wrong_net, must_be_bech32, key_not_found, CacheEntry,
  fill_cache, addr_in_cache, attempt, try_points,
}

abbrev pub is_blank : Text → Bool
is_blank [] = true
is_blank (_ ∷ _) = false

-- The `continue` at the head of the loop, for a channel that is closed.
unfoldable pub is_skipped : ClosingTx → Bool
is_skipped closing =
    closing.all_outs_spent
    || (is_blank closing.our_addr && is_blank closing.to_remote_addr)
    || not (is_blank closing.sweep_privkey)

unfoldable pub rescue_addr : ClosingTx → Text
rescue_addr closing = if is_blank closing.our_addr then closing.to_remote_addr else closing.our_addr

-- `resultMap[addr] = wif`
unfoldable pub put : Text → Text → List (Text × Text) → List (Text × Text)
put addr wif [] = (addr, wif) ∷ []
put addr wif ((a, w) ∷ rest) =
    let after = put addr wif rest in if text_eq a addr then (a, wif) ∷ rest else (a, w) ∷ after

-- An entry with the key that was found, and the map of all keys.
unfoldable pub store :
    SummaryEntry → ClosingTx → Option Text → List (Text × Text) → SummaryEntry × List (Text × Text)
store entry closing none results = (entry, results)
store entry closing (some wif) results = (
  record entry { closing_tx = some (record closing { sweep_privkey = wif }) },
  put (rescue_addr closing) wif results,
)

module _ (K : KeyLib) (T : TweakLib K) (L : AddressLib K) (cache : List (CacheEntry K))
    (num_keys : ℕ) (commits : List (Option K.PublicKey)) where
  unfoldable pub rescue_closing :
      SummaryEntry
      → Option ClosingTx
      → List (Text × Text)
      → Result RescueError (SummaryEntry × List (Text × Text))
  rescue_closing entry none results = ok (entry, results)
  rescue_closing entry (some closing) results =
      if is_skipped closing
      then ok (entry, results)
      else (try_points K T L cache num_keys (rescue_addr closing) commits >>= λ found.
          ok (store entry closing found results))

  unfoldable pub rescue_loop :
      List SummaryEntry
      → List (Text × Text)
      → Result RescueError (List SummaryEntry × List (Text × Text))
  rescue_loop [] results = ok ([], results)
  rescue_loop (entry ∷ entries) results = do
    (entry', results') ← rescue_closing entry entry.closing_tx results
    (entries', results'') ← rescue_loop entries results'
    ok (entry' ∷ entries', results'')

module _ (K : KeyLib) (T : TweakLib K) (L : AddressLib K) where
  -- `rescueClosedChannels` up to the file that it writes.
  unfoldable pub rescue_closed_channels :
      Consts
      → ℕ
      → K.ExtendedKey
      → List SummaryEntry
      → List K.PublicKey
      → Result RescueError (List SummaryEntry × List (Text × Text))
  rescue_closed_channels c num_keys extended_key entries possible_commit_points = do
    cache ← wrap fill_failed (fill_cache K c num_keys extended_key)
    rescue_loop K T L cache num_keys (map (λ p. some p) possible_commit_points ++ none ∷ []) entries
        []

  -- The type switch of `rescueClosedChannel`.
  unfoldable pub check_kind : AddressKind → Result RescueError (Unit {0})
  check_kind witness_pub_key_hash = ok tt
  check_kind witness_script_hash = err must_be_bech32
  check_kind taproot = err must_be_bech32
  check_kind other_kind = err must_be_bech32

  -- What `rescueClosedChannel` returns at last: the key that it logs.
  unfoldable pub or_static :
      Option Text → Result RescueError (Option Text) → Result RescueError Text
  or_static (some wif) again = ok wif
  or_static none (ok (some wif)) = ok wif
  or_static none (ok none) = err key_not_found
  or_static none (err e) = err e
  or_static none panic = panic

  -- `rescueClosedChannel`; `to_string` is the address's `String`.
  unfoldable pub rescue_closed_channel :
      Consts
      → (L.Address → Text)
      → ℕ
      → K.ExtendedKey
      → L.Address
      → Option K.PublicKey
      → Result RescueError Text
  rescue_closed_channel c to_string num_keys extended_key addr commit = do
    fail_if (not (L.is_for_net addr)) wrong_net
    check_kind (L.kind addr)
    cache ← wrap fill_failed (fill_cache K c num_keys extended_key)
    found ← attempt K T L (addr_in_cache K T L cache num_keys (to_string addr) commit)
    or_static found (attempt K T L (addr_in_cache K T L cache num_keys (to_string addr) none))
