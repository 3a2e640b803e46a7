-- ===== src/Summary/Recount.antt =====
-- The counters of `SummarizeChannels`, btc/summary.go, and a count over the entries.
use chantools.Prelude.{
  ℕ, suc, ◌+◌, ◌%◌, ◌^◌, List, [], ◌∷◌, ◌++◌, Bool, true, false, not, ◌&&◌, none, some, Result, ok,
  if◌then◌else◌, ◌≡◌, refl, subst, arith, count-snoc, sum_of-snoc, count, sum_of, filterb,
  filterb-append, >>=-eq-ok, ok-injective, sym, ◌∙◌, append-nil, append_assoc, ap,
}
use chantools.Explorer.{Outspend, Vout, Tx, ApiError, Api, transaction}
use chantools.Dataformat.{ClosingTx, SummaryEntry, SummaryEntryFile}
use chantools.Summary.Round.{found_spent, summarize_channel_cases}
use chantools.Summary.{
  inc32, add64, empty_file, report_coop, report_force, report_unspent, closed_file, report_open,
  new_closing, summarize_channel, summarize_loop, summarize_channels, unspent_outputs,
}
use chantools.Summary.Values.{values, values-unspent_outputs, first_of, first_unspent, force_value}

-- What an entry says of its channel after the run.
abbrev pub is_open : SummaryEntry → Bool
is_open e = e.chan_exists && elim e.closing_tx [ none ↦ true | some _ ↦ false ]

abbrev pub is_closed : SummaryEntry → Bool
is_closed e = e.chan_exists && elim e.closing_tx [ none ↦ false | some _ ↦ true ]

abbrev pub is_forced : SummaryEntry → Bool
is_forced e = e.chan_exists && elim e.closing_tx [ none ↦ false | some c ↦ c.force_close ]

abbrev pub is_coop : SummaryEntry → Bool
is_coop e = e.chan_exists && elim e.closing_tx [ none ↦ false | some c ↦ not c.force_close ]

abbrev pub is_spent : SummaryEntry → Bool
is_spent e =
    e.chan_exists && elim e.closing_tx [ none ↦ false | some c ↦ c.force_close && c.all_outs_spent ]

abbrev pub is_unspent : SummaryEntry → Bool
is_unspent e =
    e.chan_exists
    && elim e.closing_tx [ none ↦ false | some c ↦ c.force_close && not c.all_outs_spent ]

abbrev pub is_potential : SummaryEntry → Bool
is_potential e =
    e.chan_exists && elim e.closing_tx [ none ↦ false | some c ↦ c.force_close && e.has_potential ]

abbrev pub balance : SummaryEntry → ℕ
balance e = e.local_balance

-- The counters of a file, counted again over a list of entries.
pub record Agrees (api : Api) (file : SummaryEntryFile) (es : List SummaryEntry) : Type 0 where
  pub open_list : file.open_channel_list ≡ filterb is_open es
  pub opened : file.open_channels ≡ count is_open es % 2 ^ 32
  pub closed : file.closed_channels ≡ count is_closed es % 2 ^ 32
  pub forced : file.force_closed_channels ≡ count is_forced es % 2 ^ 32
  pub cooped : file.coop_closed_channels ≡ count is_coop es % 2 ^ 32
  pub spent : file.fully_spent_channels ≡ count is_spent es % 2 ^ 32
  pub unspent : file.channels_with_unspent ≡ count is_unspent es % 2 ^ 32
  pub potential : file.channels_with_potential ≡ count is_potential es % 2 ^ 32
  pub funds_open : file.funds_open_channels ≡ sum_of is_open balance es % 2 ^ 64
  pub funds_closed : file.funds_closed_channels ≡ sum_of is_closed balance es % 2 ^ 64
  pub funds_spent : file.funds_closed_spent ≡ sum_of is_spent balance es % 2 ^ 64
  pub funds_coop : file.funds_coop_close ≡ sum_of is_coop balance es % 2 ^ 64
  pub funds_force : file.funds_force_close ≡ sum_of is_potential (force_value api) es % 2 ^ 64

abbrev pub if_inc : Bool → ℕ → ℕ
if_inc b n = if b then inc32 n else n

abbrev pub if_add : Bool → ℕ → ℕ → ℕ
if_add b n m = if b then add64 n m else n

-- One round counts the entry that it returns, and nothing else.
pub record Counts (api : Api) (file : SummaryEntryFile) (e : SummaryEntry)
    (file' : SummaryEntryFile) : Type 0 where
  pub open_list : file'.open_channel_list ≡ file.open_channel_list ++ filterb is_open (e ∷ [])
  pub opened : file'.open_channels ≡ if_inc (is_open e) file.open_channels
  pub closed : file'.closed_channels ≡ if_inc (is_closed e) file.closed_channels
  pub forced : file'.force_closed_channels ≡ if_inc (is_forced e) file.force_closed_channels
  pub cooped : file'.coop_closed_channels ≡ if_inc (is_coop e) file.coop_closed_channels
  pub spent : file'.fully_spent_channels ≡ if_inc (is_spent e) file.fully_spent_channels
  pub unspent : file'.channels_with_unspent ≡ if_inc (is_unspent e) file.channels_with_unspent
  pub potential :
      file'.channels_with_potential ≡ if_inc (is_potential e) file.channels_with_potential
  pub funds_open :
      file'.funds_open_channels ≡ if_add (is_open e) file.funds_open_channels e.local_balance
  pub funds_closed :
      file'.funds_closed_channels ≡ if_add (is_closed e) file.funds_closed_channels e.local_balance
  pub funds_spent :
      file'.funds_closed_spent ≡ if_add (is_spent e) file.funds_closed_spent e.local_balance
  pub funds_coop : file'.funds_coop_close ≡ if_add (is_coop e) file.funds_coop_close e.local_balance
  pub funds_force :
      file'.funds_force_close ≡ if_add (is_potential e) file.funds_force_close (force_value api e)

inc_mod : (n c : ℕ) (b : Bool) → n ≡ c % 2 ^ 32 → if_inc b n ≡ (if b then suc c else c) % 2 ^ 32
inc_mod n c b h = ground arith

add_mod : (n c m : ℕ) (b : Bool) → n ≡ c % 2 ^ 64 → if_add b n m ≡ (if b then m + c else c) % 2 ^ 64
add_mod n c m b h = ground arith

module _ (api : Api) (file : SummaryEntryFile) (channel : SummaryEntry) where
  report_open-Counts : Counts api file (report_open file channel).1 (report_open file channel).0
  unfolding report_open
  report_open-Counts = ground arith

  report_coop-Counts :
      (closing : ClosingTx) (utxo : List Vout)
      → channel.chan_exists ≡ true
      → let p =
          report_coop
            (closed_file (record file { closed_channels = inc32 file.closed_channels }) channel)
            channel
            closing
            utxo in
        Counts api file p.1 p.0
  unfolding report_coop closed_file
  report_coop-Counts closing utxo h = ground (arith, append-nil file.open_channel_list)

  report_force-Counts :
      (closing : ClosingTx) (utxo : List Vout)
      → channel.chan_exists ≡ true
      → first_unspent (transaction api closing.txid) ≡ first_of (values utxo)
      → let p =
          report_force
            (closed_file (record file { closed_channels = inc32 file.closed_channels }) channel)
            channel
            closing
            utxo in
        Counts api file p.1 p.0
  unfolding report_force closed_file report_unspent
  report_force-Counts closing [] h first = ground (arith, append-nil file.open_channel_list)
  report_force-Counts closing (v ∷ rest) h first =
      ground (arith, first, append-nil file.open_channel_list)

-- A round whose result counts its entry.
abbrev CountsIn : Api → SummaryEntryFile → SummaryEntryFile × SummaryEntry → Type 0
CountsIn api file p = Counts api file p.1 p.0

first_unspent-new_closing :
    (api : Api) (os : Outspend) (height : ℕ) (tx : Tx)
    → transaction api os.txid ≡ ok tx
    → first_unspent (transaction api (new_closing os height).txid)
      ≡ first_of (values (unspent_outputs tx))
unfolding new_closing
first_unspent-new_closing api os height tx found =
    ap first_unspent found ∙ ap first_of (sym (values-unspent_outputs tx))

summarize_channel-Counts :
    (api : Api) (file : SummaryEntryFile) (channel : SummaryEntry) (answer : Result ApiError Tx)
    {p : SummaryEntryFile × SummaryEntry}
    → summarize_channel api file channel answer ≡ ok p
    → CountsIn api file p
summarize_channel-Counts api file channel answer h =
    summarize_channel_cases api file channel answer (CountsIn api file) (λ _. missing file channel)
      (λ v _ _. report_open-Counts api file channel)
      (λ v height tx c.
        report_coop-Counts api file (found_spent channel v.outspend height)
          (new_closing v.outspend height) (unspent_outputs tx) refl)
      (λ v height tx c.
        report_force-Counts api file (found_spent channel v.outspend height)
          (new_closing v.outspend height) (unspent_outputs tx) refl
          (first_unspent-new_closing api v.outspend height tx c.spending))
      h
  where
    missing :
        (file : SummaryEntryFile) (channel : SummaryEntry)
        → CountsIn api file (file, record channel { chan_exists = false })
    missing file channel = ground (arith, append-nil file.open_channel_list)

Agrees-snoc :
    (api : Api) (file file' : SummaryEntryFile) (es : List SummaryEntry) (e : SummaryEntry)
    → Agrees api file es
    → Counts api file e file'
    → Agrees api file' (es ++ e ∷ [])
Agrees-snoc api file file' es e a c = record {
  open_list = c.open_list ∙ rw (a.open_list) (sym (filterb-append is_open es (e ∷ [])));
  opened = c.opened ∙ inc_mod _ _ (is_open e) a.opened ∙ rw (count-snoc is_open es e);
  closed = c.closed ∙ inc_mod _ _ (is_closed e) a.closed ∙ rw (count-snoc is_closed es e);
  forced = c.forced ∙ inc_mod _ _ (is_forced e) a.forced ∙ rw (count-snoc is_forced es e);
  cooped = c.cooped ∙ inc_mod _ _ (is_coop e) a.cooped ∙ rw (count-snoc is_coop es e);
  spent = c.spent ∙ inc_mod _ _ (is_spent e) a.spent ∙ rw (count-snoc is_spent es e);
  unspent = c.unspent ∙ inc_mod _ _ (is_unspent e) a.unspent ∙ rw (count-snoc is_unspent es e);
  potential =
      c.potential ∙ inc_mod _ _ (is_potential e) a.potential ∙ rw (count-snoc is_potential es e);
  funds_open =
      c.funds_open ∙ add_mod _ _ _ (is_open e) a.funds_open ∙ rw (sum_of-snoc is_open balance es e);
  funds_closed =
      c.funds_closed
      ∙ add_mod _ _ _ (is_closed e) a.funds_closed
      ∙ rw (sum_of-snoc is_closed balance es e);
  funds_spent =
      c.funds_spent
      ∙ add_mod _ _ _ (is_spent e) a.funds_spent
      ∙ rw (sum_of-snoc is_spent balance es e);
  funds_coop =
      c.funds_coop ∙ add_mod _ _ _ (is_coop e) a.funds_coop ∙ rw (sum_of-snoc is_coop balance es e);
  funds_force =
      c.funds_force
      ∙ add_mod _ _ _ (is_potential e) a.funds_force
      ∙ rw (sum_of-snoc is_potential (force_value api) es e);
}

summarize_loop-Agrees :
    (api : Api) (file : SummaryEntryFile) (done todo : List SummaryEntry)
    {q : SummaryEntryFile × List SummaryEntry}
    → Agrees api file done
    → summarize_loop api file todo ≡ ok q
    → Agrees api q.0 (done ++ q.1)
unfolding summarize_loop
summarize_loop-Agrees api file done [] {q} a h =
    subst (λ q. Agrees api q.0 (done ++ q.1)) (ok-injective h) (rw append-nil a)
summarize_loop-Agrees api file done (channel ∷ todo) {q} a h =
    let (p, e1, r1) =
      >>=-eq-ok (summarize_channel api file channel (transaction api channel.funding_txid)) _ h in
    let (s, e2, r2) = >>=-eq-ok (summarize_loop api p.0 todo) _ r1 in
    let counted =
      Agrees-snoc api file p.0 done p.1 a
        (summarize_channel-Counts api file channel (transaction api channel.funding_txid) e1) in
    subst (λ q. Agrees api q.0 (done ++ q.1)) (ok-injective r2)
      (rw append_assoc at (summarize_loop-Agrees api p.0 (done ++ p.1 ∷ []) todo counted e2))

-- Every counter, every sum and the list of open channels of a summary that is returned are those of the
-- entries that it returns, counted again, in `uint32` and `uint64`; the sum for forced closes adds up
-- what the explorer has as the value of the first unspent output of the closing transaction.
pub summarize_channels-Agrees :
    (api : Api) (channels : List SummaryEntry) {file : SummaryEntryFile}
    → summarize_channels api channels ≡ ok file
    → Agrees api file file.channels
unfolding summarize_channels
summarize_channels-Agrees api channels {file} h =
    let (q, e, r) = >>=-eq-ok (summarize_loop api empty_file channels) _ h in
    let all = summarize_loop-Agrees api empty_file [] channels empty_Agrees e in
    subst (λ f. Agrees api f f.channels) (ok-injective r) (with_channels q all)
  where
    empty_Agrees : Agrees api empty_file []
    empty_Agrees = ground arith

    with_channels :
        (q : SummaryEntryFile × List SummaryEntry)
        → Agrees api q.0 q.1
        → Agrees api (record q.0 { channels = q.1 }) q.1
    with_channels q a = ground arith
