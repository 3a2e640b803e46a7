-- ===== src/Rescue/Channels/Found.antt =====
-- What the two ways to rescue channels in cmd/chantools/rescueclosed.go return.
use chantools.Prelude.{
  ℕ, List, [], ◌∷◌, ◌++◌, false, not, Option, none, some, Result, ok, err, panic, ◌>>=◌, fail_if,
  wrap, map, ◌≡◌, ◌⊎◌, inl, inr, refl, sym, subst, ◌∙◌, All, >>=-eq-ok, ok-injective, Bool-cases,
  Option-cases,
}
use chantools.Prelude.Text.{Text, text_eq, text_eq_sound}
use chantools.HdKeychain.Derive.{KeyLib, KeyError}
use chantools.HdKeychain.Ring.{Consts}
use chantools.HdKeychain.Address.{AddressLib}
use chantools.Dataformat.{SummaryEntry, ClosingTx}
use chantools.Rescue.{
  TweakLib, RescueError, CacheEntry, fill_cache, addr_in_cache, attempt, or_next, try_points,
  address_failed, fill_failed, must_be_p2wkh, addr_not_found, new_wif_failed, wrong_net,
  must_be_bech32, key_not_found, fetch_failed,
}
use chantools.Rescue.Channels.{
  is_skipped, rescue_addr, put, store, rescue_closing, rescue_loop, rescue_closed_channels,
  check_kind, or_static, rescue_closed_channel,
}
use chantools.Rescue.Key.{PairLaws, IsPair, Unlocks, fill_from-IsPair, addr_in_cache-Unlocks}

module _ (K : KeyLib) (T : TweakLib K) (laws : PairLaws K T) (L : AddressLib K) where
  attempt-eq-some :
      (m : Result RescueError Text) {wif : Text} → attempt K T L m ≡ ok (some wif) → m ≡ ok wif
  unfolding attempt
  attempt-eq-some (ok w) h = cc
  attempt-eq-some (err addr_not_found) h = cc
  attempt-eq-some (err (address_failed e)) h = cc
  attempt-eq-some (err (fill_failed e)) h = cc
  attempt-eq-some (err must_be_p2wkh) h = cc
  attempt-eq-some (err new_wif_failed) h = cc
  attempt-eq-some (err wrong_net) h = cc
  attempt-eq-some (err must_be_bech32) h = cc
  attempt-eq-some (err key_not_found) h = cc
  attempt-eq-some (err fetch_failed) h = cc
  attempt-eq-some panic h = cc

  or_static-eq-ok :
      (found : Option Text) (again : Result RescueError (Option Text)) {wif : Text}
      → or_static K T L found again ≡ ok wif
      → (found ≡ some wif) ⊎ (again ≡ ok (some wif))
  unfolding or_static
  or_static-eq-ok (some w) again h = inl cc
  or_static-eq-ok none (ok (some w)) h = inr cc
  or_static-eq-ok none (ok none) h = cc
  or_static-eq-ok none (err e) h = cc
  or_static-eq-ok none panic h = cc

  fill_cache-IsPair :
      (c : Consts) (n : ℕ) (key : K.ExtendedKey) {cache : List (CacheEntry K)}
      → fill_cache K c n key ≡ ok cache
      → All (IsPair K T laws) cache
  unfolding fill_cache
  fill_cache-IsPair c n key h = (fill_from-IsPair K T laws c key n 0 h).1

  wrap-eq-ok : {A : Type 0} (m : Result KeyError A) {a : A} → wrap fill_failed m ≡ ok a → m ≡ ok a
  wrap-eq-ok (ok a) h = cc
  wrap-eq-ok (err e) h = cc
  wrap-eq-ok panic h = cc

  -- Under `PairLaws`, the key that `rescueClosedChannel` logs is a private key of the address, whether
  -- it was found with the commit point or as a static remote key.
  rescue_closed_channel-Unlocks :
      (c : Consts) (to_string : L.Address → Text) (num_keys : ℕ) (key : K.ExtendedKey)
      (addr : L.Address) (commit : Option K.PublicKey) {wif : Text}
      → rescue_closed_channel K T L c to_string num_keys key addr commit ≡ ok wif
      → Unlocks K T laws L (to_string addr) wif
  unfolding rescue_closed_channel
  rescue_closed_channel-Unlocks c to_string num_keys key addr commit {wif} h =
      let (u1, e1, r1) = >>=-eq-ok (fail_if (not (L.is_for_net addr)) _) _ h in
      let (u2, e2, r2) = >>=-eq-ok (check_kind K T L (L.kind addr)) _ r1 in
      let (cache, e3, r3) = >>=-eq-ok (wrap fill_failed (fill_cache K c num_keys key)) _ r2 in
      let (found, e4, r4) =
        >>=-eq-ok (attempt K T L (addr_in_cache K T L cache num_keys (to_string addr) commit)) _
          r3 in
      let all = fill_cache-IsPair c num_keys key (wrap-eq-ok (fill_cache K c num_keys key) e3) in
      elim (or_static-eq-ok found
        (attempt K T L (addr_in_cache K T L cache num_keys (to_string addr) none)) r4) [
          | inl hit ↦ addr_in_cache-Unlocks K T laws L cache num_keys (to_string addr) commit all (
              attempt-eq-some (addr_in_cache K T L cache num_keys (to_string addr) commit)
                (rw hit at e4))
          | inr hit ↦
              addr_in_cache-Unlocks K T laws L cache num_keys (to_string addr) none all
                (attempt-eq-some (addr_in_cache K T L cache num_keys (to_string addr) none) hit)
        ]

  try_points-Unlocks :
      (cache : List (CacheEntry K)) (num_keys : ℕ) (addr : Text)
      (commits : List (Option K.PublicKey)) {wif : Text}
      → All (IsPair K T laws) cache
      → try_points K T L cache num_keys addr commits ≡ ok (some wif)
      → Unlocks K T laws L addr wif
  unfolding try_points or_next
  try_points-Unlocks cache num_keys addr [] all h = cc
  try_points-Unlocks cache num_keys addr (commit ∷ commits) {wif} all h =
      let (found, e, r) =
        >>=-eq-ok (attempt K T L (addr_in_cache K T L cache num_keys addr commit)) _ h in
      elim (Option-cases found) [
        | inl nothing ↦ try_points-Unlocks cache num_keys addr commits all (rw nothing at r)
        | inr (w, hit) ↦ addr_in_cache-Unlocks K T laws L cache num_keys addr commit all (
            attempt-eq-some (addr_in_cache K T L cache num_keys addr commit) (
              subst (λ f. attempt K T L (addr_in_cache K T L cache num_keys addr commit) ≡ ok f)
                (hit ∙ ok-injective (rw hit at r)) e))
      ]

  -- What becomes of an entry: it is kept, or it is a channel that was not skipped and the key that
  -- unlocks its address is set, and nothing else.
  pub data IsRescued (e : SummaryEntry) : SummaryEntry → Type 0 where
    kept : IsRescued e e
    found :
        (closing : ClosingTx) (wif : Text)
        → e.closing_tx ≡ some closing
        → is_skipped closing ≡ false
        → Unlocks K T laws L (rescue_addr closing) wif
        → IsRescued e (record e { closing_tx = some (record closing { sweep_privkey = wif }) })

  abbrev pub AllRescued : List SummaryEntry → List SummaryEntry → Type 0
  AllRescued [] [] = Unit
  AllRescued [] (_ ∷ _) = ⊥
  AllRescued (_ ∷ _) [] = ⊥
  AllRescued (e ∷ es) (f ∷ fs) = IsRescued e f × AllRescued es fs

  abbrev pub IsKeyOf : Text × Text → Type 0
  IsKeyOf p = Unlocks K T laws L p.0 p.1

  put-IsKeyOf :
      (addr wif : Text) (results : List (Text × Text))
      → IsKeyOf (addr, wif)
      → All IsKeyOf results
      → All IsKeyOf (put addr wif results)
  unfolding put
  put-IsKeyOf addr wif [] k all = (k, tt)
  put-IsKeyOf addr wif ((a, w) ∷ rest) k all = elim (Bool-cases (text_eq a addr)) [
    | inl same ↦ rw same (subst (λ t. IsKeyOf (t, wif)) (sym (text_eq_sound a addr same)) k, all.1)
    | inr other ↦ rw other (all.0, put-IsKeyOf addr wif rest k all.1)
  ]

  module _ (cache : List (CacheEntry K)) (all : All (IsPair K T laws) cache) (num_keys : ℕ)
      (commits : List (Option K.PublicKey)) where
    rescue_closing-IsRescued :
        (entry : SummaryEntry) (closing_tx : Option ClosingTx) (results : List (Text × Text))
        {out : SummaryEntry × List (Text × Text)}
        → entry.closing_tx ≡ closing_tx
        → All IsKeyOf results
        → rescue_closing K T L cache num_keys commits entry closing_tx results ≡ ok out
        → IsRescued entry out.0 × All IsKeyOf out.1
    unfolding rescue_closing store
    rescue_closing-IsRescued entry none results same keys h =
        subst (λ o. IsRescued entry o.0 × All IsKeyOf o.1) (ok-injective h) (kept, keys)
    rescue_closing-IsRescued entry (some closing) results {out} same keys h =
        elim (Bool-cases (is_skipped closing)) [
          | inl skip ↦
              subst (λ o. IsRescued entry o.0 × All IsKeyOf o.1) (ok-injective (rw skip at h))
                (kept, keys)
          | inr tried ↦ tried_points tried (rw tried at h)
        ]
      where
        stored :
            (f : Option Text)
            → is_skipped closing ≡ false
            → try_points K T L cache num_keys (rescue_addr closing) commits ≡ ok f
            → IsRescued entry (store entry closing f results).0
              × All IsKeyOf (store entry closing f results).1
        stored none tried e = (kept, keys)
        stored (some wif) tried e =
            let key = try_points-Unlocks cache num_keys (rescue_addr closing) commits all e in
            (
              found closing wif same tried key,
              put-IsKeyOf (rescue_addr closing) wif results key keys,
            )

        tried_points :
            is_skipped closing ≡ false
            → (try_points K T L cache num_keys (rescue_addr closing) commits >>= λ f.
                ok (store entry closing f results))
              ≡ ok out
            → IsRescued entry out.0 × All IsKeyOf out.1
        tried_points tried h =
            let (f, e, r) =
              >>=-eq-ok (try_points K T L cache num_keys (rescue_addr closing) commits) _ h in
            subst (λ o. IsRescued entry o.0 × All IsKeyOf o.1) (ok-injective r) (stored f tried e)

    rescue_loop-AllRescued :
        (entries : List SummaryEntry) (results : List (Text × Text))
        {out : List SummaryEntry × List (Text × Text)}
        → All IsKeyOf results
        → rescue_loop K T L cache num_keys commits entries results ≡ ok out
        → AllRescued entries out.0 × All IsKeyOf out.1
    unfolding rescue_loop
    rescue_loop-AllRescued [] results keys h =
        subst (λ o. AllRescued [] o.0 × All IsKeyOf o.1) (ok-injective h) (tt, keys)
    rescue_loop-AllRescued (entry ∷ entries) results keys h =
        let (a, e1, r1) =
          >>=-eq-ok (rescue_closing K T L cache num_keys commits entry entry.closing_tx results) _
            h in
        let (b, e2, r2) = >>=-eq-ok (rescue_loop K T L cache num_keys commits entries a.1) _ r1 in
        let one = rescue_closing-IsRescued entry entry.closing_tx results refl keys e1 in
        let others = rescue_loop-AllRescued entries a.1 one.1 e2 in
        subst (λ o. AllRescued (entry ∷ entries) o.0 × All IsKeyOf o.1) (ok-injective r2)
          ((one.0, others.0), others.1)

  -- Under `PairLaws`, when `rescueClosedChannels` succeeds, each entry is either as it was or a closed channel that was
  -- not skipped and now holds a private key of its address, all its other fields as they were; and
  -- each key of the map that is printed unlocks the address that it is printed with.
  pub rescue_closed_channels-AllRescued :
      (c : Consts) (num_keys : ℕ) (key : K.ExtendedKey) (entries : List SummaryEntry)
      (commit_points : List K.PublicKey) {out : List SummaryEntry × List (Text × Text)}
      → rescue_closed_channels K T L c num_keys key entries commit_points ≡ ok out
      → AllRescued entries out.0 × All IsKeyOf out.1
  unfolding rescue_closed_channels
  rescue_closed_channels-AllRescued c num_keys key entries commit_points h =
      let (cache, e, r) = >>=-eq-ok (wrap fill_failed (fill_cache K c num_keys key)) _ h in
      rescue_loop-AllRescued cache
        (fill_cache-IsPair c num_keys key (wrap-eq-ok (fill_cache K c num_keys key) e)) num_keys
        (map (λ p. some p) commit_points ++ none ∷ []) entries [] tt r
