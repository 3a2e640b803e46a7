-- ===== src/Offer/Agree.antt =====
-- The choice of the keys in `Execute` of zombierecovery_makeoffer.go, seen from the two nodes.
use chantools.Prelude.{
  List, true, false, ok, ◌≡◌, ◌≢◌, refl, arith, ◌⊎◌, inl, inr, >>=-eq-ok, subst, sym, Bool-cases,
  ◌∙◌,
}
use chantools.Prelude.Text.{Text, text_eq, text_eq_iff, text_eq_refl}
use chantools.Offer.Files.{NodeInfo, Channel, KeyFile, is_nil}
use chantools.Offer.Select.{Selection, no_selection, pick, pick_keys, accept, is_ours, select_keys}

-- The same keys seen from the other side.
pub mirror : Selection → Selection
mirror s = record {
  our_keys = s.their_keys;
  our_payout_addr = s.their_payout_addr;
  our_channels = s.their_channels;
  their_keys = s.our_keys;
  their_payout_addr = s.our_payout_addr;
  their_channels = s.our_channels;
}

-- Each node has filled in its own slot of its own file.
pub record Filled (keys1 keys2 : KeyFile) : Type 0 where
  pub same1 : keys2.node1.pub_key ≡ keys1.node1.pub_key
  pub same2 : keys1.node2.pub_key ≡ keys2.node2.pub_key
  pub distinct : keys1.node1.pub_key ≢ keys2.node2.pub_key
  pub own1 : is_nil keys1.node1.multisig_keys ≡ false
  pub own2 : is_nil keys2.node2.multisig_keys ≡ false
  pub not2 : is_nil keys1.node2.multisig_keys ≡ true
  pub not1 : is_nil keys2.node1.multisig_keys ≡ true

-- What the first node sees.
abbrev pub first_view : KeyFile → KeyFile → Selection
first_view keys1 keys2 = record {
  our_keys = keys1.node1.multisig_keys;
  our_payout_addr = keys1.node1.payout_addr;
  our_channels = keys1.channels;
  their_keys = keys2.node2.multisig_keys;
  their_payout_addr = keys2.node2.payout_addr;
  their_channels = keys2.channels;
}

text_eq_ne : (s t : Text) → s ≢ t → text_eq s t ≡ false
text_eq_ne s t ne = ground (arith, text_eq_iff s t)

accept-mirror :
    (s : Selection) {t : Selection}
    → accept s ≡ ok t
    → (t ≡ s) × (accept (mirror s) ≡ ok (mirror t))
unfolding accept mirror
accept-mirror s h = ground arith

-- An if that passes, and one that does not.
module _ (pub_key : Text) (ours theirs : NodeInfo) (ours_ch theirs_ch : List Channel)
    (s : Selection) where
  pick_taken :
      text_eq ours.pub_key pub_key ≡ true
      → is_nil ours.multisig_keys ≡ false
      → pick pub_key ours ours_ch theirs theirs_ch s ≡ record {
        our_keys = ours.multisig_keys;
        our_payout_addr = ours.payout_addr;
        our_channels = ours_ch;
        their_keys = theirs.multisig_keys;
        their_payout_addr = theirs.payout_addr;
        their_channels = theirs_ch;
      }
  unfolding pick
  pick_taken h k = rw (h, k)

  pick_other :
      text_eq ours.pub_key pub_key ≡ false → pick pub_key ours ours_ch theirs theirs_ch s ≡ s
  unfolding pick
  pick_other h = rw h

  pick_unfilled :
      is_nil ours.multisig_keys ≡ true → pick pub_key ours ours_ch theirs theirs_ch s ≡ s
  unfolding pick
  pick_unfilled h = ground arith

module _ (keys1 keys2 : KeyFile) (f : Filled keys1 keys2) where
  pub pick_keys-first : pick_keys keys1.node1.pub_key keys1 keys2 ≡ first_view keys1 keys2
  unfolding pick_keys
  pick_keys-first =
      pick_other _ keys2.node2 _ _ _ _ (text_eq_ne _ _ (λ e. f.distinct (sym e)))
      ∙ pick_unfilled _ keys2.node1 _ _ _ _ f.not1
      ∙ pick_unfilled _ keys1.node2 _ _ _ _ f.not2
      ∙ pick_taken _ keys1.node1 keys2.node2 _ _ _ (text_eq_refl keys1.node1.pub_key) f.own1

  pick_keys-second : pick_keys keys2.node2.pub_key keys1 keys2 ≡ mirror (first_view keys1 keys2)
  unfolding pick_keys mirror
  pick_keys-second =
      pick_taken _ keys2.node2 keys1.node1 _ _ _ (text_eq_refl keys2.node2.pub_key) f.own2

  second_is_ours : is_ours keys2.node2.pub_key keys1 ≡ ok tt
  unfolding is_ours
  second_is_ours = rw f.same2 (rw (text_eq_refl keys2.node2.pub_key) (ground arith))

  -- If each node has filled in its own slot of its own file, the two nodes make the same choice,
  -- seen from their two sides: what one takes for its keys, address and channels the other takes
  -- for the peer's.
  pub select_keys-mirror :
      {s : Selection}
      → select_keys keys1.node1.pub_key keys1 keys2 ≡ ok s
      → (s ≡ first_view keys1 keys2) × (select_keys keys2.node2.pub_key keys1 keys2 ≡ ok (mirror s))
  unfolding select_keys
  select_keys-mirror {s} h =
      let (here, e1, r1) = >>=-eq-ok (is_ours keys1.node1.pub_key keys1) _ h in
      let accepted = accept-mirror (first_view keys1 keys2) (rw pick_keys-first at r1) in
      (accepted.0, rw (second_is_ours, pick_keys-second) accepted.1)

-- The selection was made from one slot: ours holds our public key, theirs is the other slot of the
-- other file.
pub record From (pub_key : Text) (ours theirs : NodeInfo) (ours_ch theirs_ch : List Channel)
    (s : Selection) : Type 0 where
  pub our_node : ours.pub_key ≡ pub_key
  pub our_keys : s.our_keys ≡ ours.multisig_keys
  pub our_payout_addr : s.our_payout_addr ≡ ours.payout_addr
  pub our_channels : s.our_channels ≡ ours_ch
  pub their_keys : s.their_keys ≡ theirs.multisig_keys
  pub their_payout_addr : s.their_payout_addr ≡ theirs.payout_addr
  pub their_channels : s.their_channels ≡ theirs_ch

pick_cases :
    (pub_key : Text) (ours theirs : NodeInfo) (ours_ch theirs_ch : List Channel) (s : Selection)
    → From pub_key ours theirs ours_ch theirs_ch (pick pub_key ours ours_ch theirs theirs_ch s)
      ⊎ (pick pub_key ours ours_ch theirs theirs_ch s ≡ s)
pick_cases pub_key ours theirs ours_ch theirs_ch s =
    elim (Bool-cases (text_eq ours.pub_key pub_key)) [
      | inr other ↦ inr (pick_other pub_key ours theirs ours_ch theirs_ch s other)
      | inl same ↦ elim (Bool-cases (is_nil ours.multisig_keys)) [
        | inl empty ↦ inr (pick_unfilled pub_key ours theirs ours_ch theirs_ch s empty)
        | inr filled ↦ inl (
            rw (pick_taken pub_key ours theirs ours_ch theirs_ch s same filled)
              (taken ((text_eq_iff _ _).0 same)))
      ]
    ]
  where
    taken :
        ours.pub_key ≡ pub_key
        → From pub_key ours theirs ours_ch theirs_ch (record {
          our_keys = ours.multisig_keys;
          our_payout_addr = ours.payout_addr;
          our_channels = ours_ch;
          their_keys = theirs.multisig_keys;
          their_payout_addr = theirs.payout_addr;
          their_channels = theirs_ch;
        })
    taken e = record {
      our_node = e;
      our_keys = refl;
      our_payout_addr = refl;
      our_channels = refl;
      their_keys = refl;
      their_payout_addr = refl;
      their_channels = refl;
    }

-- A property of the result of an if: it holds of a selection from the slot, and of what was there.
pick_elim :
    (Q : Selection → Type 0) (pub_key : Text) (ours theirs : NodeInfo)
    (ours_ch theirs_ch : List Channel) (s : Selection)
    → ((t : Selection) → From pub_key ours theirs ours_ch theirs_ch t → Q t)
    → Q s
    → Q (pick pub_key ours ours_ch theirs theirs_ch s)
pick_elim Q pub_key ours theirs ours_ch theirs_ch s taken kept =
    elim (pick_cases pub_key ours theirs ours_ch theirs_ch s) [
      | inl f ↦ taken _ f
      | inr e ↦ subst Q (sym e) kept
    ]

-- The four slots that a selection can come from.
abbrev pub FromSlot : Text → KeyFile → KeyFile → Selection → Type 0
FromSlot pub_key keys1 keys2 s =
    From pub_key keys2.node2 keys1.node1 keys2.channels keys1.channels s
    ⊎ From pub_key keys2.node1 keys1.node2 keys2.channels keys1.channels s
    ⊎ From pub_key keys1.node2 keys2.node1 keys1.channels keys2.channels s
    ⊎ From pub_key keys1.node1 keys2.node2 keys1.channels keys2.channels s

pick_keys-FromSlot :
    (pub_key : Text) (keys1 keys2 : KeyFile)
    → is_nil (pick_keys pub_key keys1 keys2).our_keys ≡ false
    → FromSlot pub_key keys1 keys2 (pick_keys pub_key keys1 keys2)
unfolding pick_keys
pick_keys-FromSlot pub_key keys1 keys2 =
    pick_elim Q pub_key keys2.node2 keys1.node1 keys2.channels keys1.channels _ (λ t f _. inl f)
      (pick_elim Q pub_key keys2.node1 keys1.node2 keys2.channels keys1.channels _
        (λ t f _. inr (inl f))
        (pick_elim Q pub_key keys1.node2 keys2.node1 keys1.channels keys2.channels _
          (λ t f _. inr (inr (inl f)))
          (pick_elim Q pub_key keys1.node1 keys2.node2 keys1.channels keys2.channels no_selection
            (λ t f _. inr (inr (inr f))) nothing)))
  where
    Q : Selection → Type 0
    Q t = is_nil t.our_keys ≡ false → FromSlot pub_key keys1 keys2 t

    nothing : Q no_selection
    nothing h = unfold is_nil in cc

accept_sound :
    (s : Selection) {t : Selection} → accept s ≡ ok t → (t ≡ s) × (is_nil s.our_keys ≡ false)
unfolding accept
accept_sound s h = ground arith

-- Whatever the files hold, keys that are selected come from a slot with our public key, and the
-- peer's from the other slot of the other file.
pub select_keys_sound :
    (pub_key : Text) (keys1 keys2 : KeyFile) {s : Selection}
    → select_keys pub_key keys1 keys2 ≡ ok s
    → FromSlot pub_key keys1 keys2 s
unfolding select_keys
select_keys_sound pub_key keys1 keys2 {s} h =
    let (here, e1, r1) = >>=-eq-ok (is_ours pub_key keys1) _ h in
    let (same, filled) = accept_sound (pick_keys pub_key keys1 keys2) r1 in
    rw same (pick_keys-FromSlot pub_key keys1 keys2 filled)
