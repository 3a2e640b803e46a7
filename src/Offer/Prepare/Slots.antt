-- ===== src/Offer/Prepare/Slots.antt =====
-- The slot of a match file that a node fills (cmd/chantools/zombierecovery_preparekeys.go).
use chantools.Prelude.{
  ℕ, zero, suc, ◌+◌, List, [], ◌∷◌, false, Option, some, ok, wrap, length, ◌≡◌, ◌≢◌, refl, sym, ◌∙◌,
  ap, subst, arith, >>=-eq-ok, ok-injective,
}
use chantools.Prelude.Text.{Text, text_eq, text_eq_refl, text_eq_iff}
use chantools.HdKeychain.Derive.{KeyLib}
use chantools.HdKeychain.Ring.{Consts}
use chantools.HdKeychain.Address.{p2wkh, p2tr, AddressLib, AddressError, check_address}
use chantools.Offer.Files.{NodeInfo, Channel, MatchFile, is_nil}
use chantools.Offer.Prepare.{
  Signer, PrepareLib, invalid_payout, key_failed, multi_sig_desc, derive_keys, node_key, peer_key,
  fill_node, prepare_channels, fill_slot, fill_match, prepare_nodes, prepare_keys,
}

module _ (K : KeyLib) (P : PrepareLib K) (c : Consts) where
  derive_keys-length :
      (signer : Signer K) (theirs : K.PublicKey) (n i : ℕ) (keys : List Text)
      → derive_keys K P c signer theirs i n ≡ ok keys
      → length keys ≡ n
  unfolding derive_keys
  derive_keys-length signer theirs zero i keys h = ap length (sym (ok-injective h))
  derive_keys-length signer theirs (suc n) i keys h =
      let (priv, _, r1) =
        >>=-eq-ok (wrap key_failed (signer.fetch_private_key (multi_sig_desc K P c i theirs))) _
          h in
      let (rest, e, r2) = >>=-eq-ok (derive_keys K P c signer theirs (i + 1) n) _ r1 in
      ap length (sym (ok-injective r2)) ∙ ap suc (derive_keys-length signer theirs n (i + 1) rest e)

  -- A slot of a match file that was empty, filled in.
  pub record IsFilled (n : ℕ) (payout : Text) (ours filled : NodeInfo) : Type 0 where
    pub key_kept : filled.pub_key ≡ ours.pub_key
    pub payout_set : filled.payout_addr ≡ payout
    pub keys_len : length filled.multisig_keys ≡ n

  fill_node-IsFilled :
      (n : ℕ) (payout : Text) (ours : NodeInfo) (keys : List Text)
      → ours.multisig_keys ≡ []
      → length keys ≡ n
      → IsFilled n payout ours (fill_node K P ours payout keys)
  unfolding fill_node
  fill_node-IsFilled n payout ours keys empty len = record {
    key_kept = refl;
    payout_set = refl;
    keys_len = rw empty len;
  }

  module _ (L : AddressLib K) where
    fill_slot-IsFilled :
        (signer : Signer K) (random : ℕ → Option Text) (payout : Text) (n : ℕ)
        (ours theirs filled : NodeInfo) (chs ds : List Channel)
        → ours.multisig_keys ≡ []
        → fill_slot K P L c random signer payout n ours theirs chs ≡ ok (filled, ds)
        → IsFilled n payout ours filled
          × (prepare_channels K P L c random signer.lnd_key 0 chs ≡ ok ds)
    unfolding fill_slot
    fill_slot-IsFilled signer random payout n ours theirs filled chs ds empty h =
        let (key, _, r1) = >>=-eq-ok (peer_key K P theirs) _ h in
        let (ds', e2, r2) = >>=-eq-ok (prepare_channels K P L c random signer.lnd_key 0 chs) _ r1 in
        let (keys, e3, r3) = >>=-eq-ok (derive_keys K P c signer key 0 n) _ r2 in
        let same = ok-injective r3 in
        (
          subst (IsFilled n payout ours) (ap (λ (q : NodeInfo × List Channel). q.0) same) (
              fill_node-IsFilled n payout ours keys empty
                (derive_keys-length signer key n 0 keys e3)),
          e2 ∙ ap ok (ap (λ (q : NodeInfo × List Channel). q.1) same),
        )

    check_address_nonempty :
        (addr : Text)
        → wrap {A = Unit {0}}
            (λ (e : AddressError). invalid_payout)
            (check_address K L addr false (p2wkh ∷ p2tr ∷ []))
          ≡ ok tt
        → is_nil addr ≡ false
    unfolding check_address is_nil
    check_address_nonempty [] h = cc
    check_address_nonempty (x ∷ addr) h = refl

    module _ (signer : Signer K) (random : ℕ → Option Text) (payout : Text) (n : ℕ)
        (n1 n2 : NodeInfo) (chs : List Channel) (out : MatchFile) where
      -- The file with one slot filled in.
      pub record Prepared (ours : NodeInfo) (made : NodeInfo → List Channel → MatchFile)
          : Type 0 where
        pub slot : NodeInfo
        pub ds : List Channel
        pub filled : IsFilled n payout ours slot
        pub nonced : prepare_channels K P L c random signer.lnd_key 0 chs ≡ ok ds
        pub written : out ≡ made slot ds
        pub paid : is_nil payout ≡ false

      pub prepare_keys-first :
          node_key K P c signer ≡ ok n1.pub_key
          → n1.multisig_keys ≡ []
          → prepare_keys K P L c random signer payout n
              (record { node1 = some n1; node2 = some n2; channels = chs })
            ≡ ok out
          → Prepared n1 (λ s ds. record { node1 = some s; node2 = some n2; channels = ds })
      unfolding prepare_keys prepare_nodes fill_match
      prepare_keys-first named empty h =
          let (u, e1, r1) =
            >>=-eq-ok
              (wrap (λ e. invalid_payout) (check_address K L payout false (p2wkh ∷ p2tr ∷ []))) _
              h in
          let r2 = rw (text_eq_refl n1.pub_key) at (rw named at r1) in
          let ((s, ds), e3, r3) =
            >>=-eq-ok (fill_slot K P L c random signer payout n n1 n2 chs) _ r2 in
          let (filled, nonced) =
            fill_slot-IsFilled signer random payout n n1 n2 s chs ds empty e3 in
          record {
            slot = s;
            ds = ds;
            filled = filled;
            nonced = nonced;
            written = sym (ok-injective r3);
            paid = check_address_nonempty payout e1;
          }

      pub prepare_keys-second :
          node_key K P c signer ≡ ok n2.pub_key
          → n1.pub_key ≢ n2.pub_key
          → n2.multisig_keys ≡ []
          → prepare_keys K P L c random signer payout n
              (record { node1 = some n1; node2 = some n2; channels = chs })
            ≡ ok out
          → Prepared n2 (λ s ds. record { node1 = some n1; node2 = some s; channels = ds })
      unfolding prepare_keys prepare_nodes fill_match
      prepare_keys-second named distinct empty h =
          let (u, e1, r1) =
            >>=-eq-ok
              (wrap (λ e. invalid_payout) (check_address K L payout false (p2wkh ∷ p2tr ∷ []))) _
              h in
          let r2 = rw (text_eq_refl n2.pub_key) at (rw other at (rw named at r1)) in
          let ((s, ds), e3, r3) =
            >>=-eq-ok (fill_slot K P L c random signer payout n n2 n1 chs) _ r2 in
          let (filled, nonced) =
            fill_slot-IsFilled signer random payout n n2 n1 s chs ds empty e3 in
          record {
            slot = s;
            ds = ds;
            filled = filled;
            nonced = nonced;
            written = sym (ok-injective r3);
            paid = check_address_nonempty payout e1;
          }
        where
          other : text_eq n1.pub_key n2.pub_key ≡ false
          other = ground (arith, text_eq_iff n1.pub_key n2.pub_key)
