-- ===== src/Offer/Keys/Found.antt =====
-- What `matchKeys` of zombierecovery_makeoffer.go sets in the channels.
use chantools.Prelude.{
  ℕ, suc, ◌+◌, ◌%◌, ◌^◌, List, [], ◌∷◌, true, some, Result, ok, err, get_elem?, ◌≡◌, refl, subst,
  arith, >>=-eq-ok, ok-injective, Bool-cases, Option-cases, inl, inr,
}
use chantools.Prelude.Text.{Text}
use chantools.HdKeychain.Derive.{KeyLib}
use chantools.Offer.Files.{Channel}
use chantools.Offer.Keys.{
  MatchError, no_matching_keys, Scripts, Keyed, keyed, try_theirs, try_ours, match_channel,
  match_keys,
}

module _ (K : KeyLib)
    (match_one : Text → K.PublicKey → K.PublicKey → Result MatchError Scripts) where
  -- What is set in a channel: keys of the two lists whose script is the channel's, and the place of
  -- ours, counted from `start`.
  pub record IsFound (channel : Channel) (start : ℕ) (ours theirs : List K.PublicKey) (k : Keyed K)
      : Type 0 where
    pub channel_kept : k.channel ≡ channel
    pub our_place :
        (j : ℕ) × (get_elem? ours j ≡ some k.our_key) × (k.our_key_index ≡ (start + j) % 2 ^ 32)
    pub their_place : (i : ℕ) × (get_elem? theirs i ≡ some k.their_key)
    pub matched :
        match_one channel.address k.our_key k.their_key
        ≡ ok
            (record { is_match = true; witness_script = k.witness_script; pk_script = k.pk_script })

  -- One of our keys, with a key of the peer.
  record Pairs (channel : Channel) (idx : ℕ) (our_key : K.PublicKey) (theirs : List K.PublicKey)
      (k : Keyed K) : Type 0 where
    channel_kept : k.channel ≡ channel
    our_key_kept : k.our_key ≡ our_key
    index_kept : k.our_key_index ≡ idx % 2 ^ 32
    their_place : (i : ℕ) × (get_elem? theirs i ≡ some k.their_key)
    matched :
        match_one channel.address our_key k.their_key
        ≡ ok
            (record { is_match = true; witness_script = k.witness_script; pk_script = k.pk_script })

  try_theirs_sound :
      (channel : Channel) (idx : ℕ) (our_key : K.PublicKey) (theirs : List K.PublicKey)
      {k : Keyed K}
      → try_theirs K match_one channel idx our_key theirs ≡ ok (some k)
      → Pairs channel idx our_key theirs k
  unfolding try_theirs
  try_theirs_sound channel idx our_key [] h = cc
  try_theirs_sound channel idx our_key (t ∷ theirs) {k} h =
      let (s, e, r) = >>=-eq-ok (match_one channel.address our_key t) _ h in
      elim (Bool-cases s.is_match) [
        | inl hit ↦
            subst (Pairs channel idx our_key (t ∷ theirs))
              (some_injective (ok-injective (rw hit at r))) (first s t e hit)
        | inr miss ↦
            let p = try_theirs_sound channel idx our_key theirs (rw miss at r) in
            record {
              channel_kept = p.channel_kept;
              our_key_kept = p.our_key_kept;
              index_kept = p.index_kept;
              their_place = (suc p.their_place.0, p.their_place.1);
              matched = p.matched;
            }
      ]
    where
      some_injective : {a b : Keyed K} → some a ≡ some b → a ≡ b
      some_injective h = cc

      first :
          (s : Scripts) (t : K.PublicKey)
          → match_one channel.address our_key t ≡ ok s
          → s.is_match ≡ true
          → Pairs channel idx our_key (t ∷ theirs) (keyed K match_one channel idx our_key t s)
      first s t e hit = record {
        channel_kept = refl;
        our_key_kept = refl;
        index_kept = refl;
        their_place = (0, refl);
        matched = rw e (ground arith);
      }

  try_ours_sound :
      (channel : Channel) (start : ℕ) (ours theirs : List K.PublicKey) {k : Keyed K}
      → try_ours K match_one channel start ours theirs ≡ ok (some k)
      → IsFound channel start ours theirs k
  unfolding try_ours
  try_ours_sound channel start [] theirs h = cc
  try_ours_sound channel start (o ∷ ours) theirs {k} h =
      let (found, e, r) = >>=-eq-ok (try_theirs K match_one channel start o theirs) _ h in
      elim (Option-cases found) [
        | inl nothing ↦
            let f = try_ours_sound channel (start + 1) ours theirs (rw nothing at r) in
            record {
              channel_kept = f.channel_kept;
              our_place = (suc f.our_place.0, f.our_place.1, omega (arith, f.our_place.2));
              their_place = f.their_place;
              matched = f.matched;
            }
        | inr (k', hit) ↦ paired k' (rw hit at e) (ok-injective (rw hit at r))
      ]
    where
      paired :
          (k' : Keyed K)
          → try_theirs K match_one channel start o theirs ≡ ok (some k')
          → some k' ≡ some k
          → IsFound channel start (o ∷ ours) theirs k
      paired k' e same =
          let p = try_theirs_sound channel start o theirs (rw same at e) in
          record {
            channel_kept = p.channel_kept;
            our_place = (0, rw p.our_key_kept, omega (arith, p.index_kept));
            their_place = p.their_place;
            matched = rw p.our_key_kept p.matched;
          }

  -- Entry by entry, in the order of the channels.
  abbrev pub AllFound : List K.PublicKey → List K.PublicKey → List Channel → List (Keyed K) → Type 0
  AllFound ours theirs [] [] = Unit
  AllFound ours theirs [] (_ ∷ _) = ⊥
  AllFound ours theirs (_ ∷ _) [] = ⊥
  AllFound ours theirs (c ∷ cs) (k ∷ ks) = IsFound c 0 ours theirs k × AllFound ours theirs cs ks

  match_channel_sound :
      (channel : Channel) (ours theirs : List K.PublicKey) {k : Keyed K}
      → match_channel K match_one channel ours theirs ≡ ok k
      → IsFound channel 0 ours theirs k
  unfolding match_channel
  match_channel_sound channel ours theirs {k} h =
      let (found, e, r) = >>=-eq-ok (try_ours K match_one channel 0 ours theirs) _ h in
      elim (Option-cases found) [
        | inl nothing ↦ absurd (refused (rw nothing at r))
        | inr (k', hit) ↦
            subst (IsFound channel 0 ours theirs) (ok-injective (rw hit at r))
              (try_ours_sound channel 0 ours theirs (rw hit at e))
      ]
    where
      refused : err (no_matching_keys channel.chan_point) ≡ ok k → ⊥
      refused p = cc

  -- When `matchKeys` succeeds, each channel has a key of ours and a key of the peer, from the two
  -- lists, for which `matchScript` gave the channel's script; the index is the place of our key, and
  -- the scripts that are kept are those that matched.
  pub match_keys_sound :
      (channels : List Channel) (ours theirs : List K.PublicKey) {ks : List (Keyed K)}
      → match_keys K match_one channels ours theirs ≡ ok ks
      → AllFound ours theirs channels ks
  unfolding match_keys
  match_keys_sound [] ours theirs h = subst (AllFound ours theirs []) (ok-injective h) tt
  match_keys_sound (c ∷ cs) ours theirs h =
      let (k, e1, r1) = >>=-eq-ok (match_channel K match_one c ours theirs) _ h in
      let (ks, e2, r2) = >>=-eq-ok (match_keys K match_one cs ours theirs) _ r1 in
      subst (AllFound ours theirs (c ∷ cs)) (ok-injective r2)
        (match_channel_sound c ours theirs e1, match_keys_sound cs ours theirs e2)
