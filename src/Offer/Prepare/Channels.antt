-- ===== src/Offer/Prepare/Channels.antt =====
-- The nonces of the channels of a match file that two nodes prepare
-- (cmd/chantools/zombierecovery_preparekeys.go), and the checks of zombierecovery_makeoffer.go.
use chantools.Prelude.{
  ℕ, suc, ◌+◌, ◌*◌, List, [], ◌∷◌, false, Option, none, some, Result, ok, wrap, length, All, ◌≡◌,
  refl, sym, ◌∙◌, ap, subst, arith, >>=-eq-ok, ok-injective,
}
use chantools.Prelude.Text.{Text, text_eq_refl}
use chantools.HdKeychain.Derive.{KeyLib}
use chantools.HdKeychain.Ring.{Consts}
use chantools.HdKeychain.Address.{
  AddressKind, witness_pub_key_hash, witness_script_hash, taproot, other_kind, AddressLib,
  parse_address,
}
use chantools.Offer.Files.{Channel, is_nil, check_channel, check_channels}
use chantools.Offer.Prepare.{
  Nonces, PrepareLib, PrepareError, prepare_try, derive_musig2_nonce_priv_key, with_signing_key,
  generate_musig2_nonces, add_nonces, for_kind, prepare_channels, address_failed, key_failed,
}

-- The lengths that hex and `musig2` document.
pub record NonceLaws (K : KeyLib) (P : PrepareLib K) : Type 0 where
  pub length-encode_hex : (s : Text) → length (P.encode_hex s) ≡ 2 * length s
  pub length-gen_nonces :
      (key : K.PrivateKey) (randomness : Text) (point : P.OutPoint) {n : Nonces}
      → P.gen_nonces key randomness point ≡ some n
      → length n.pub_nonce ≡ 66

-- `rand.Read` fills 32 bytes.
abbrev pub Random32 : (ℕ → Option Text) → Type 0
Random32 read_random = (i : ℕ) (r : Text) → read_random i ≡ some r → length r ≡ 32

prepare_try-eq-ok :
    {A : Type 0} (o : Option A) (e : PrepareError) {a : A} → prepare_try o e ≡ ok a → o ≡ some a
prepare_try-eq-ok none e h = cc
prepare_try-eq-ok (some a) e h = ap some (ok-injective h)

-- A channel whose nonces and randomness have some lengths.
record Sized (ch d : Channel) (nonces randomness : ℕ) : Type 0 where
  point_kept : d.chan_point ≡ ch.chan_point
  address_kept : d.address ≡ ch.address
  nonces_len : length d.musig2_nonces ≡ nonces
  randomness_len : length d.musig2_nonce_randomness ≡ randomness

nonces_of : AddressKind → Channel → ℕ
nonces_of taproot ch = 132
nonces_of witness_pub_key_hash ch = length ch.musig2_nonces
nonces_of witness_script_hash ch = length ch.musig2_nonces
nonces_of other_kind ch = length ch.musig2_nonces

randomness_of : AddressKind → Channel → ℕ
randomness_of taproot ch = 64
randomness_of witness_pub_key_hash ch = length ch.musig2_nonce_randomness
randomness_of witness_script_hash ch = length ch.musig2_nonce_randomness
randomness_of other_kind ch = length ch.musig2_nonce_randomness

same_channel :
    (ch d : Channel)
    → ◌≡◌ {A = Result PrepareError Channel} (ok ch) (ok d)
    → Sized ch d (length ch.musig2_nonces) (length ch.musig2_nonce_randomness)
same_channel ch d h =
    subst (λ d. Sized ch d (length ch.musig2_nonces) (length ch.musig2_nonce_randomness))
      (ok-injective h)
      (record { point_kept = refl; address_kept = refl; nonces_len = refl; randomness_len = refl })

check_channel-Sized :
    (ch d e : Channel) (n r : ℕ)
    → is_nil ch.address ≡ false
    → Sized ch d n r
    → Sized ch e n r
    → check_channel d e ≡ ok tt
unfolding check_channel
check_channel-Sized ch d e n r filled p q =
    rw
      (
        q.point_kept, p.point_kept, q.address_kept, p.address_kept, p.nonces_len, q.nonces_len,
        p.randomness_len, q.randomness_len,
      )
      (rw (text_eq_refl ch.chan_point) (rw (text_eq_refl ch.address) (rw filled (ground arith))))

module _ (K : KeyLib) (P : PrepareLib K) (laws : NonceLaws K P) (c : Consts) where
  generate-length :
      (key : K.ExtendedKey) (randomness : Text) (point : P.OutPoint) {n : Nonces}
      → generate_musig2_nonces K P c key randomness point none ≡ ok n
      → length n.pub_nonce ≡ 66
  unfolding generate_musig2_nonces with_signing_key
  generate-length key randomness point h =
      let (priv, e, r) = >>=-eq-ok (wrap key_failed (derive_musig2_nonce_priv_key K P c key)) _ h in
      let (m, made, same) = >>=-eq-ok (prepare_try (P.gen_nonces priv randomness point) _) _ r in
      laws.length-gen_nonces priv randomness point (
        prepare_try-eq-ok (P.gen_nonces priv randomness point) _ made ∙ ap some (ok-injective same))

  add_nonces-Sized :
      (lnd_key : Option K.ExtendedKey) (random : Option Text) (ch d : Channel)
      → ((r : Text) → random ≡ some r → length r ≡ 32)
      → add_nonces K P c lnd_key random ch ≡ ok d
      → Sized ch d 132 64
  unfolding add_nonces
  add_nonces-Sized none random ch d wide h = cc
  add_nonces-Sized (some key) random ch d wide h =
      let (point, _, r1) =
        >>=-eq-ok (prepare_try (P.new_out_point_from_string ch.chan_point) _) _ h in
      let (rnd, read, r2) = >>=-eq-ok (prepare_try random _) _ r1 in
      let (n, made, same) = >>=-eq-ok (generate_musig2_nonces K P c key rnd point none) _ r2 in
      subst (λ d. Sized ch d 132 64) (ok-injective same)
        (record {
          point_kept = refl;
          address_kept = refl;
          nonces_len =
              omega (arith, laws.length-encode_hex n.pub_nonce, generate-length key rnd point made);
          randomness_len =
              omega (arith, laws.length-encode_hex rnd, wide rnd (prepare_try-eq-ok random _ read));
        })

  for_kind-Sized :
      (kind : AddressKind) (lnd_key : Option K.ExtendedKey) (random : Option Text) (ch d : Channel)
      → ((r : Text) → random ≡ some r → length r ≡ 32)
      → for_kind K P c lnd_key random ch kind ≡ ok d
      → Sized ch d (nonces_of kind ch) (randomness_of kind ch)
  unfolding for_kind nonces_of randomness_of
  for_kind-Sized taproot lnd_key random ch d wide h = add_nonces-Sized lnd_key random ch d wide h
  for_kind-Sized witness_pub_key_hash lnd_key random ch d wide h = same_channel ch d h
  for_kind-Sized witness_script_hash lnd_key random ch d wide h = same_channel ch d h
  for_kind-Sized other_kind lnd_key random ch d wide h = same_channel ch d h

  module _ (L : AddressLib K) where
    pub prepare_channels-agree :
        (lnd1 lnd2 : Option K.ExtendedKey) (random1 random2 : ℕ → Option Text)
        → Random32 random1
        → Random32 random2
        → (i : ℕ) (chs ds es : List Channel) → All (λ ch. is_nil ch.address ≡ false) chs
        → prepare_channels K P L c random1 lnd1 i chs ≡ ok ds
        → prepare_channels K P L c random2 lnd2 i chs ≡ ok es
        → (length ds ≡ length es) × (check_channels ds es ≡ ok tt)
    unfolding prepare_channels check_channels
    prepare_channels-agree lnd1 lnd2 random1 random2 w1 w2 i [] ds es _ g h =
        subst (λ ds. (length ds ≡ length es) × (check_channels ds es ≡ ok tt)) (ok-injective g)
          (subst (λ es. (0 ≡ length es) × (check_channels [] es ≡ ok tt)) (ok-injective h)
            (refl, refl))
    prepare_channels-agree lnd1 lnd2 random1 random2 w1 w2 i (ch ∷ chs) ds es (filled, all) g h =
        let (a, p1, g1) = >>=-eq-ok (wrap address_failed (parse_address K L ch.address)) _ g in
        let (b, q1, h1) = >>=-eq-ok (wrap address_failed (parse_address K L ch.address)) _ h in
        let (d, p2, g2) = >>=-eq-ok (for_kind K P c lnd1 (random1 i) ch (L.kind a)) _ g1 in
        let (e, q2, h2) = >>=-eq-ok (for_kind K P c lnd2 (random2 i) ch (L.kind b)) _ h1 in
        let (ds', p3, g3) = >>=-eq-ok (prepare_channels K P L c random1 lnd1 (i + 1) chs) _ g2 in
        let (es', q3, h3) = >>=-eq-ok (prepare_channels K P L c random2 lnd2 (i + 1) chs) _ h2 in
        let (len, checked) =
          prepare_channels-agree lnd1 lnd2 random1 random2 w1 w2 (i + 1) chs ds' es' all p3 q3 in
        let kinds : L.kind b ≡ L.kind a = ap L.kind (ok-injective (sym q1 ∙ p1)) in
        let sized1 = for_kind-Sized (L.kind a) lnd1 (random1 i) ch d (w1 i) p2 in
        let sized2 =
          for_kind-Sized (L.kind a) lnd2 (random2 i) ch e (w2 i)
            (subst (λ k. for_kind K P c lnd2 (random2 i) ch k ≡ ok e) kinds q2) in
        let good = check_channel-Sized ch d e _ _ filled sized1 sized2 in
        subst (λ ds. (length ds ≡ length es) × (check_channels ds es ≡ ok tt)) (ok-injective g3)
          (subst (λ es. (suc (length ds') ≡ length es) × (check_channels (d ∷ ds') es ≡ ok tt))
            (ok-injective h3) (ap suc len, rw good checked))
