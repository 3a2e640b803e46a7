-- ===== src/Rescue/Complete.antt =====
-- When `rescueClosedChannel` of cmd/chantools/rescueclosed.go finds a key.
use chantools.Prelude.{
  ℕ, zero, suc, ◌+◌, ◌<◌, ◌≤◌, List, true, false, Option, none, some, ok, err, length, get_elem?,
  get_elem?_total, get_elem?-lt-length, ◌≡◌, ◌⊎◌, inl, inr, refl, sym, ap, subst, ◌∙◌, ok-injective,
  arith, All, Bool-cases,
}
use chantools.Prelude.Text.{Text, text_eq, text_eq_refl}
use chantools.HdKeychain.Derive.{KeyLib}
use chantools.HdKeychain.Ring.{Consts}
use chantools.HdKeychain.Address.{witness_pub_key_hash, AddressLib, decode_address_hash}
use chantools.Rescue.{
  TweakLib, CacheEntry, fill_cache, candidate, find_from, addr_in_cache, addr_not_found, attempt,
}
use chantools.Rescue.Channels.{check_kind, or_static, rescue_closed_channel}
use chantools.Rescue.Key.{PairLaws, IsPair, All-get_elem?, candidate-IsPair, fill_from-IsPair}

module _ (K : KeyLib) (T : TweakLib K) (laws : PairLaws K T)
    (wif_total : (p : K.PrivateKey) → (w : Text) × (K.new_wif p ≡ some w)) where
  -- The loop returns a key or the error that no key is found.
  find_from_total :
      (cache : List (CacheEntry K)) (target : List ℕ) (commit : Option K.PublicKey) (n i : ℕ)
      → All (IsPair K T laws) cache
      → i + n ≤ length cache
      → ((w : Text) × (find_from K T cache target commit i n ≡ ok w))
        ⊎ (find_from K T cache target commit i n ≡ err addr_not_found)
  unfolding find_from
  find_from_total cache target commit zero i all le = inr refl
  find_from_total cache target commit (suc n) i all le =
      let (e, at) = get_elem?_total cache i (omega arith) in
      let (priv, pair) =
        candidate-IsPair K T laws commit e
          (All-get_elem? K T laws (IsPair K T laws) cache i all at) in
      elim (Bool-cases (text_eq target (T.hash160 (laws.pub_of priv)))) [
        | inl hit ↦ let (w, made) = wif_total priv in inl (w, rw (at, pair, hit, made))
        | inr miss ↦
            rw (at, pair, miss) (find_from_total cache target commit n (i + 1) all (omega arith))
      ]

  hits :
      (commit : Option K.PublicKey) (e f : CacheEntry K) {o : Option (CacheEntry K)}
      {target : List ℕ} {a b : K.PublicKey} {p q : K.PrivateKey}
      → o ≡ some e
      → o ≡ some f
      → candidate K T commit e ≡ ok (a, p)
      → candidate K T commit f ≡ ok (b, q)
      → T.hash160 a ≡ target
      → text_eq target (T.hash160 b) ≡ true
  hits commit e f {o} {target} {a} {b} {p} {q} at1 at2 pair1 pair2 hash =
      let same : e ≡ f = cc in
      let pairs : ok (a, p) ≡ candidate K T commit f =
        subst (λ g. ok (a, p) ≡ candidate K T commit g) same (sym pair1) in
      let keys : a ≡ b = ap (λ x. x.0) (ok-injective (pairs ∙ pair2)) in
      rw (sym keys, hash) (text_eq_refl target)

  -- The key at index `i + d` is found when the loop still has more than `d` rounds.
  find_from_complete :
      (cache : List (CacheEntry K)) (target : List ℕ) (commit : Option K.PublicKey) (n i d : ℕ)
      {e : CacheEntry K} {pub_key : K.PublicKey} {priv : K.PrivateKey}
      → All (IsPair K T laws) cache
      → i + n ≤ length cache
      → d < n
      → get_elem? cache (i + d) ≡ some e
      → candidate K T commit e ≡ ok (pub_key, priv)
      → T.hash160 pub_key ≡ target
      → (w : Text) × (find_from K T cache target commit i n ≡ ok w)
  unfolding find_from
  find_from_complete cache target commit zero i d all le dn at pair hash = absurd (omega arith)
  find_from_complete cache target commit (suc n) i zero {e} all le dn at pair hash =
      let (f, at') = get_elem?_total cache i (omega arith) in
      let (priv', pair') =
        candidate-IsPair K T laws commit f
          (All-get_elem? K T laws (IsPair K T laws) cache i all at') in
      let (w, made) = wif_total priv' in
      let hit =
        hits commit e f (subst (λ k. get_elem? cache k ≡ some e) (omega arith) at) at' pair pair'
          hash in
      (w, rw (at', pair', hit, made))
  find_from_complete cache target commit (suc n) i (suc d) {e} all le dn at pair hash =
      let (f, at') = get_elem?_total cache i (omega arith) in
      let (priv', pair') =
        candidate-IsPair K T laws commit f
          (All-get_elem? K T laws (IsPair K T laws) cache i all at') in
      elim (Bool-cases (text_eq target (T.hash160 (laws.pub_of priv')))) [
        | inl hit ↦ let (w, made) = wif_total priv' in (w, rw (at', pair', hit, made))
        | inr miss ↦
            rw (at', pair', miss)
              (find_from_complete cache target commit n (i + 1) d all (omega arith) (omega arith)
                (subst (λ k. get_elem? cache k ≡ some e) (omega arith) at) pair hash)
      ]

  fill_cache_filled :
      (c : Consts) (n : ℕ) (key : K.ExtendedKey) {cache : List (CacheEntry K)}
      → fill_cache K c n key ≡ ok cache
      → (length cache ≡ n) × All (IsPair K T laws) cache
  unfolding fill_cache
  fill_cache_filled c n key h = fill_from-IsPair K T laws c key n 0 h

  module _ (L : AddressLib K) where
    -- Under `PairLaws` and if every key has a WIF: a P2WPKH address of the network is rescued whenever the
    -- cache can be filled and one of its keys, tweaked by the commit point or plain, has the address's
    -- hash; `rescueClosedChannel` returns a key.
    pub rescue_closed_channel_complete :
        (c : Consts) (to_string : L.Address → Text) (num_keys : ℕ) (key : K.ExtendedKey)
        (addr : L.Address) (commit used : Option K.PublicKey) (cache : List (CacheEntry K))
        (target : List ℕ) (j : ℕ) {e : CacheEntry K} {pub_key : K.PublicKey} {priv : K.PrivateKey}
        → L.is_for_net addr ≡ true
        → L.kind addr ≡ witness_pub_key_hash
        → decode_address_hash K L (to_string addr) ≡ ok (target, false)
        → fill_cache K c num_keys key ≡ ok cache
        → get_elem? cache j ≡ some e
        → (used ≡ commit) ⊎ (used ≡ none)
        → candidate K T used e ≡ ok (pub_key, priv)
        → T.hash160 pub_key ≡ target
        → (w : Text) × (rescue_closed_channel K T L c to_string num_keys key addr commit ≡ ok w)
    unfolding rescue_closed_channel addr_in_cache attempt check_kind or_static
    rescue_closed_channel_complete c to_string num_keys key addr commit used cache target j {e} net
          kind dec fill at which pair hash =
        let (len, all) = fill_cache_filled c num_keys key fill in
        let within = get_elem?-lt-length cache j at in
        let (w, hit) =
          find_from_complete cache target used num_keys 0 j all (omega (arith, len))
            (omega (arith, len, within)) (subst (λ k. get_elem? cache k ≡ some e) (omega arith) at)
            pair hash in
        elim which [
          | inl same ↦ (
            w,
            rw (
              net,
              kind,
              fill,
              dec,
              subst (λ p. find_from K T cache target p 0 num_keys ≡ ok w) same hit,
            ),
          )
          | inr static ↦
              elim (find_from_total cache target commit num_keys 0 all (omega (arith, len))) [
                | inl (v, first) ↦ (v, rw (net, kind, fill, dec, first))
                | inr missed ↦ (
                  w,
                  rw (
                    net,
                    kind,
                    fill,
                    dec,
                    missed,
                    subst (λ p. find_from K T cache target p 0 num_keys ≡ ok w) static hit,
                  ),
                )
              ]
        ]
