-- ===== src/RemoteClosed/Tweaked.antt =====
-- The targets that `findTargetsLnd` of cmd/chantools/sweepremoteclosed.go finds for ancient channels, and all
-- of its targets.
use chantools.Prelude.{
  ℕ, zero, suc, ◌+◌, ◌^◌, ◌≤◌, ◌<◌, List, [], ◌∷◌, Bool, Option, some, Result, ok, err, panic, wrap,
  or_panic, get_elem?, ◌≡◌, ◌⊎◌, inl, inr, sym, ◌∙◌, ap, subst, arith, >>=-eq-ok, ok-injective, All,
  All-append, Bool-cases,
}
use chantools.Prelude.Text.{Text, text_eq, text_eq_sound}
use chantools.HdKeychain.Derive.{KeyLib}
use chantools.HdKeychain.Ring.{Consts, KeyDescriptor}
use chantools.HdKeychain.Address.{AddressLib, parse_address, decode_address_hash}
use chantools.Explorer.{Api, unspent}
use chantools.Explorer.Unspent.{IsUnspent, unspent-IsUnspent}
use chantools.Rescue.{TweakLib, addr_not_found, CacheEntry, fill_cache, key_in_cache}
use chantools.Rescue.Key.{PairLaws, IsPair, fill_from-IsPair, All-get_elem?, or_panic-eq-ok}
use chantools.RemoteClosed.{
  RemoteLib, RemoteError, api_failed, key_failed, rescue_failed, address_failed, no_channels,
  remote_try, TargetAddr, targets_from,
}
use chantools.RemoteClosed.Ancient.{
  AncientChannel, main_net, commit_point_of, find_ancient_channels, ancient_target, ancient_targets,
  check_ancient_channel_points, tolerate, find_targets_lnd,
}
use chantools.RemoteClosed.Owned.{wrap-eq-ok, OwnedTarget, targets_from-OwnedTarget}

module _ (K : KeyLib) (T : TweakLib K) (laws : PairLaws K T) where
  -- A descriptor and a tweak that together give the private key of a hash.
  pub record Opened (hash : List ℕ) (desc : KeyDescriptor K) (tweak : List ℕ) : Type 0 where
    pub priv : K.PrivateKey
    pub described : desc.pub_key ≡ some (laws.pub_of priv)
    pub hashed : T.hash160 (laws.pub_of (T.tweak_priv_key priv tweak)) ≡ hash

  key_in_cache-Opened :
      (cache : List (CacheEntry K)) (hash : List ℕ) (commit : K.PublicKey) (n i : ℕ)
      (desc : KeyDescriptor K) (tweak : List ℕ)
      → All (IsPair K T laws) cache
      → key_in_cache K T cache hash commit i n ≡ ok (desc, tweak)
      → Opened hash desc tweak
  unfolding key_in_cache
  key_in_cache-Opened cache hash commit zero i desc tweak all h = cc
  key_in_cache-Opened cache hash commit (suc n) i desc tweak all h =
      let (e, e1, r1) = >>=-eq-ok (or_panic (get_elem? cache i)) _ h in
      let pair =
        All-get_elem? K T laws (IsPair K T laws) cache i all
          (or_panic-eq-ok K T laws (get_elem? cache i) e1) in
      let r2 = rw pair.paired at r1 in
      elim (Bool-cases
        (text_eq hash (T.hash160 (T.tweak_pub_key (laws.pub_of e.priv_key) commit)))) [
          | inr miss ↦
              key_in_cache-Opened cache hash commit n (i + 1) desc tweak all (rw miss at r2)
          | inl hit ↦
              let same = ok-injective (rw hit at r2) in
              subst (λ (p : KeyDescriptor K × List ℕ). Opened hash p.0 p.1) same
                (record {
                  priv = e.priv_key;
                  described = pair.paired;
                  hashed =
                      ap T.hash160 (sym (laws.tweaked e.priv_key commit))
                      ∙ sym (
                          text_eq_sound hash
                            (T.hash160 (T.tweak_pub_key (laws.pub_of e.priv_key) commit)) hit);
                })
        ]

  module _ (L : AddressLib K) (R : RemoteLib K L) (api : Api) where
    -- A target of an ancient channel.
    pub record TweakedTarget (t : TargetAddr K L R) : Type 0 where
      pub text : Text
      pub hash : List ℕ
      pub is_script : Bool
      pub decoded : decode_address_hash K (main_net K L R T) text ≡ ok (hash, is_script)
      pub parsed : parse_address K (main_net K L R T) text ≡ ok t.addr
      pub opened : Opened hash t.key_desc t.tweak
      pub unspent_outs : All (IsUnspent api (R.encode_address t.addr)) t.vouts

    ancient_target-TweakedTarget :
        (cache : List (CacheEntry K)) (n : ℕ) (channel : AncientChannel) (t : TargetAddr K L R)
        → All (IsPair K T laws) cache
        → ancient_target K L R T api cache n channel ≡ ok t
        → TweakedTarget t
    unfolding ancient_target
    ancient_target-TweakedTarget cache n channel t all h =
        let (commit, e1, r1) = >>=-eq-ok (commit_point_of K L R T channel) _ h in
        let ((hash, is_script), e2, r2) =
          >>=-eq-ok (wrap address_failed (decode_address_hash K (main_net K L R T) channel.addr)) _
            r1 in
        let (addr, e3, r3) =
          >>=-eq-ok (wrap address_failed (parse_address K (main_net K L R T) channel.addr)) _ r2 in
        let (outs, e4, r4) =
          >>=-eq-ok (wrap api_failed (unspent api (R.encode_address addr))) _ r3 in
        let ((desc, tweak), e5, r5) =
          >>=-eq-ok (wrap rescue_failed (key_in_cache K T cache hash commit 0 n)) _ r4 in
        subst TweakedTarget (ok-injective r5) (record {
          text = channel.addr;
          hash = hash;
          is_script = is_script;
          decoded =
              wrap-eq-ok address_failed (decode_address_hash K (main_net K L R T) channel.addr) e2;
          parsed = wrap-eq-ok address_failed (parse_address K (main_net K L R T) channel.addr) e3;
          opened =
              key_in_cache-Opened cache hash commit n 0 desc tweak all
                (wrap-eq-ok rescue_failed (key_in_cache K T cache hash commit 0 n) e5);
          unspent_outs =
              unspent-IsUnspent api (R.encode_address addr)
                (wrap-eq-ok api_failed (unspent api (R.encode_address addr)) e4);
        })

    ancient_targets-TweakedTarget :
        (cache : List (CacheEntry K)) (n : ℕ) (channels : List AncientChannel)
        (ts : List (TargetAddr K L R))
        → All (IsPair K T laws) cache
        → ancient_targets K L R T api cache n channels ≡ ok ts
        → All TweakedTarget ts
    unfolding ancient_targets
    ancient_targets-TweakedTarget cache n [] ts all h =
        subst (All TweakedTarget) (ok-injective h) tt
    ancient_targets-TweakedTarget cache n (channel ∷ channels) ts all h =
        let (t, e, r) = >>=-eq-ok (ancient_target K L R T api cache n channel) _ h in
        let (rest, e', r') = >>=-eq-ok (ancient_targets K L R T api cache n channels) _ r in
        subst (All TweakedTarget) (ok-injective r') (
          ancient_target-TweakedTarget cache n channel t all e,
          ancient_targets-TweakedTarget cache n channels rest all e',
        )

    check_ancient_channel_points-TweakedTarget :
        (c : Consts) (channels : Option (List AncientChannel)) (n : ℕ) (key : K.ExtendedKey)
        (ts : List (TargetAddr K L R))
        → check_ancient_channel_points K L R T api c channels n key ≡ ok ts
        → All TweakedTarget ts
    unfolding check_ancient_channel_points fill_cache
    check_ancient_channel_points-TweakedTarget c channels n key ts h =
        let (all, e1, r1) = >>=-eq-ok (remote_try channels no_channels) _ h in
        let (cache, e2, r2) = >>=-eq-ok (wrap key_failed (fill_cache K c n key)) _ r1 in
        let (found, e3, r3) = >>=-eq-ok (find_ancient_channels K L R T cache n all) _ r2 in
        ancient_targets-TweakedTarget cache n found ts
          (fill_from-IsPair K T laws c key n 0 (wrap-eq-ok key_failed (fill_cache K c n key) e2)).1
          r3

    tolerate-TweakedTarget :
        (r : Result RemoteError (List (TargetAddr K L R))) (ts : List (TargetAddr K L R))
        → ((us : List (TargetAddr K L R)) → r ≡ ok us → All TweakedTarget us)
        → tolerate K L R T r ≡ ok ts
        → All TweakedTarget ts
    unfolding tolerate
    tolerate-TweakedTarget (ok us) ts each h = each ts h
    tolerate-TweakedTarget panic ts each h = each ts h
    tolerate-TweakedTarget (err (rescue_failed addr_not_found)) ts each h =
        subst (All TweakedTarget) (ok-injective h) tt
    tolerate-TweakedTarget (err e) ts each h = cc

All-map :
    {A : Type 0} (P Q : A → Type 0) (xs : List A) → ((x : A) → P x → Q x) → All P xs → All Q xs
All-map P Q [] f h = tt
All-map P Q (x ∷ xs) f (p, h) = (f x p, All-map P Q xs f h)

-- With lnd's purpose 1017, a coin type and a payment base family below 2^31 and a window of at most 2^31
-- keys, under `PairLaws`: each target that `findTargetsLnd` returns has outputs of which the explorer says
-- that they pay its address and are not spent, and it is one of two kinds. Either its address is one of
-- the three of a public key of the window, with the script or the tree of that address and no tweak, and
-- the signer fetches for its descriptor the private key that this public key was made of. Or it is that of
-- an ancient channel, and its descriptor and tweak belong to a private key whose public key has the hash
-- that is in the address.
pub find_targets_lnd-OwnedTarget :
    (K : KeyLib) (T : TweakLib K) (laws : PairLaws K T) (L : AddressLib K) (R : RemoteLib K L)
    (api : Api) (known : List Text) (c : Consts) (key : K.ExtendedKey)
    (mainnet : c.bip0043_purpose ≡ 1017) (coin : c.hd_coin_type < 2 ^ 31)
    (family : c.family_payment_base < 2 ^ 31) (channels : Option (List AncientChannel)) (window : ℕ)
    (ts : List (TargetAddr K L R))
    → window ≤ 2 ^ 31
    → find_targets_lnd K L R T api known c channels key window ≡ ok ts
    → All
        (λ t.
          OwnedTarget K L R api known c key mainnet coin family window t
          ⊎ TweakedTarget K T laws L R api t)
        ts
unfolding find_targets_lnd
find_targets_lnd-OwnedTarget K T laws L R api known c key mainnet coin family channels window ts
      small h =
    let (owned, e1, r1) = >>=-eq-ok (targets_from K L R api known c key 0 window) _ h in
    let (old, e2, r2) =
      >>=-eq-ok (tolerate K L R T (check_ancient_channel_points K L R T api c channels window key))
        _ r1 in
    let first =
      targets_from-OwnedTarget K L R api known c key mainnet coin family window 0 window owned
        (omega arith) small e1 in
    let second =
      tolerate-TweakedTarget K T laws L R api
        (check_ancient_channel_points K L R T api c channels window key) old
        (check_ancient_channel_points-TweakedTarget K T laws L R api c channels window key) e2 in
    subst (All Found) (ok-injective r2) (
      All-append Found owned old
        (All-map (OwnedTarget K L R api known c key mainnet coin family window) Found owned
          (λ t p. inl p) first)
        (All-map (TweakedTarget K T laws L R api) Found old (λ t p. inr p) second))
  where
    Found : TargetAddr K L R → Type 0
    Found t =
        OwnedTarget K L R api known c key mainnet coin family window t
        ⊎ TweakedTarget K T laws L R api t
