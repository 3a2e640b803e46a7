-- ===== src/RemoteClosed/Run.antt =====
-- The whole of cmd/chantools/sweepremoteclosed.go for a root key of lnd: the targets that are found, and the
-- sweep of them.
use chantools.Prelude.{
  ℕ, ◌^◌, ◌≤◌, ◌<◌, List, [], ◌∷◌, Bool, Option, some, ok, panic, ◌≡◌, ◌≢◌, ◌⊎◌, inl, inr, refl,
  subst, >>=-eq-ok, ok-injective, All,
}
use chantools.Prelude.Int.{ℤ}
use chantools.Prelude.Text.{Text}
use chantools.HdKeychain.Derive.{KeyLib}
use chantools.HdKeychain.Ring.{Consts}
use chantools.HdKeychain.Address.{
  AddressKind, witness_pub_key_hash, witness_script_hash, taproot, other_kind, AddressLib,
  parse_address, decode_address_hash, hash_of,
}
use chantools.Explorer.{Api}
use chantools.Rescue.{TweakLib}
use chantools.Rescue.Key.{PairLaws}
use chantools.RemoteClosed.{
  RemoteLib, script_failed, bad_address, remote_try, TargetAddr, p2_anchor_static_remote,
  p2_taproot_static_remote,
}
use chantools.RemoteClosed.Ancient.{AncientChannel, main_net, find_targets_lnd}
use chantools.RemoteClosed.Sweep.{TxIn, SignDesc, Spend, sweep_remote_closed}
use chantools.RemoteClosed.Owned.{Pays, plain, anchor, tap, OwnedTarget, remote_try-eq-ok}
use chantools.RemoteClosed.Tweaked.{TweakedTarget, find_targets_lnd-OwnedTarget}
use chantools.RemoteClosed.Safe.{Signable, IsThere, sweep_remote_closed-ne-panic}

-- The types of the addresses that btcutil makes.
pub record KindLaws (K : KeyLib) (L : AddressLib K) (R : RemoteLib K L) : Type 0 where
  pub kind-p2wkh :
      (key : K.PublicKey) (a : L.Address)
      → L.p2wkh_addr key ≡ some a
      → L.kind a ≡ witness_pub_key_hash
  pub kind-script_hash :
      (script : Text) (a : L.Address)
      → R.script_hash_address script ≡ some a
      → L.kind a ≡ witness_script_hash
  pub kind-taproot :
      (tree : R.ScriptTree) (a : L.Address) → R.taproot_address tree ≡ some a → L.kind a ≡ taproot

module _ (K : KeyLib) (L : AddressLib K) (R : RemoteLib K L) (laws : KindLaws K L R) where
  kind-anchor :
      (key : K.PublicKey) (a : L.Address) (script : Text)
      → p2_anchor_static_remote K L R key ≡ ok (a, script)
      → L.kind a ≡ witness_script_hash
  unfolding p2_anchor_static_remote
  kind-anchor key a script h =
      let (s, e, r) =
        >>=-eq-ok (remote_try (R.commit_script_to_remote_confirmed key) script_failed) _ h in
      let (b, e', r') = >>=-eq-ok (remote_try (R.script_hash_address s) bad_address) _ r in
      subst (λ (p : L.Address × Text). L.kind p.0 ≡ witness_script_hash) (ok-injective r')
        (laws.kind-script_hash s b (remote_try-eq-ok (R.script_hash_address s) bad_address e'))

  kind-tap :
      (key : K.PublicKey) (a : L.Address) (tree : R.ScriptTree)
      → p2_taproot_static_remote K L R key ≡ ok (a, tree)
      → L.kind a ≡ taproot
  unfolding p2_taproot_static_remote
  kind-tap key a tree h =
      let (t, e, r) =
        >>=-eq-ok (remote_try (R.new_remote_commit_script_tree key) script_failed) _ h in
      let (b, e', r') = >>=-eq-ok (remote_try (R.taproot_address t) bad_address) _ r in
      subst (λ (p : L.Address × R.ScriptTree). L.kind p.0 ≡ taproot) (ok-injective r')
        (laws.kind-taproot t b (remote_try-eq-ok (R.taproot_address t) bad_address e'))

  Pays-Signable :
      (key : K.PublicKey) (a : L.Address) (script : Text) (tree : Option R.ScriptTree)
      → Pays K L R key a script tree
      → (L.kind a ≡ witness_pub_key_hash)
        ⊎ (L.kind a ≡ witness_script_hash)
        ⊎ ((L.kind a ≡ taproot) × IsThere tree)
  Pays-Signable key a script tree (plain h) = inl (laws.kind-p2wkh key a h)
  Pays-Signable key a script tree (anchor h) = inr (inl (kind-anchor key a script h))
  Pays-Signable key a script tree (tap {tree = t} h) = inr (inr (kind-tap key a t h, (t, refl)))

  module _ (T : TweakLib K) where
    hash_of-kind :
        (kind : AddressKind) (a : L.Address) (hash : List ℕ) (b : Bool)
        → hash_of K (main_net K L R T) kind a ≡ ok (hash, b)
        → (kind ≡ witness_pub_key_hash) ⊎ (kind ≡ witness_script_hash)
    unfolding hash_of
    hash_of-kind witness_pub_key_hash a hash b h = inl refl
    hash_of-kind witness_script_hash a hash b h = inr refl
    hash_of-kind taproot a hash b h = cc
    hash_of-kind other_kind a hash b h = cc

    decoded-kind :
        (text : Text) (a : L.Address) (hash : List ℕ) (b : Bool)
        → decode_address_hash K (main_net K L R T) text ≡ ok (hash, b)
        → parse_address K (main_net K L R T) text ≡ ok a
        → (L.kind a ≡ witness_pub_key_hash) ⊎ (L.kind a ≡ witness_script_hash)
    unfolding decode_address_hash
    decoded-kind text a hash b h parsed = hash_of-kind (L.kind a) a hash b (rw parsed at h)

    TweakedTarget-Signable :
        (laws' : PairLaws K T) (api : Api) (t : TargetAddr K L R)
        → TweakedTarget K T laws' L R api t
        → Signable K L R t
    TweakedTarget-Signable laws' api t p =
        elim (decoded-kind p.text t.addr p.hash p.is_script p.decoded p.parsed) [
          | inl k ↦ inl k
          | inr k ↦ inr (inl k)
        ]

    -- The targets of a search, in the form that the sweep needs.
    All-Signable :
        (laws' : PairLaws K T) (api : Api) (known : List Text) (c : Consts) (key : K.ExtendedKey)
        (mainnet : c.bip0043_purpose ≡ 1017) (coin : c.hd_coin_type < 2 ^ 31)
        (family : c.family_payment_base < 2 ^ 31) (window : ℕ) (ts : List (TargetAddr K L R))
        → All
            (λ t.
              OwnedTarget K L R api known c key mainnet coin family window t
              ⊎ TweakedTarget K T laws' L R api t)
            ts
        → All (Signable K L R) ts
    All-Signable laws' api known c key mainnet coin family window [] all = tt
    All-Signable laws' api known c key mainnet coin family window (t ∷ ts) (inl p, all) = (
      Pays-Signable (R.pub_key_of p.priv_key) t.addr t.script t.script_tree p.target_found.pays,
      All-Signable laws' api known c key mainnet coin family window ts all,
    )
    All-Signable laws' api known c key mainnet coin family window (t ∷ ts) (inr p, all) = (
      TweakedTarget-Signable laws' api t p,
      All-Signable laws' api known c key mainnet coin family window ts all,
    )

-- With lnd's purpose 1017, a coin type and a payment base family below 2^31 and a window of at most 2^31
-- keys, under `PairLaws` and `KindLaws`: the sweep of what `findTargetsLnd` returns never panics, whatever
-- the fee and however witnesses are made.
pub find_targets_lnd-sweep :
    (K : KeyLib) (L : AddressLib K) (R : RemoteLib K L)
    → KindLaws K L R
    → (T : TweakLib K) (laws : PairLaws K T) (api : Api) (known : List Text) (c : Consts)
      (key : K.ExtendedKey)
    → c.bip0043_purpose ≡ 1017
    → c.hd_coin_type < 2 ^ 31
    → c.family_payment_base < 2 ^ 31
    → (channels : Option (List AncientChannel)) (window : ℕ) (ts : List (TargetAddr K L R))
    → window ≤ 2 ^ 31
    → find_targets_lnd K L R T api known c channels key window ≡ ok ts
    → (fee_for : List TxIn → ℕ) (witness_for : List TxIn → ℤ → Spend → SignDesc K → ℕ → Option Text)
    → sweep_remote_closed K L R fee_for witness_for ts ≢ panic
find_targets_lnd-sweep K L R kinds T laws api known c key mainnet coin family channels window ts
      small h fee_for witness_for =
    sweep_remote_closed-ne-panic K L R fee_for witness_for ts (
      All-Signable K L R kinds T laws api known c key mainnet coin family window ts (
        find_targets_lnd-OwnedTarget K T laws L R api known c key mainnet coin family channels
          window ts small h))
