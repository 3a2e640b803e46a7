-- ===== src/Offer/Keys/Complete.antt =====
-- When `matchKeys` of zombierecovery_makeoffer.go succeeds.
use chantools.Prelude.{
  ℕ, zero, suc, ◌+◌, List, [], ◌∷◌, true, Option, none, some, Result, ok, get_elem?, ◌≡◌, ◌⊎◌, refl,
  All, Bool-cases, Option-cases, inl, inr, sym, subst,
}
use chantools.Prelude.Text.{Text, text_eq, text_eq_refl}
use chantools.HdKeychain.Derive.{KeyLib}
use chantools.HdKeychain.Address.{AddressLib, witness_script_hash, taproot, parse_address}
use chantools.Offer.Files.{Channel}
use chantools.Offer.Keys.{
  ScriptLib, MatchError, Scripts, Keyed, keyed, match_script, try_theirs, try_ours, match_channel,
  match_keys,
}

some_injective {ℓ} : {A : Type ℓ} {a b : A} → some a ≡ some b → a ≡ b
some_injective h = cc

module _ (K : KeyLib) (match_one : Text → K.PublicKey → K.PublicKey → Result MatchError Scripts)
    (channel : Channel)
    (works : (a b : K.PublicKey) → (s : Scripts) × (match_one channel.address a b ≡ ok s)) where
  abbrev Hits : K.PublicKey → K.PublicKey → Type 0
  Hits a b = (s : Scripts) × (match_one channel.address a b ≡ ok s) × (s.is_match ≡ true)

  try_theirs_complete :
      (idx : ℕ) (a : K.PublicKey) (theirs : List K.PublicKey) (i : ℕ) {b : K.PublicKey}
      → get_elem? theirs i ≡ some b
      → Hits a b
      → (k : Keyed K) × (try_theirs K match_one channel idx a theirs ≡ ok (some k))
  unfolding try_theirs
  try_theirs_complete idx a [] i at hit = cc
  try_theirs_complete idx a (t ∷ theirs) zero {b} at hit =
      let (s, e, first) = subst (Hits a) (sym (some_injective at)) hit in
      (keyed K match_one channel idx a t s, rw (e, first))
  try_theirs_complete idx a (t ∷ theirs) (suc i) at hit =
      let (s, e) = works a t in
      elim (Bool-cases s.is_match) [
        | inl first ↦ (keyed K match_one channel idx a t s, rw (e, first))
        | inr other ↦ rw (e, other) (try_theirs_complete idx a theirs i at hit)
      ]

  try_theirs_total :
      (idx : ℕ) (a : K.PublicKey) (theirs : List K.PublicKey)
      → (o : Option (Keyed K)) × (try_theirs K match_one channel idx a theirs ≡ ok o)
  unfolding try_theirs
  try_theirs_total idx a [] = (none, refl)
  try_theirs_total idx a (t ∷ theirs) =
      let (s, e) = works a t in
      elim (Bool-cases s.is_match) [
        | inl first ↦ (some (keyed K match_one channel idx a t s), rw (e, first))
        | inr other ↦ rw (e, other) (try_theirs_total idx a theirs)
      ]

  try_ours_complete :
      (idx : ℕ) (ours theirs : List K.PublicKey) (j i : ℕ) {a b : K.PublicKey}
      → get_elem? ours j ≡ some a
      → get_elem? theirs i ≡ some b
      → Hits a b
      → (k : Keyed K) × (try_ours K match_one channel idx ours theirs ≡ ok (some k))
  unfolding try_ours
  try_ours_complete idx [] theirs j i at1 at2 hit = cc
  try_ours_complete idx (o ∷ ours) theirs zero i {a} {b} at1 at2 hit =
      let ours_hits = subst (λ x. Hits x b) (sym (some_injective at1)) hit in
      let (k, e) = try_theirs_complete idx o theirs i at2 ours_hits in (k, rw e)
  try_ours_complete idx (o ∷ ours) theirs (suc j) i at1 at2 hit =
      let (found, e) = try_theirs_total idx o theirs in
      elim (Option-cases found) [
        | inl nothing ↦ rw (e, nothing) (try_ours_complete (idx + 1) ours theirs j i at1 at2 hit)
        | inr (k, here) ↦ (k, rw (e, here))
      ]

-- What the code relies on of lnd's `input`: the scripts of two public keys can be made.
pub record ScriptLaws (K : KeyLib) (S : ScriptLib K) : Type 0 where
  pub multi_sig :
      (a b : K.PublicKey)
      → (w h : Text) × (S.gen_multi_sig_script a b ≡ some w) × (S.witness_script_hash_of w ≡ some h)
  pub taproot_funding :
      (a b : K.PublicKey) → (s : Text) × (S.gen_taproot_funding_script a b ≡ some s)

module _ (K : KeyLib) (L : AddressLib K) (S : ScriptLib K) where
  -- The address of a channel that two keys fund: it pays to the hash of their multisig script, or to their
  -- taproot funding script.
  pub record FundedBy (channel : Channel) (a b : K.PublicKey) : Type 0 where
    pub addr : L.Address
    pub script : Text
    pub parsed : parse_address K L channel.address ≡ ok addr
    pub paid : L.pay_to_addr_script addr ≡ some script
    pub made :
        ((L.kind addr ≡ witness_script_hash)
          × (w : Text) × (S.gen_multi_sig_script a b ≡ some w)
          × (S.witness_script_hash_of w ≡ some script))
        ⊎ ((L.kind addr ≡ taproot) × (S.gen_taproot_funding_script a b ≡ some script))

  -- A pair of keys of the two lists that fund the channel.
  abbrev pub HasPair : List K.PublicKey → List K.PublicKey → Channel → Type 0
  HasPair ours theirs channel =
      (j i : ℕ) × (a b : K.PublicKey) × (get_elem? ours j ≡ some a)
      × (get_elem? theirs i ≡ some b)
      × FundedBy channel a b

  FundedBy-matches :
      (channel : Channel) (a b : K.PublicKey)
      → FundedBy channel a b
      → (s : Scripts) × (match_script K L S channel.address a b ≡ ok s) × (s.is_match ≡ true)
  unfolding match_script
  FundedBy-matches channel a b f = elim f.made [
    | inl (kind, w, multi_sig, hash) ↦ (
      record {
        is_match = text_eq f.script f.script;
        witness_script = some w;
        pk_script = f.script;
      },
      rw (f.parsed, f.paid, kind, multi_sig, hash) refl,
      text_eq_refl f.script,
    )
    | inr (kind, funding) ↦ (
      record { is_match = text_eq f.script f.script; witness_script = none; pk_script = f.script },
      rw (f.parsed, f.paid, kind, funding) refl,
      text_eq_refl f.script,
    )
  ]

  FundedBy-works :
      (laws : ScriptLaws K S) (channel : Channel) (a b c d : K.PublicKey)
      → FundedBy channel a b
      → (s : Scripts) × (match_script K L S channel.address c d ≡ ok s)
  unfolding match_script
  FundedBy-works laws channel a b c d f = elim f.made [
    | inl (kind, _, _, _) ↦
        let (w, h, multi_sig, hash) = laws.multi_sig c d in
        (
          record { is_match = text_eq f.script h; witness_script = some w; pk_script = h },
          rw (f.parsed, f.paid, kind, multi_sig, hash) refl,
        )
    | inr (kind, _) ↦
        let (s, funding) = laws.taproot_funding c d in
        (
          record { is_match = text_eq f.script s; witness_script = none; pk_script = s },
          rw (f.parsed, f.paid, kind, funding) refl,
        )
  ]

  -- Under `ScriptLaws`: when every channel has an address that is made of one of our keys and one of the peer's,
  -- `matchKeys` with `matchScript` succeeds, wherever in the lists the keys stand.
  pub match_keys_complete :
      ScriptLaws K S
      → (channels : List Channel) (ours theirs : List K.PublicKey)
      → All (HasPair ours theirs) channels
      → (ks : List (Keyed K)) × (match_keys K (match_script K L S) channels ours theirs ≡ ok ks)
  unfolding match_keys match_channel
  match_keys_complete laws [] ours theirs h = ([], refl)
  match_keys_complete laws (c ∷ cs) ours theirs ((j, i, a, b, at1, at2, funded), rest) =
      let (k, e) =
        try_ours_complete K (match_script K L S) c (λ x y. FundedBy-works laws c a b x y funded) 0
          ours theirs j i at1 at2 (FundedBy-matches c a b funded) in
      let (ks, es) = match_keys_complete laws cs ours theirs rest in (k ∷ ks, rw (e, es))
