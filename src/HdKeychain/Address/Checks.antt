-- ===== src/HdKeychain/Address/Checks.antt =====
-- The address checks of lnd/hdkeychain.go and what follows them.
use chantools.Prelude.{
  ℕ, List, [], ◌∷◌, Bool, true, false, ◌&&◌, some, Result, ok, err, panic, ◌>>=◌, ◌>>◌, fail_if,
  not, ◌≡◌, ◌≢◌, ◌↔◌, ◌⊎◌, inl, inr, refl, arith, Option-cases, Bool-cases,
}
use chantools.Prelude.Text.{Text, text_eq}
use chantools.HdKeychain.Derive.{KeyLib}
use chantools.HdKeychain.Address.{
  AddressKind, AddrType, AddressLib, AddressError, or_else, address_derive_from_wallet,
  match_addr_type, parse_address, decode_address_hash, get_p2wpkh_script, get_p2wsh_script,
  check_address, estimate, check_and_estimate_address, script_failed, not_p2wkh, not_p2wsh,
  witness_pub_key_hash, witness_script_hash, taproot, other_kind,
}

module _ (K : KeyLib) (L : AddressLib K) where
  -- An address of the network whose type is among the allowed ones.
  abbrev pub Accepts : Text → List AddrType → Type 0
  Accepts addr allowed =
      (a : L.Address) × (L.decode_address addr ≡ some a)
      × (L.is_for_net a ≡ true)
      × (match_addr_type (L.kind a) allowed ≡ true)

  check_address_accepts :
      (addr : Text) (allow_derive : Bool) (allowed : List AddrType)
      → check_address K L addr allow_derive allowed ≡ ok tt
      → (addr ≢ [])
        × (((allow_derive ≡ true) × (text_eq addr address_derive_from_wallet ≡ true))
            ⊎ Accepts addr allowed)
  unfolding check_address parse_address
  check_address_accepts [] allow_derive allowed h = cc
  check_address_accepts (c ∷ s) allow_derive allowed h =
      elim (Option-cases (L.decode_address (c ∷ s))) [
        | inl e ↦ ((λ q. cc), inl (ground arith, ground arith))
        | inr (a, e) ↦ (
          (λ q. cc),
          elim (Bool-cases (allow_derive && text_eq (c ∷ s) address_derive_from_wallet)) [
            | inl d ↦ inl (ground arith, ground arith)
            | inr d ↦ inr (a, e, ground arith, ground arith)
          ],
        )
      ]

  check_address_refuses :
      (addr : Text) (allow_derive : Bool) (allowed : List AddrType)
      → (addr ≢ [])
      → ((allow_derive ≡ true) × (text_eq addr address_derive_from_wallet ≡ true))
        ⊎ Accepts addr allowed
      → check_address K L addr allow_derive allowed ≡ ok tt
  unfolding check_address parse_address
  check_address_refuses [] allow_derive allowed ne h = absurd (ne refl)
  check_address_refuses (c ∷ s) allow_derive allowed ne (inl d) = ground arith
  check_address_refuses (c ∷ s) allow_derive allowed ne (inr (a, e, net, kind)) = ground arith

  -- `CheckAddress` accepts a text exactly if it is not empty and is the word for an address of the
  -- wallet, where that is allowed, or an address of the network of an allowed type.
  check_address_iff :
      (addr : Text) (allow_derive : Bool) (allowed : List AddrType)
      → (check_address K L addr allow_derive allowed ≡ ok tt) ↔ (
          (addr ≢ [])
          × (((allow_derive ≡ true) × (text_eq addr address_derive_from_wallet ≡ true))
              ⊎ Accepts addr allowed))
  check_address_iff addr allow_derive allowed = (
    check_address_accepts addr allow_derive allowed,
    λ p. check_address_refuses addr allow_derive allowed p.0 p.1,
  )

  -- What the estimator counts for an address of a kind that can be allowed.
  abbrev pub counted : AddressKind → L.Estimator → L.Estimator
  counted witness_pub_key_hash e = L.add_p2wkh_output e
  counted witness_script_hash e = L.add_p2wsh_output e
  counted taproot e = L.add_p2tr_output e
  counted other_kind e = e

  estimate-of_match :
      (k : AddressKind) (allowed : List AddrType) (e : L.Estimator)
      → match_addr_type k allowed ≡ true
      → estimate K L k e ≡ ok (counted k e)
  unfolding estimate match_addr_type
  estimate-of_match witness_pub_key_hash allowed e h = refl
  estimate-of_match witness_script_hash allowed e h = refl
  estimate-of_match taproot allowed e h = refl
  estimate-of_match other_kind allowed e h = cc

  -- If every address has an output script, one that passed `CheckAddress` with no derivation is
  -- estimated for its own type, and its script is returned.
  check_and_estimate_address-checked :
      (addr : Text) (allowed : List AddrType) (e : L.Estimator)
      → check_address K L addr false allowed ≡ ok tt
      → ((a : L.Address) → (s : List ℕ) × (L.pay_to_addr_script a ≡ some s))
      → (a : L.Address) × (s : List ℕ) × (L.decode_address addr ≡ some a)
        × (check_and_estimate_address K L addr (some e) ≡ ok (s, some (counted (L.kind a) e)))
  unfolding check_and_estimate_address parse_address
  check_and_estimate_address-checked addr allowed e h scripts =
      elim (check_address_accepts addr false allowed h).1 [
        | inl (d, _) ↦ cc
        | inr (a, dec, net, kind) ↦
            let (s, script) = scripts a in
            (
              a,
              s,
              dec,
              rw (dec, net) (rw (estimate-of_match (L.kind a) allowed e kind) (rw script)),
            )
      ]

  -- No address has both a P2WPKH and a P2WSH script: where one is returned the other is refused.
  get_p2wpkh_script-get_p2wsh_script :
      (addr : Text) {s : List ℕ}
      → get_p2wpkh_script K L addr ≡ ok s
      → get_p2wsh_script K L addr ≡ err not_p2wsh
  unfolding get_p2wpkh_script get_p2wsh_script
  get_p2wpkh_script-get_p2wsh_script addr h = go (decode_address_hash K L addr) h
    where
      go :
          (r : Result AddressError (List ℕ × Bool)) {s : List ℕ}
          → (r >>= λ p. fail_if p.1 not_p2wkh >> or_else (L.witness_v0_script p.0) script_failed)
            ≡ ok s
          → (r >>= λ p.
              fail_if (not p.1) not_p2wsh >> or_else (L.witness_v0_script p.0) script_failed)
            ≡ err not_p2wsh
      go (ok (hash, true)) h = cc
      go (ok (hash, false)) h = refl
      go (err e) h = cc
      go panic h = cc
