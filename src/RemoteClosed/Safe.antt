-- ===== src/RemoteClosed/Safe.antt =====
-- `sweepRemoteClosed` on the targets that `findTargetsLnd` finds (cmd/chantools/sweepremoteclosed.go).
use chantools.Prelude.{
  ℕ, ◌+◌, List, [], ◌∷◌, ◌++◌, Bool, true, false, not, ◌||◌, Option, none, some, ok, panic, fail_if,
  ltb, ◌≡◌, ◌≢◌, ◌⊎◌, inl, inr, sym, ap, subst, >>=-eq-ok, >>=-ne-panic, ok-injective, All,
  All-append,
}
use chantools.Prelude.Int.{ℤ}
use chantools.Prelude.Text.{Text}
use chantools.HdKeychain.Derive.{KeyLib}
use chantools.HdKeychain.Address.{witness_pub_key_hash, witness_script_hash, taproot, AddressLib}
use chantools.Explorer.{VoutData}
use chantools.Offer.Files.{is_nil}
use chantools.RemoteClosed.{
  RemoteLib, RemoteError, no_control_block, bad_hash, bad_address, below_dust, remote_try,
  TargetAddr,
}
use chantools.RemoteClosed.Sweep.{
  TxIn, SignDesc, Spend, RemoteState, get_witness_addr_script, sign_desc, add_vouts, add_targets,
  sign_all, sweep_remote_closed, sweep_dust_limit,
}

remote_try-ne-panic : {A : Type 0} (o : Option A) (e : RemoteError) → remote_try o e ≢ panic
remote_try-ne-panic none e p = cc
remote_try-ne-panic (some a) e p = cc

fail_if-ne-panic : (b : Bool) (e : RemoteError) → fail_if b e ≢ panic
fail_if-ne-panic true e p = cc
fail_if-ne-panic false e p = cc

-- A descriptor that is there.
abbrev pub IsThere : {A : Type 0} → Option A → Type 0
IsThere {A} o = (a : A) × (o ≡ some a)

module _ (K : KeyLib) (L : AddressLib K) (R : RemoteLib K L) where
  -- Addresses of which an input can be described.
  abbrev pub Signable : TargetAddr K L R → Type 0
  Signable t =
      (L.kind t.addr ≡ witness_pub_key_hash)
      ⊎ (L.kind t.addr ≡ witness_script_hash)
      ⊎ ((L.kind t.addr ≡ taproot) × IsThere t.script_tree)

  sign_desc-ok :
      (t : TargetAddr K L R) (script : List ℕ) (n : ℕ) (d : Option (SignDesc K))
      → Signable t
      → sign_desc K L R (L.kind t.addr) t script ≡ ok (n, d)
      → IsThere d
  unfolding sign_desc
  sign_desc-ok t script n d (inl k) h =
      (_, ap (λ (p : ℕ × Option (SignDesc K)). p.1) (sym (ok-injective (rw k at h))))
  sign_desc-ok t script n d (inr (inl k)) h =
      (_, ap (λ (p : ℕ × Option (SignDesc K)). p.1) (sym (ok-injective (rw k at h))))
  sign_desc-ok t script n d (inr (inr (k, (tree, e)))) h =
      let (block, _, r) =
        >>=-eq-ok (remote_try (R.control_block tree) no_control_block) _ (rw e at (rw k at h)) in
      (_, ap (λ (p : ℕ × Option (SignDesc K)). p.1) (sym (ok-injective r)))

  sign_desc-ne-panic :
      (t : TargetAddr K L R) (script : List ℕ)
      → Signable t
      → sign_desc K L R (L.kind t.addr) t script ≢ panic
  unfolding sign_desc
  sign_desc-ne-panic t script (inl k) = rw k (λ p. cc)
  sign_desc-ne-panic t script (inr (inl k)) = rw k (λ p. cc)
  sign_desc-ne-panic t script (inr (inr (k, (tree, e)))) = rw k (
      rw e (
        >>=-ne-panic (remote_try (R.control_block tree) no_control_block) _
          (remote_try-ne-panic (R.control_block tree) no_control_block) (λ a q p. cc)))

  get_witness_addr_script-ne-panic : (a : L.Address) → get_witness_addr_script K L R a ≢ panic
  unfolding get_witness_addr_script
  get_witness_addr_script-ne-panic a =
      >>=-ne-panic (fail_if (not (L.is_for_net a)) bad_address) _
        (fail_if-ne-panic (not (L.is_for_net a)) bad_address)
        (λ u q. remote_try-ne-panic (L.pay_to_addr_script a) bad_address)

  add_vouts-IsThere :
      (t : TargetAddr K L R) (vs : List (Text × ℕ × VoutData)) (s : RemoteState K)
      → Signable t
      → All IsThere s.sign_descs
      → (add_vouts K L R t vs s ≢ panic)
        × ((u : RemoteState K) → add_vouts K L R t vs s ≡ ok u → All IsThere u.sign_descs)
  unfolding add_vouts
  add_vouts-IsThere t [] s sig all =
      ((λ p. cc), (λ u h. subst (λ u. All IsThere u.sign_descs) (ok-injective h) all))
  add_vouts-IsThere t ((txid, idx, v) ∷ vs) s sig all = (
    >>=-ne-panic (remote_try (R.new_hash_from_str txid) bad_hash) _
        (remote_try-ne-panic (R.new_hash_from_str txid) bad_hash)
        (λ hash e.
          >>=-ne-panic (get_witness_addr_script K L R t.addr) _
            (get_witness_addr_script-ne-panic t.addr)
            (λ script e'.
              >>=-ne-panic (sign_desc K L R (L.kind t.addr) t script) _
                (sign_desc-ne-panic t script sig)
                (λ d e''. (add_vouts-IsThere t vs _ sig (grown script d.0 d.1 e'')).0))),
    (λ u h.
        let (hash, e, r) = >>=-eq-ok (remote_try (R.new_hash_from_str txid) bad_hash) _ h in
        let (script, e', r') = >>=-eq-ok (get_witness_addr_script K L R t.addr) _ r in
        let ((n, d), e'', r'') = >>=-eq-ok (sign_desc K L R (L.kind t.addr) t script) _ r' in
        (add_vouts-IsThere t vs _ sig (grown script n d e'')).1 u r''),
  )
    where
      grown :
          (script : List ℕ) (n : ℕ) (d : Option (SignDesc K))
          → sign_desc K L R (L.kind t.addr) t script ≡ ok (n, d)
          → All IsThere (s.sign_descs ++ d ∷ [])
      grown script n d e =
          All-append IsThere s.sign_descs (d ∷ []) all (sign_desc-ok t script n d sig e, tt)

  add_targets-IsThere :
      (ts : List (TargetAddr K L R)) (s : RemoteState K)
      → All Signable ts
      → All IsThere s.sign_descs
      → (add_targets K L R ts s ≢ panic)
        × ((u : RemoteState K) → add_targets K L R ts s ≡ ok u → All IsThere u.sign_descs)
  unfolding add_targets
  add_targets-IsThere [] s sig all =
      ((λ p. cc), (λ u h. subst (λ u. All IsThere u.sign_descs) (ok-injective h) all))
  add_targets-IsThere (t ∷ ts) s (sig, sigs) all =
      let (safe, there) = add_vouts-IsThere t t.vouts s sig all in
      (
        >>=-ne-panic (add_vouts K L R t t.vouts s) _ safe
            (λ u e. (add_targets-IsThere ts u sigs (there u e)).0),
        (λ u h.
            let (v, e, r) = >>=-eq-ok (add_vouts K L R t t.vouts s) _ h in
            (add_targets-IsThere ts v sigs (there v e)).1 u r),
      )

  sign_all-ne-panic :
      (witness_for : Spend → SignDesc K → ℕ → Option Text) (i : ℕ) (ds : List (Option (SignDesc K)))
      → All IsThere ds
      → sign_all K L R witness_for i ds ≢ panic
  unfolding sign_all
  sign_all-ne-panic witness_for i [] all = λ p. cc
  sign_all-ne-panic witness_for i (d ∷ ds) ((a, e), all) = rw e (
      >>=-ne-panic (remote_try (witness_for _ _ i) _) _ (remote_try-ne-panic (witness_for _ _ i) _)
        (λ w q.
          >>=-ne-panic (sign_all K L R witness_for (i + 1) ds) _
            (sign_all-ne-panic witness_for (i + 1) ds all) (λ ws q' p. cc)))

  -- On targets whose addresses are P2WPKH, P2WSH or, with a tree, P2TR.
  pub sweep_remote_closed-ne-panic :
      (fee_for : List TxIn → ℕ) (witness_for : List TxIn → ℤ → Spend → SignDesc K → ℕ → Option Text)
      (ts : List (TargetAddr K L R))
      → All Signable ts
      → sweep_remote_closed K L R fee_for witness_for ts ≢ panic
  unfolding sweep_remote_closed
  sweep_remote_closed-ne-panic fee_for witness_for ts sigs =
      let (safe, there) =
        add_targets-IsThere ts (record { tx_in = []; sign_descs = []; total_output_value = 0 }) sigs
          tt in
      >>=-ne-panic
        (add_targets K L R ts (record { tx_in = []; sign_descs = []; total_output_value = 0 })) _
        safe
        (λ s e.
          >>=-ne-panic (fail_if (is_nil ts || ltb s.total_output_value sweep_dust_limit) below_dust)
            _ (fail_if-ne-panic (is_nil ts || ltb s.total_output_value sweep_dust_limit) below_dust)
            (λ u q.
              >>=-ne-panic (sign_all K L R (witness_for s.tx_in _) 0 s.sign_descs) _
                (sign_all-ne-panic (witness_for s.tx_in _) 0 s.sign_descs (there s e))
                (λ ws q' p. cc)))
