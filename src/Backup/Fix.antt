-- ===== src/Backup/Fix.antt =====
-- What `fixOldChannelBackup` of cmd/chantools/fixoldbackup.go makes of a backup.
use chantools.Prelude.{
  ℕ, ◌<◌, List, [], ◌∷◌, true, Option, none, some, Result, ok, err, panic, ◌==◌, ◌≡◌, ◌⊎◌, refl,
  sym, ◌∙◌, subst, ap, >>=-eq-ok, ok-injective, Bool-cases, inl, inr, All,
}
use chantools.Prelude.Text.{Text}
use chantools.HdKeychain.Derive.{KeyLib, KeyError, no_public_key, cannot_derive_priv_key}
use chantools.HdKeychain.Derive.Depth.{DepthLaws}
use chantools.HdKeychain.Ring.{KeyLocator, KeyDescriptor, HdKeyRing, check_descriptor, derive_key}
use chantools.HdKeychain.Ring.Check.{check_descriptor_complete}
use chantools.Backup.{
  PackLaw, taken, Single, BackupLib, BackupError, backup_try, multi_sig_hash, fix_single,
  fix_checked, fix_singles, written, fix_old_channel_backup,
}

module _ (K : KeyLib) (B : BackupLib K) (ring : HdKeyRing K) where
  -- A backup of which the check leaves the root as it is.
  abbrev Settled : Single K B.Other → Type 0
  Settled single =
      (check_descriptor K ring single.sha_chain_root_desc ≡ ok tt)
      ⊎ (check_descriptor K ring single.sha_chain_root_desc ≡ err no_public_key)

  fix_checked-Settled :
      (single : Single K B.Other) (n : ℕ)
      → Settled single
      → fix_checked K B ring single n (check_descriptor K ring single.sha_chain_root_desc)
        ≡ ok (single, n)
  unfolding fix_checked
  fix_checked-Settled single n (inl h) = rw h
  fix_checked-Settled single n (inr h) = rw h

  fix_singles-Settled :
      (singles : List (Single K B.Other)) (n : ℕ)
      → All Settled singles
      → fix_singles K B ring singles n ≡ ok (singles, n)
  unfolding fix_singles
  fix_singles-Settled [] n h = refl
  fix_singles-Settled (s ∷ ss) n (h, hs) =
      rw (fix_checked-Settled s n h) (rw (fix_singles-Settled ss n hs))

  -- What a run makes of a list of backups, with the descriptor that stands for a root that cannot be derived.
  pub data Fixed (base : KeyDescriptor K)
      : List (Single K B.Other) → List (Single K B.Other) → Type 0 where
    all_done : Fixed base [] []
    kept :
        {s : Single K B.Other} {ss rest : List (Single K B.Other)}
        → Settled s
        → Fixed base ss rest
        → Fixed base (s ∷ ss) (s ∷ rest)
    replaced :
        {s : Single K B.Other} {ss rest : List (Single K B.Other)}
        → check_descriptor K ring s.sha_chain_root_desc ≡ err cannot_derive_priv_key
        → Fixed base ss rest
        → Fixed base (s ∷ ss) (record s { sha_chain_root_desc = base } ∷ rest)

  abbrev root_locator : KeyLocator
  root_locator = record { family = ring.consts.family_revocation_root; index = 0 }

  module _ (base : KeyDescriptor K) (derived : derive_key K ring root_locator ≡ ok base) where
    fix_single-ok :
        (single fixed : Single K B.Other) (n m : ℕ)
        → fix_single K B ring single n ≡ ok (fixed, m)
        → fixed ≡ record single { sha_chain_root_desc = base }
    unfolding fix_single
    fix_single-ok single fixed n m h =
        let (hash, _, r) = >>=-eq-ok (multi_sig_hash K B ring single) _ h in
        ap (λ (p : Single K B.Other × ℕ). p.0) (sym (ok-injective (rw derived at r)))

    fix_checked-Fixed :
        (single fixed : Single K B.Other) (ss rest : List (Single K B.Other)) (n m : ℕ)
        (r : Result KeyError (Unit {0}))
        → check_descriptor K ring single.sha_chain_root_desc ≡ r
        → fix_checked K B ring single n r ≡ ok (fixed, m)
        → Fixed base ss rest
        → Fixed base (single ∷ ss) (fixed ∷ rest)
    unfolding fix_checked
    fix_checked-Fixed single fixed ss rest n m (ok _) e h p =
        subst (λ s. Fixed base (single ∷ ss) (s ∷ rest))
          (ap (λ (p : Single K B.Other × ℕ). p.0) (ok-injective h)) (kept (inl e) p)
    fix_checked-Fixed single fixed ss rest n m panic e h p = cc
    fix_checked-Fixed single fixed ss rest n m (err no_public_key) e h p =
        subst (λ s. Fixed base (single ∷ ss) (s ∷ rest))
          (ap (λ (p : Single K B.Other × ℕ). p.0) (ok-injective h)) (kept (inr e) p)
    fix_checked-Fixed single fixed ss rest n m (err cannot_derive_priv_key) e h p =
        subst (λ s. Fixed base (single ∷ ss) (s ∷ rest)) (sym (fix_single-ok single fixed n m h))
          (replaced e p)
    fix_checked-Fixed single fixed ss rest n m (err e') e h p = cc

    fix_singles-Fixed :
        (ss fixed : List (Single K B.Other)) (n m : ℕ)
        → fix_singles K B ring ss n ≡ ok (fixed, m)
        → Fixed base ss fixed
    unfolding fix_singles
    fix_singles-Fixed [] fixed n m h =
        subst (Fixed base []) (ap (λ (p : List (Single K B.Other) × ℕ). p.0) (ok-injective h))
          all_done
    fix_singles-Fixed (s ∷ ss) fixed n m h =
        let ((f, k), e, r) =
          >>=-eq-ok (fix_checked K B ring s n (check_descriptor K ring s.sha_chain_root_desc)) _
            h in
        let ((rest, l), e', r') = >>=-eq-ok (fix_singles K B ring ss k) _ r in
        subst (Fixed base (s ∷ ss))
          (ap (λ (p : List (Single K B.Other) × ℕ). p.0) (ok-injective r'))
          (fix_checked-Fixed s f ss rest n k (check_descriptor K ring s.sha_chain_root_desc) refl e
            (fix_singles-Fixed ss rest k l e'))

    Fixed-Settled :
        (ss rest : List (Single K B.Other))
        → check_descriptor K ring base ≡ ok tt
        → Fixed base ss rest
        → All Settled rest
    Fixed-Settled [] [] good all_done = tt
    Fixed-Settled [] (_ ∷ rest) good p = elim p [ ]
    Fixed-Settled (s ∷ ss) [] good p = elim p [ ]
    Fixed-Settled (s ∷ ss) (_ ∷ rest) good (kept h p) = (h, Fixed-Settled ss rest good p)
    Fixed-Settled (s ∷ ss) (_ ∷ rest) good (replaced h p) = (inl good, Fixed-Settled ss rest good p)

    -- With a descriptor derived for the default root: a run that writes a file has read a multi, and the
    -- file that it writes holds the same version and each of its backups in order, either one that passes
    -- the check or has no public key, as it was, or one whose root cannot be derived, with the default
    -- root and nothing else changed.
    pub fix_old_channel_backup-Fixed :
        PackLaw K B
        → (nonce : Text) (file file' : B.File)
        → fix_old_channel_backup K B nonce ring file ≡ ok (some file')
        → (version : B.Version) × (ss : List (Single K B.Other)) × (rest : List (Single K B.Other))
          × (B.extract_multi ring file ≡ some (version, ss))
          × (B.extract_multi ring file' ≡ some (version, rest))
          × Fixed base ss rest
    unfolding fix_old_channel_backup written
    fix_old_channel_backup-Fixed law nonce file file' h =
        let ((version, ss), e, r) = >>=-eq-ok (backup_try (B.extract_multi ring file) _) _ h in
        let ((rest, m), e', r') = >>=-eq-ok (fix_singles K B ring ss 0) _ r in
        elim (Bool-cases (m == 0)) [
          | inl none_fixed ↦ absurd (nothing (rw none_fixed at r'))
          | inr some_fixed ↦
              let (out, packed, same) =
                >>=-eq-ok (backup_try (B.pack_to_writer nonce ring version rest) _) _
                  (rw some_fixed at r') in
              (
                version,
                ss,
                rest,
                taken (B.extract_multi ring file) _ e,
                law.extract-pack nonce ring version rest
                    (taken (B.pack_to_writer nonce ring version rest) _ packed ∙ same_file same),
                fix_singles-Fixed ss rest 0 m e',
              )
        ]
      where
        nothing : ◌≡◌ {A = Result BackupError (Option B.File)} (ok none) (ok (some file')) → ⊥
        nothing p = cc

        same_file :
            {out : B.File}
            → ◌≡◌ {A = Result BackupError (Option B.File)} (ok (some out)) (ok (some file'))
            → some out ≡ some file'
        same_file p = ok-injective p

-- In a ring over a key of depth 0, under `DepthLaws`, where `DeriveKey` succeeds on the whole range of the
-- roots' family, which is not empty, and the first key is the same as itself: once a run has written a
-- file, a run on that file finds nothing to fix.
pub fix_old_channel_backup-twice :
    (K : KeyLib) (B : BackupLib K) (ring : HdKeyRing K)
    → DepthLaws K
    → K.depth ring.extended_key ≡ 0
    → PackLaw K B
    → (pks : ℕ → K.PublicKey)
    → ((i : ℕ)
        → i < ring.consts.max_key_range_scan
        → derive_key K ring (record { family = ring.consts.family_revocation_root; index = i })
          ≡ ok (record {
            locator = record { family = ring.consts.family_revocation_root; index = i };
            pub_key = some (pks i);
          }))
    → 0 < ring.consts.max_key_range_scan
    → K.same_key (pks 0) (pks 0) ≡ true
    → (nonce nonce' : Text) (file file' : B.File)
    → fix_old_channel_backup K B nonce ring file ≡ ok (some file')
    → fix_old_channel_backup K B nonce' ring file' ≡ ok none
unfolding fix_old_channel_backup written
fix_old_channel_backup-twice K B ring laws root law pks all wide same nonce nonce' file file' h =
    let (version, ss, rest, _, again, fixed) =
      fix_old_channel_backup-Fixed K B ring _ (all 0 wide) law nonce file file' h in
    let good =
      check_descriptor_complete K laws ring root (root_locator K B ring) (pks 0) pks 0 all wide
        same in
    rw again (
      rw
        (fix_singles-Settled K B ring rest 0
          (Fixed-Settled K B ring _ (all 0 wide) ss rest good fixed))
        refl)
