-- ===== src/Backup/Filter.antt =====
-- What `filterChannelBackup` of cmd/chantools/filterbackup.go leaves of a backup.
use mathlib.Core.List.{Memᴰ}
use chantools.Prelude.{
  List, [], ◌∷◌, Bool, true, false, some, ok, if◌then◌else◌, ◌≡◌, refl, sym, ◌∙◌, >>=-eq-ok,
  Bool-cases, inl, inr,
}
use chantools.Prelude.Text.{Text, text_eq, text_eq_sound, text_eq_refl}
use chantools.HdKeychain.Derive.{KeyLib}
use chantools.HdKeychain.Ring.{HdKeyRing}
use chantools.Backup.{
  PackLaw, taken, Single, BackupLib, backup_try, discarded, keep_singles, filter_channel_backup,
}

discarded_found : (point : Text) (ds : List Text) → discarded point ds true ≡ true
unfolding discarded
discarded_found point [] = refl
discarded_found point (d ∷ ds) = elim (Bool-cases (text_eq point d)) [
  | inl e ↦ rw e (discarded_found point ds)
  | inr e ↦ rw e (discarded_found point ds)
]

discarded-of-mem :
    (point : Text) (ds : List Text) (found : Bool) → Memᴰ point ds → discarded point ds found ≡ true
unfolding discarded
discarded-of-mem point [] found m = elim m [ ]
discarded-of-mem point (d ∷ ds) found (Memᴰ.head e) =
    rw (e, text_eq_refl d) (discarded_found point ds)
discarded-of-mem point (d ∷ ds) found (Memᴰ.tail later) =
    discarded-of-mem point ds (if text_eq point d then true else found) later

mem-of-discarded : (point : Text) (ds : List Text) → discarded point ds false ≡ true → Memᴰ point ds
unfolding discarded
mem-of-discarded point [] h = cc
mem-of-discarded point (d ∷ ds) h = elim (Bool-cases (text_eq point d)) [
  | inl e ↦ Memᴰ.head (text_eq_sound point d e)
  | inr e ↦ Memᴰ.tail (mem-of-discarded point ds (rw e at h))
]

module _ (K : KeyLib) (B : BackupLib K) where
  -- The backups that are left, in their order: those whose outpoint is not in the list.
  pub data Filtered (discard : List Text)
      : List (Single K B.Other) → List (Single K B.Other) → Type 0 where
    all_done : Filtered discard [] []
    dropped :
        {s : Single K B.Other} {ss rest : List (Single K B.Other)}
        → Memᴰ s.funding_outpoint discard
        → Filtered discard ss rest
        → Filtered discard (s ∷ ss) rest
    kept :
        {s : Single K B.Other} {ss rest : List (Single K B.Other)}
        → ¬ Memᴰ s.funding_outpoint discard
        → Filtered discard ss rest
        → Filtered discard (s ∷ ss) (s ∷ rest)

  keep_singles-Filtered :
      (discard : List Text) (ss : List (Single K B.Other))
      → Filtered discard ss (keep_singles K B discard ss)
  unfolding keep_singles
  keep_singles-Filtered discard [] = all_done
  keep_singles-Filtered discard (s ∷ ss) =
      elim (Bool-cases (discarded s.funding_outpoint discard false)) [
        | inl out ↦ rw out (
            dropped (mem-of-discarded s.funding_outpoint discard out)
              (keep_singles-Filtered discard ss))
        | inr stays ↦ rw stays (
            kept (λ m. differ (sym (discarded-of-mem s.funding_outpoint discard false m) ∙ stays))
              (keep_singles-Filtered discard ss))
      ]
    where
      differ : true ≡ false → ⊥
      differ e = cc

  -- Under `PackLaw`: a run that writes a file has read a multi, and the file that it writes holds the same version
  -- and, in their order, exactly those of its backups whose outpoint is not in the list.
  pub filter_channel_backup-Filtered :
      PackLaw K B
      → (nonce : Text) (ring : HdKeyRing K) (file file' : B.File) (discard : List Text)
      → filter_channel_backup K B nonce ring file discard ≡ ok file'
      → (version : B.Version) × (ss : List (Single K B.Other)) × (rest : List (Single K B.Other))
        × (B.extract_multi ring file ≡ some (version, ss))
        × (B.extract_multi ring file' ≡ some (version, rest))
        × Filtered discard ss rest
  unfolding filter_channel_backup
  filter_channel_backup-Filtered law nonce ring file file' discard h =
      let ((version, ss), e, r) = >>=-eq-ok (backup_try (B.extract_multi ring file) _) _ h in
      (
        version,
        ss,
        keep_singles K B discard ss,
        taken (B.extract_multi ring file) _ e,
        law.extract-pack nonce ring version (keep_singles K B discard ss)
            (taken (B.pack_to_writer nonce ring version (keep_singles K B discard ss)) _ r),
        keep_singles-Filtered discard ss,
      )
