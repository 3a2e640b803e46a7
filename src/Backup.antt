-- ===== src/Backup.antt =====
-- cmd/chantools/filterbackup.go and cmd/chantools/fixoldbackup.go. The file of a multi backup, its
-- encryption and the scripts are lnd's, a parameter.
pub mod Filter
pub mod Fix
use chantools.Prelude.{
  ℕ, zero, suc, ◌+◌, List, [], ◌∷◌, Bool, true, false, Option, none, some, Result, ok, err, panic,
  ◌>>=◌, ◌==◌, if◌then◌else◌, or_panic, wrap, ◌≡◌, ap, ok-injective,
}
use chantools.Prelude.Text.{Text, text_eq}
use chantools.HdKeychain.Derive.{KeyLib, KeyError, no_public_key, cannot_derive_priv_key}
use chantools.HdKeychain.Ring.{
  Consts, KeyLocator, KeyDescriptor, HdKeyRing, check_descriptor, pub_key_for_descriptor,
  derive_key,
}

-- What the code reads of a `chanbackup.Single`, and what it leaves as it is.
pub record Single (K : KeyLib) (Other : Type 0) : Type 0 where
  -- `FundingOutpoint.String()`
  pub funding_outpoint : Text
  pub sha_chain_root_desc : KeyDescriptor K
  pub local_multi_sig_key : KeyDescriptor K
  pub remote_multi_sig_key : KeyDescriptor K
  pub other : Other

-- What the code calls of `chanbackup` and `input`; `none` is an error.
pub record BackupLib (K : KeyLib) : Type 1 where
  pub Other : Type 0
  pub Version : Type 0
  -- The contents of a file.
  pub File : Type 0
  -- The version and the static backups of a multi in a file.
  pub extract_multi : HdKeyRing K → File → Option (Version × List (Single K Other))
  -- The file is encrypted, with a nonce that is drawn at random.
  pub pack_to_writer : Text → HdKeyRing K → Version → List (Single K Other) → Option File
  pub gen_multi_sig_script : K.PublicKey → K.PublicKey → Option Text
  pub witness_script_hash : Text → Option Text

pub data BackupError : Type 0 where
  not_extracted not_packed : BackupError
  no_script no_hash : BackupError
  multi_sig_failed check_failed derive_key_failed : KeyError → BackupError

abbrev pub backup_try : {A : Type 0} → Option A → BackupError → Result BackupError A
backup_try none e = err e
backup_try (some a) e = ok a

pub taken :
    {A : Type 0} (o : Option A) (e : BackupError) {a : A} → backup_try o e ≡ ok a → o ≡ some a
taken none e h = cc
taken (some a) e h = ap some (ok-injective h)

-- What the code relies on of `chanbackup`: a file that is written can be read again with the same ring,
-- whatever the nonce.
pub record PackLaw (K : KeyLib) (B : BackupLib K) : Type 0 where
  pub extract-pack :
      (nonce : Text) (ring : HdKeyRing K) (version : B.Version) (singles : List (Single K B.Other))
      {file : B.File}
      → B.pack_to_writer nonce ring version singles ≡ some file
      → B.extract_multi ring file ≡ some (version, singles)

-- The loop over the discarded channel points.
unfoldable pub discarded : Text → List Text → Bool → Bool
discarded point [] found = found
discarded point (d ∷ ds) found = discarded point ds (if text_eq point d then true else found)

module _ (K : KeyLib) (B : BackupLib K) where
  -- The loop of `filterChannelBackup` over the backups.
  unfoldable pub keep_singles : List Text → List (Single K B.Other) → List (Single K B.Other)
  keep_singles discard [] = []
  keep_singles discard (single ∷ singles) =
      if discarded single.funding_outpoint discard false
      then keep_singles discard singles
      else single ∷ keep_singles discard singles

  -- `filterChannelBackup`, with the contents of the file that it reads and of the one that it writes.
  unfoldable pub filter_channel_backup :
      Text → HdKeyRing K → B.File → List Text → Result BackupError B.File
  filter_channel_backup nonce ring multi_file discard = do
    multi ← backup_try (B.extract_multi ring multi_file) not_extracted
    let (version, static_backups) = multi in
        backup_try (B.pack_to_writer nonce ring version (keep_singles discard static_backups))
          not_packed

  -- What `fixOldChannelBackup` prints of a channel, and the errors of that.
  unfoldable pub multi_sig_hash : HdKeyRing K → Single K B.Other → Result BackupError Text
  multi_sig_hash ring single = do
    local ← wrap multi_sig_failed (pub_key_for_descriptor K ring single.local_multi_sig_key)
    remote ← wrap multi_sig_failed (pub_key_for_descriptor K ring single.remote_multi_sig_key)
    local_pub ← or_panic local
    remote_pub ← or_panic remote
    script ← backup_try (B.gen_multi_sig_script local_pub remote_pub) no_script
    backup_try (B.witness_script_hash script) no_hash

  -- A backup whose shachain root cannot be derived gets a new one.
  unfoldable pub fix_single :
      HdKeyRing K → Single K B.Other → ℕ → Result BackupError (Single K B.Other × ℕ)
  fix_single ring single fixed_channels = do
    hash ← multi_sig_hash ring single
    base_key_desc ←
        wrap derive_key_failed
          (derive_key K ring (record { family = ring.consts.family_revocation_root; index = 0 }))
    ok (record single { sha_chain_root_desc = base_key_desc }, fixed_channels + 1)

  -- The cases of the check of one backup.
  unfoldable pub fix_checked :
      HdKeyRing K
      → Single K B.Other
      → ℕ
      → Result KeyError (Unit {0})
      → Result BackupError (Single K B.Other × ℕ)
  fix_checked ring single fixed_channels (ok _) = ok (single, fixed_channels)
  fix_checked ring single fixed_channels panic = panic
  fix_checked ring single fixed_channels (err no_public_key) = ok (single, fixed_channels)
  fix_checked ring single fixed_channels (err cannot_derive_priv_key) =
      fix_single ring single fixed_channels
  fix_checked ring single fixed_channels (err e) = err (check_failed e)

  -- The loop of `fixOldChannelBackup`.
  unfoldable pub fix_singles :
      HdKeyRing K → List (Single K B.Other) → ℕ → Result BackupError (List (Single K B.Other) × ℕ)
  fix_singles ring [] fixed_channels = ok ([], fixed_channels)
  fix_singles ring (single ∷ singles) fixed_channels = do
    (fixed, n) ←
        fix_checked ring single fixed_channels (check_descriptor K ring single.sha_chain_root_desc)
    (rest, m) ← fix_singles ring singles n
    ok (fixed ∷ rest, m)

  -- The file is written where a channel was fixed.
  unfoldable pub written :
      Text
      → HdKeyRing K
      → B.Version
      → List (Single K B.Other)
      → ℕ
      → Result BackupError (Option B.File)
  written nonce ring version fixed fixed_channels =
      if fixed_channels == 0
      then ok none
      else (backup_try (B.pack_to_writer nonce ring version fixed) not_packed >>= λ file.
          ok (some file))

  -- `fixOldChannelBackup`: `none` where there is nothing to fix and no file is written.
  unfoldable pub fix_old_channel_backup :
      Text → HdKeyRing K → B.File → Result BackupError (Option B.File)
  unfolding written
  fix_old_channel_backup nonce ring multi_file = do
    (version, static_backups) ← backup_try (B.extract_multi ring multi_file) not_extracted
    (fixed, fixed_channels) ← fix_singles ring static_backups 0
    written nonce ring version fixed fixed_channels
