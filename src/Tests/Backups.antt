-- ===== src/Tests/Backups.antt =====
-- Channel backups at concrete inputs.
use chantools.Prelude.{
  ℕ, ◌<◌, List, [], ◌∷◌, ◌++◌, true, Option, none, some, ok, ◌≡◌, refl, sym, ◌+◌, arith,
}
use chantools.Prelude.Text.{text_eq}
use chantools.HdKeychain.Path.{hardened_key}
use chantools.HdKeychain.Derive.{derive_children, derive_loop, next_id, settle, key_id}
use chantools.HdKeychain.Ring.{
  KeyDescriptor, derive_key, check_descriptor, scan, pub_key_at, pub_key_for_descriptor,
}
use chantools.Backup.{
  Single, BackupLib, PackLaw, discarded, keep_singles, filter_channel_backup, multi_sig_hash,
  fix_single, fix_checked, fix_singles, written, fix_old_channel_backup,
}
use chantools.Backup.Filter.{Filtered, filter_channel_backup-Filtered}
use chantools.Backup.Fix.{Fixed, fix_old_channel_backup-Fixed, fix_old_channel_backup-twice}
use chantools.Tests.{keys, keys-DepthLaws, ring}

abbrev Saved : Type 0
Saved = Unit {0}

-- A file is what it holds.
abbrev saves : BackupLib keys
saves = record {
  Other = Saved;
  Version = ℕ;
  File = ℕ × List (Single keys Saved);
  extract_multi = λ ring file. some file;
  pack_to_writer = λ nonce ring version singles. some (version, singles);
  gen_multi_sig_script = λ a b. some (a ++ b);
  witness_script_hash = λ s. some s;
}

saves-PackLaw : PackLaw keys saves
saves-PackLaw = record { extract-pack = λ nonce ring version singles h. sym h }

abbrev key_at : ℕ → ℕ → List ℕ
key_at family i = i ∷ 0 ∷ (2147483648 + family) ∷ 2147483648 ∷ 2147484665 ∷ []

abbrev desc_at : ℕ → ℕ → Option (List ℕ) → KeyDescriptor keys
desc_at family i pub_key = record {
  locator = record { family = family; index = i };
  pub_key = pub_key;
}

-- A backup with a root that no key of the range has, and one with no public key.
abbrev broken : Single keys Saved
broken = record {
  funding_outpoint = 1 ∷ [];
  sha_chain_root_desc = desc_at 5 0 (some (1 ∷ []));
  local_multi_sig_key = desc_at 0 0 none;
  remote_multi_sig_key = desc_at 0 0 (some (2 ∷ []));
  other = tt;
}

abbrev plain : Single keys Saved
plain = record broken { funding_outpoint = 2 ∷ []; sha_chain_root_desc = desc_at 5 0 none }

abbrev repaired : Single keys Saved
repaired = record broken { sha_chain_root_desc = desc_at 5 0 (some (key_at 5 0)) }

derived :
    (i : ℕ)
    → i < 3
    → derive_key keys ring (record { family = 5; index = i }) ≡ ok (desc_at 5 i (some (key_at 5 i)))
unfolding derive_key pub_key_at derive_children derive_loop next_id settle key_id hardened_key
derived i h = refl

fixed_run :
    fix_old_channel_backup keys saves (8 ∷ []) ring (7, broken ∷ plain ∷ [])
    ≡ ok (some (7, repaired ∷ plain ∷ []))
unfolding fix_old_channel_backup fix_singles fix_checked fix_single multi_sig_hash written
    check_descriptor scan pub_key_for_descriptor derive_key pub_key_at derive_children derive_loop
    next_id settle key_id hardened_key text_eq
fixed_run = refl

fix_old_channel_backup-Fixed_example :
    (version : ℕ) × (ss : List (Single keys Saved)) × (rest : List (Single keys Saved))
    × (saves.extract_multi ring (7, broken ∷ plain ∷ []) ≡ some (version, ss))
    × (saves.extract_multi ring (7, repaired ∷ plain ∷ []) ≡ some (version, rest))
    × Fixed keys saves ring (desc_at 5 0 (some (key_at 5 0))) ss rest
fix_old_channel_backup-Fixed_example =
    fix_old_channel_backup-Fixed keys saves ring (desc_at 5 0 (some (key_at 5 0)))
      (derived 0 (omega arith)) saves-PackLaw (8 ∷ []) (7, broken ∷ plain ∷ [])
      (7, repaired ∷ plain ∷ []) fixed_run

same : text_eq (key_at 5 0) (key_at 5 0) ≡ true
unfolding text_eq
same = refl

fix_old_channel_backup-twice_example :
    fix_old_channel_backup keys saves (8 ∷ []) ring (7, repaired ∷ plain ∷ []) ≡ ok none
fix_old_channel_backup-twice_example =
    fix_old_channel_backup-twice keys saves ring keys-DepthLaws refl saves-PackLaw (key_at 5)
      derived (omega arith) same (8 ∷ []) (8 ∷ []) (7, broken ∷ plain ∷ [])
      (7, repaired ∷ plain ∷ []) fixed_run

filtered :
    filter_channel_backup keys saves (8 ∷ []) ring (7, broken ∷ plain ∷ []) ((1 ∷ []) ∷ [])
    ≡ ok (7, plain ∷ [])
unfolding filter_channel_backup keep_singles discarded text_eq
filtered = refl

filter_channel_backup-Filtered_example :
    (version : ℕ) × (ss : List (Single keys Saved)) × (rest : List (Single keys Saved))
    × (saves.extract_multi ring (7, broken ∷ plain ∷ []) ≡ some (version, ss))
    × (saves.extract_multi ring (7, plain ∷ []) ≡ some (version, rest))
    × Filtered keys saves ((1 ∷ []) ∷ []) ss rest
filter_channel_backup-Filtered_example =
    filter_channel_backup-Filtered keys saves saves-PackLaw (8 ∷ []) ring (7, broken ∷ plain ∷ [])
      (7, plain ∷ []) ((1 ∷ []) ∷ []) filtered
