-- ===== src/Offer/Prepare/Agreed.antt =====
-- Two nodes that each prepare the same match file with zombierecovery_preparekeys.go, and what
-- zombierecovery_makeoffer.go makes of the two files.
use chantools.Prelude.{
  ℕ, ◌<◌, List, [], ◌∷◌, false, Option, some, ok, length, ◌≡◌, ◌≢◌, refl, sym, ◌∙◌, ap, subst,
  arith, All,
}
use chantools.Prelude.Text.{Text, text_eq_refl}
use chantools.HdKeychain.Derive.{KeyLib}
use chantools.HdKeychain.Ring.{Consts}
use chantools.HdKeychain.Address.{AddressLib}
use chantools.Offer.Files.{
  NodeInfo, Channel, MatchFile, KeyFile, is_nil, load_file, check_channels, check_files,
}
use chantools.Offer.Select.{select_keys, is_ours, accept}
use chantools.Offer.Agree.{mirror, Filled, first_view, pick_keys-first, select_keys-mirror}
use chantools.Offer.Prepare.{Signer, PrepareLib, node_key, prepare_keys}
use chantools.Offer.Prepare.Channels.{NonceLaws, Random32, prepare_channels-agree}
use chantools.Offer.Prepare.Slots.{prepare_keys-first, prepare_keys-second}

-- What the two nodes make of the two files.
pub record Agreed (out1 out2 : MatchFile) (pub_key1 pub_key2 : Text) : Type 0 where
  pub keys1 : KeyFile
  pub keys2 : KeyFile
  pub loaded1 : load_file out1 ≡ ok keys1
  pub loaded2 : load_file out2 ≡ ok keys2
  pub checked : check_files keys1 keys2 ≡ ok tt
  pub selected1 : select_keys pub_key1 keys1 keys2 ≡ ok (first_view keys1 keys2)
  pub selected2 : select_keys pub_key2 keys1 keys2 ≡ ok (mirror (first_view keys1 keys2))

is_nil-length : {A : Type 0} (xs : List A) → 0 < length xs → is_nil xs ≡ false
unfolding is_nil
is_nil-length [] h = absurd (omega arith)
is_nil-length (x ∷ xs) h = refl

-- Files whose slots are filled by the two nodes.
module _ (n1 n2 slot1 slot2 : NodeInfo) (ds es : List Channel) (key1 : slot1.pub_key ≡ n1.pub_key)
    (key2 : slot2.pub_key ≡ n2.pub_key) (distinct : n1.pub_key ≢ n2.pub_key)
    (empty1 : n1.multisig_keys ≡ []) (empty2 : n2.multisig_keys ≡ [])
    (some1 : 0 < length slot1.multisig_keys) (some2 : 0 < length slot2.multisig_keys) where
  abbrev file1 : KeyFile
  file1 = record { node1 = slot1; node2 = n2; channels = ds }

  abbrev file2 : KeyFile
  file2 = record { node1 = n1; node2 = slot2; channels = es }

  slots-Filled : Filled file1 file2
  unfolding is_nil
  slots-Filled = record {
    same1 = sym key1;
    same2 = sym key2;
    distinct = λ p. distinct (sym key1 ∙ p ∙ key2);
    own1 = is_nil-length slot1.multisig_keys some1;
    own2 = is_nil-length slot2.multisig_keys some2;
    not2 = rw empty2 refl;
    not1 = rw empty1 refl;
  }

  check_files-slots :
      length ds ≡ length es → check_channels ds es ≡ ok tt → check_files file1 file2 ≡ ok tt
  unfolding check_files is_nil
  check_files-slots len checked =
      rw (key1, key2, empty1, empty2)
        (rw
          (
            text_eq_refl n1.pub_key,
            text_eq_refl n2.pub_key,
            is_nil-length slot1.multisig_keys some1,
            is_nil-length slot2.multisig_keys some2,
            len,
            checked,
          )
          (ground arith))

  select_keys-slots :
      is_nil slot1.payout_addr ≡ false
      → is_nil slot2.payout_addr ≡ false
      → select_keys slot1.pub_key file1 file2 ≡ ok (first_view file1 file2)
  unfolding select_keys is_ours accept
  select_keys-slots paid1 paid2 = rw (pick_keys-first file1 file2 slots-Filled) (
      rw (text_eq_refl slot1.pub_key) (
        rw
          (
            is_nil-length slot1.multisig_keys some1,
            is_nil-length slot2.multisig_keys some2,
            paid1,
            paid2,
          )
          refl))

  slots-Agreed :
      (out1 out2 : MatchFile)
      → out1 ≡ record { node1 = some slot1; node2 = some n2; channels = ds }
      → out2 ≡ record { node1 = some n1; node2 = some slot2; channels = es }
      → length ds ≡ length es
      → check_channels ds es ≡ ok tt
      → is_nil slot1.payout_addr ≡ false
      → is_nil slot2.payout_addr ≡ false
      → Agreed out1 out2 n1.pub_key n2.pub_key
  unfolding load_file
  slots-Agreed out1 out2 w1 w2 len checked paid1 paid2 =
      let first = select_keys-slots paid1 paid2 in
      record {
        keys1 = file1;
        keys2 = file2;
        loaded1 = ap load_file w1;
        loaded2 = ap load_file w2;
        checked = check_files-slots len checked;
        selected1 = subst (λ k. select_keys k file1 file2 ≡ ok (first_view file1 file2)) key1 first;
        selected2 =
            subst (λ k. select_keys k file1 file2 ≡ ok (mirror (first_view file1 file2))) key2
              (select_keys-mirror file1 file2 slots-Filled first).1;
      }

-- Under the lengths of hex and of nonces and with 32 random bytes for each channel: two nodes with
-- different keys fill the two empty slots of one match file, of whose channels each has an address, for
-- at least one key each. If both commands return a file, the two files load and pass the checks of the
-- offer, and both nodes select the same keys, addresses and channels, seen from their two sides.
pub prepare_keys-Agreed :
    (K : KeyLib) (P : PrepareLib K) (L : AddressLib K) (c : Consts)
    → NonceLaws K P
    → (signer1 signer2 : Signer K) (random1 random2 : ℕ → Option Text) → Random32 random1
    → Random32 random2
    → (payout1 payout2 : Text) (num1 num2 : ℕ) → 0 < num1
    → 0 < num2
    → (n1 n2 : NodeInfo) (chs : List Channel) → node_key K P c signer1 ≡ ok n1.pub_key
    → node_key K P c signer2 ≡ ok n2.pub_key
    → n1.pub_key ≢ n2.pub_key
    → n1.multisig_keys ≡ []
    → n2.multisig_keys ≡ []
    → All (λ ch. is_nil ch.address ≡ false) chs
    → (out1 out2 : MatchFile)
    → prepare_keys K P L c random1 signer1 payout1 num1
        (record { node1 = some n1; node2 = some n2; channels = chs })
      ≡ ok out1
    → prepare_keys K P L c random2 signer2 payout2 num2
        (record { node1 = some n1; node2 = some n2; channels = chs })
      ≡ ok out2
    → Agreed out1 out2 n1.pub_key n2.pub_key
prepare_keys-Agreed K P L c laws s1 s2 rnd1 rnd2 w1 w2 p1 p2 num1 num2 pos1 pos2 n1 n2 chs named1
      named2 distinct empty1 empty2 addressed out1 out2 h1 h2 =
    let a = prepare_keys-first K P c L s1 rnd1 p1 num1 n1 n2 chs out1 named1 empty1 h1 in
    let b = prepare_keys-second K P c L s2 rnd2 p2 num2 n1 n2 chs out2 named2 distinct empty2 h2 in
    let (len, checked) =
      prepare_channels-agree K P laws c L s1.lnd_key s2.lnd_key rnd1 rnd2 w1 w2 0 chs a.ds b.ds
        addressed a.nonced b.nonced in
    let some1 : 0 < length a.slot.multisig_keys = omega (arith, a.filled.keys_len) in
    let some2 : 0 < length b.slot.multisig_keys = omega (arith, b.filled.keys_len) in
    slots-Agreed n1 n2 a.slot b.slot a.ds b.ds a.filled.key_kept b.filled.key_kept distinct empty1
      empty2 some1 some2 out1 out2 a.written b.written len checked
      (ap is_nil a.filled.payout_set ∙ a.paid) (ap is_nil b.filled.payout_set ∙ b.paid)
