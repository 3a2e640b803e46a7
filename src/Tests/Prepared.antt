-- ===== src/Tests/Prepared.antt =====
-- Two nodes that prepare one match file with a taproot channel.
use chantools.Prelude.{
  ℕ, zero, suc, ◌*◌, List, [], ◌∷◌, ◌++◌, false, Option, some, ok, ◌≡◌, ◌≢◌, refl, sym, ap, arith,
  length, length-append,
}
use chantools.Prelude.Int.{pos}
use chantools.Prelude.Text.{Text, text_eq}
use chantools.HdKeychain.Path.{hardened_key}
use chantools.HdKeychain.Path.Printed.{parse_path-multisig_path}
use chantools.HdKeychain.Derive.{
  derive_children, derive_loop, next_id, settle, key_id, wif_of, priv_key_from_path,
}
use chantools.HdKeychain.Derive
use chantools.HdKeychain.Address.{check_address, parse_address, match_addr_type, allows}
use chantools.Offer.Files.{NodeInfo, Channel, MatchFile, is_nil}
use chantools.Offer.Prepare.{
  Nonces, PrepareLib, lnd_signer, derive_musig2_nonce_priv_key, with_signing_key,
  generate_musig2_nonces, add_nonces, for_kind, derive_keys, node_key, peer_key, fill_node,
  prepare_channels, fill_slot, fill_match, prepare_nodes, prepare_keys,
}
use chantools.Offer.Prepare.Channels.{NonceLaws}
use chantools.Offer.Prepare.Agreed.{Agreed, prepare_keys-Agreed}
use chantools.Tests.{keys, consts, kinds}

abbrev repeat : ℕ → Text
repeat zero = []
repeat (suc n) = 1 ∷ repeat n

abbrev prepares : PrepareLib keys
prepares = record {
  OutPoint = Text;
  pub_key_of = λ key. key;
  serialize_compressed = λ key. key;
  parse_pub_key = λ s. some s;
  encode_hex = λ s. s ++ s;
  decode_hex = λ s. some s;
  new_out_point_from_string = λ s. some s;
  gen_nonces = λ key randomness point. some (record { pub_nonce = repeat 66; sec_nonce = [] });
}

some_injective : {A : Type 0} {a b : A} → some a ≡ some b → a ≡ b
some_injective h = cc

prepares-NonceLaws : NonceLaws keys prepares
prepares-NonceLaws = record {
  length-encode_hex = λ s. twice s;
  length-gen_nonces =
      λ key randomness point h. sym (ap (λ (n : Nonces). length n.pub_nonce) (some_injective h));
}
  where
    twice : (s : Text) → length (s ++ s) ≡ 2 * length s
    twice s = omega (arith, length-append s s)

abbrev random : ℕ → Option Text
random i = some (repeat 32)

random32 : (i : ℕ) (r : Text) → random i ≡ some r → length r ≡ 32
random32 i r h = sym (ap (λ (t : Text). length t) (some_injective h))

-- The key of the node of a root key, twice as in the toy's hex.
abbrev node_text : List ℕ → Text
node_text root =
    (0 ∷ 0 ∷ 2147483654 ∷ 2147483648 ∷ 2147484665 ∷ root)
    ++ (0 ∷ 0 ∷ 2147483654 ∷ 2147483648 ∷ 2147484665 ∷ root)

abbrev node : List ℕ → NodeInfo
node root = record { pub_key = node_text root; contact = []; payout_addr = []; multisig_keys = [] }

abbrev tap_channel : Channel
tap_channel = record {
  channel_id = [];
  chan_point = 3 ∷ [];
  address = 9 ∷ [];
  capacity = pos 1000;
  musig2_nonce_randomness = [];
  musig2_nonces = [];
}

named1 : node_key keys prepares consts (lnd_signer keys consts []) ≡ ok (node_text [])
unfolding node_key lnd_signer priv_key_from_path derive_children derive_loop next_id settle key_id
    hardened_key
named1 = refl

named2 : node_key keys prepares consts (lnd_signer keys consts (5 ∷ [])) ≡ ok (node_text (5 ∷ []))
unfolding node_key lnd_signer priv_key_from_path derive_children derive_loop next_id settle key_id
    hardened_key
named2 = refl

abbrev multi_sig : List ℕ → Text
multi_sig root =
    (0 ∷ 0 ∷ 2147483648 ∷ 2147483648 ∷ 2147484665 ∷ root)
    ++ (0 ∷ 0 ∷ 2147483648 ∷ 2147483648 ∷ 2147484665 ∷ root)

abbrev prepared_channel : Channel
prepared_channel = record tap_channel {
  musig2_nonce_randomness = repeat 32 ++ repeat 32;
  musig2_nonces = repeat 66 ++ repeat 66;
}

abbrev out1 : MatchFile
out1 = record {
  node1 = some (record (node []) { payout_addr = 3 ∷ []; multisig_keys = multi_sig [] ∷ [] });
  node2 = some (node (5 ∷ []));
  channels = prepared_channel ∷ [];
}

abbrev out2 : MatchFile
out2 = record {
  node1 = some (node []);
  node2 =
      some
        (record (node (5 ∷ [])) { payout_addr = 4 ∷ []; multisig_keys = multi_sig (5 ∷ []) ∷ [] });
  channels = prepared_channel ∷ [];
}

abbrev match_file : MatchFile
match_file = record {
  node1 = some (node []);
  node2 = some (node (5 ∷ []));
  channels = tap_channel ∷ [];
}

prepared1 :
    prepare_keys keys prepares kinds consts random (lnd_signer keys consts []) (3 ∷ []) 1 match_file
    ≡ ok out1
unfolding prepare_keys prepare_nodes fill_match fill_slot peer_key prepare_channels for_kind
    add_nonces generate_musig2_nonces with_signing_key derive_musig2_nonce_priv_key derive_keys
    fill_node node_key lnd_signer priv_key_from_path derive_children derive_loop next_id settle
    key_id hardened_key wif_of Derive.derive_key check_address parse_address match_addr_type allows
    text_eq
prepared1 = rw (parse_path-multisig_path 0 1337 1337 (omega arith) (omega arith) (omega arith)) refl

prepared2 :
    prepare_keys keys prepares kinds consts random
      (lnd_signer keys consts (5 ∷ []))
      (4 ∷ [])
      1
      match_file
    ≡ ok out2
unfolding prepare_keys prepare_nodes fill_match fill_slot peer_key prepare_channels for_kind
    add_nonces generate_musig2_nonces with_signing_key derive_musig2_nonce_priv_key derive_keys
    fill_node node_key lnd_signer priv_key_from_path derive_children derive_loop next_id settle
    key_id hardened_key wif_of Derive.derive_key check_address parse_address match_addr_type allows
    text_eq
prepared2 = rw (parse_path-multisig_path 0 1337 1337 (omega arith) (omega arith) (omega arith)) refl

different : node_text [] ≢ node_text (5 ∷ [])
different p = cc

addressed : is_nil tap_channel.address ≡ false
unfolding is_nil
addressed = refl

prepare_keys-Agreed_example : Agreed out1 out2 (node_text []) (node_text (5 ∷ []))
prepare_keys-Agreed_example =
    prepare_keys-Agreed keys prepares kinds consts prepares-NonceLaws (lnd_signer keys consts [])
      (lnd_signer keys consts (5 ∷ [])) random random random32 random32 (3 ∷ []) (4 ∷ []) 1 1
      (omega arith) (omega arith) (node []) (node (5 ∷ [])) (tap_channel ∷ []) named1 named2
      different refl refl (addressed, tt) out1 out2 prepared1 prepared2
