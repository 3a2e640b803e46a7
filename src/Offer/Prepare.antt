-- ===== src/Offer/Prepare.antt =====
-- cmd/chantools/zombierecovery_preparekeys.go, with the nonces of lnd/channel.go and the key lookup of
-- lnd/signer.go: a node fills its slot of a match file. Nonces, hex and randomness are parameters.
pub mod Channels
pub mod Slots
pub mod Agreed
use chantools.Prelude.{
  ℕ, zero, suc, ◌+◌, List, [], ◌∷◌, ◌++◌, Bool, true, false, not, ◌&&◌, Option, none, some, Result,
  ok, err, panic, ◌>>=◌, ◌>>◌, fail_if, wrap, if◌then◌else◌,
}
use chantools.Prelude.Text.{Text, text_eq}
use chantools.HdKeychain.Path.{multisig_path}
use chantools.HdKeychain.Derive.{KeyLib, KeyError, priv_key_failed, try, priv_key_from_path}
use chantools.HdKeychain.Derive
use chantools.HdKeychain.Ring.{Consts, KeyLocator, KeyDescriptor, family_path}
use chantools.HdKeychain.Address.{
  AddressKind, witness_pub_key_hash, witness_script_hash, taproot, other_kind, p2wkh, p2tr,
  AddressLib, AddressError, check_address, parse_address,
}
use chantools.TimeLock.{take}
use chantools.Offer.Files.{NodeInfo, Channel, MatchFile}

-- `lnd.ChannelSigner`, as far as it is called here; `lnd_key` is there where it is an `lnd.Signer`.
pub record Signer (K : KeyLib) : Type 0 where
  pub fetch_private_key : KeyDescriptor K → Result KeyError K.PrivateKey
  pub lnd_key : Option K.ExtendedKey

-- `musig2.Nonces`
pub record Nonces : Type 0 where
  pub pub_nonce : Text
  pub sec_nonce : Text

pub record PrepareLib (K : KeyLib) : Type 1 where
  pub OutPoint : Type 0
  pub pub_key_of : K.PrivateKey → K.PublicKey
  pub serialize_compressed : K.PublicKey → Text
  pub parse_pub_key : Text → Option K.PublicKey
  pub encode_hex : Text → Text
  pub decode_hex : Text → Option Text
  pub new_out_point_from_string : Text → Option OutPoint
  -- `musig2.GenNonces`, with a key, some randomness and a channel ID
  pub gen_nonces : K.PrivateKey → Text → OutPoint → Option Nonces

pub data PrepareError : Type 0 where
  invalid_payout node_info_missing not_in_match bad_peer_key taproot_unsupported bad_chan_point :
      PrepareError
  no_randomness nonces_failed : PrepareError
  key_failed : KeyError → PrepareError
  address_failed : AddressError → PrepareError

abbrev pub prepare_try : {A : Type 0} → Option A → PrepareError → Result PrepareError A
prepare_try none e = err e
prepare_try (some a) e = ok a

module _ (K : KeyLib) where
  -- `lnd.Signer`
  unfoldable pub lnd_signer : Consts → K.ExtendedKey → Signer K
  lnd_signer c extended_key = record {
    fetch_private_key = λ d.
        priv_key_from_path K extended_key (family_path c d.locator.family (d.locator.index ∷ []));
    lnd_key = some extended_key;
  }

module _ (K : KeyLib) (P : PrepareLib K) where
  -- `DeriveMuSig2NoncePrivKey`
  unfoldable pub derive_musig2_nonce_priv_key :
      Consts → K.ExtendedKey → Result KeyError K.PrivateKey
  derive_musig2_nonce_priv_key c extended_key = do
    (key, pub_key, wif) ← Derive.derive_key K extended_key (multisig_path c.hd_coin_type 1337 1337)
    try (K.ec_priv_key key) priv_key_failed

  -- The signing key, where it is known, is put behind the first 64 bytes of the secret nonce.
  unfoldable pub with_signing_key : Option K.PrivateKey → Nonces → Nonces
  with_signing_key none nonces = nonces
  with_signing_key (some signing_key) nonces = record nonces {
    sec_nonce = take 64 nonces.sec_nonce ++ P.serialize_compressed (P.pub_key_of signing_key);
  }

  -- `GenerateMuSig2Nonces`
  unfoldable pub generate_musig2_nonces :
      Consts → K.ExtendedKey → Text → P.OutPoint → Option K.PrivateKey → Result PrepareError Nonces
  generate_musig2_nonces c extended_key randomness chan_point signing_key = do
    priv_key ← wrap key_failed (derive_musig2_nonce_priv_key c extended_key)
    nonces ← prepare_try (P.gen_nonces priv_key randomness chan_point) nonces_failed
    ok (with_signing_key signing_key nonces)

  -- A taproot channel, with what `rand.Read` gives for it.
  unfoldable pub add_nonces :
      Consts → Option K.ExtendedKey → Option Text → Channel → Result PrepareError Channel
  add_nonces c none random channel = err taproot_unsupported
  add_nonces c (some extended_key) random channel = do
    chan_point ← prepare_try (P.new_out_point_from_string channel.chan_point) bad_chan_point
    randomness ← prepare_try random no_randomness
    nonces ← generate_musig2_nonces c extended_key randomness chan_point none
    ok (record channel {
      musig2_nonce_randomness = P.encode_hex randomness;
      musig2_nonces = P.encode_hex nonces.pub_nonce;
    })

  unfoldable pub for_kind :
      Consts
      → Option K.ExtendedKey
      → Option Text
      → Channel
      → AddressKind
      → Result PrepareError Channel
  for_kind c lnd_key random channel taproot = add_nonces c lnd_key random channel
  for_kind c lnd_key random channel witness_pub_key_hash = ok channel
  for_kind c lnd_key random channel witness_script_hash = ok channel
  for_kind c lnd_key random channel other_kind = ok channel

  abbrev pub multi_sig_desc : Consts → ℕ → K.PublicKey → KeyDescriptor K
  multi_sig_desc c i their_node_key = record {
    locator = record { family = c.family_multi_sig; index = i };
    pub_key = some their_node_key;
  }

  -- The multisig keys from index `i` on, `n` of them.
  unfoldable pub derive_keys :
      Consts → Signer K → K.PublicKey → ℕ → ℕ → Result PrepareError (List Text)
  derive_keys c signer their_node_key i zero = ok []
  derive_keys c signer their_node_key i (suc n) = do
    priv_key ← wrap key_failed (signer.fetch_private_key (multi_sig_desc c i their_node_key))
    keys ← derive_keys c signer their_node_key (i + 1) n
    ok (P.encode_hex (P.serialize_compressed (P.pub_key_of priv_key)) ∷ keys)

  -- The key of the node, as it stands in a match file.
  unfoldable pub node_key : Consts → Signer K → Result PrepareError Text
  node_key c signer = do
    node_priv_key ← wrap key_failed (
        signer.fetch_private_key
          (record { locator = record { family = c.family_node_key; index = 0 }; pub_key = none }))
    ok (P.encode_hex (P.serialize_compressed (P.pub_key_of node_priv_key)))

  unfoldable pub peer_key : NodeInfo → Result PrepareError K.PublicKey
  peer_key their_node_info = do
    bytes ← prepare_try (P.decode_hex their_node_info.pub_key) bad_peer_key
    prepare_try (P.parse_pub_key bytes) bad_peer_key

  unfoldable pub fill_node : NodeInfo → Text → List Text → NodeInfo
  fill_node ours payout_addr keys = record ours {
    multisig_keys = ours.multisig_keys ++ keys;
    payout_addr = payout_addr;
  }

  module _ (L : AddressLib K) (c : Consts) (read_random : ℕ → Option Text) where
    -- The loop over the channels.
    unfoldable pub prepare_channels :
        Option K.ExtendedKey → ℕ → List Channel → Result PrepareError (List Channel)
    prepare_channels lnd_key idx [] = ok []
    prepare_channels lnd_key idx (channel ∷ channels) = do
      addr ← wrap address_failed (parse_address K L channel.address)
      prepared ← for_kind c lnd_key (read_random idx) channel (L.kind addr)
      rest ← prepare_channels lnd_key (idx + 1) channels
      ok (prepared ∷ rest)

    -- The peer's key, the nonces and then our keys.
    unfoldable pub fill_slot :
        Signer K
        → Text
        → ℕ
        → NodeInfo
        → NodeInfo
        → List Channel
        → Result PrepareError (NodeInfo × List Channel)
    fill_slot signer payout_addr num_keys ours theirs channels = do
      their_node_key ← peer_key theirs
      prepared ← prepare_channels signer.lnd_key 0 channels
      keys ← derive_keys c signer their_node_key 0 num_keys
      ok (fill_node ours payout_addr keys, prepared)

    -- The slot that has our public key; the first one where both do.
    unfoldable pub fill_match :
        Signer K
        → Text
        → ℕ
        → Text
        → NodeInfo
        → NodeInfo
        → List Channel
        → Result PrepareError MatchFile
    fill_match signer payout_addr num_keys pub_key node1 node2 channels =
        if not (text_eq node1.pub_key pub_key) && not (text_eq node2.pub_key pub_key)
        then err not_in_match
        else if text_eq node1.pub_key pub_key
        then (do
          (ours, prepared) ← fill_slot signer payout_addr num_keys node1 node2 channels
          ok (record { node1 = some ours; node2 = some node2; channels = prepared }))
        else (do
          (ours, prepared) ← fill_slot signer payout_addr num_keys node2 node1 channels
          ok (record { node1 = some node1; node2 = some ours; channels = prepared }))

    unfoldable pub prepare_nodes :
        Signer K
        → Text
        → ℕ
        → Option NodeInfo
        → Option NodeInfo
        → List Channel
        → Result PrepareError MatchFile
    prepare_nodes signer payout_addr num_keys (some node1) (some node2) channels = do
      pub_key ← node_key c signer
      fill_match signer payout_addr num_keys pub_key node1 node2 channels
    prepare_nodes signer payout_addr num_keys (some node1) none channels = err node_info_missing
    prepare_nodes signer payout_addr num_keys none node2 channels = err node_info_missing

    -- `Execute`, with the match file that it reads and the one that it writes.
    unfoldable pub prepare_keys : Signer K → Text → ℕ → MatchFile → Result PrepareError MatchFile
    prepare_keys signer payout_addr num_keys match_file =
        wrap (λ e. invalid_payout) (check_address K L payout_addr false (p2wkh ∷ p2tr ∷ []))
        >> prepare_nodes signer payout_addr num_keys match_file.node1 match_file.node2
            match_file.channels
