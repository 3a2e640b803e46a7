-- ===== src/Offer/Files.antt =====
-- The key files of the two nodes (the types of cmd/chantools/zombierecovery_findmatches.go) and the
-- checks that `Execute` makes of them. A pointer that may be nil is an `Option`.
use chantools.Prelude.{
  List, [], ◌∷◌, Bool, true, false, not, ◌&&◌, ◌||◌, Option, some, Result, ok, err, panic, ◌>>◌,
  fail_if, length, ◌==◌,
}
use chantools.Prelude.Int.{ℤ}
use chantools.Prelude.Text.{Text, text_eq}

pub record NodeInfo : Type 0 where
  pub pub_key : Text
  pub contact : Text
  pub payout_addr : Text
  pub multisig_keys : List Text

-- The exported fields of `channel`.
pub record Channel : Type 0 where
  pub channel_id : Text
  pub chan_point : Text
  pub address : Text
  pub capacity : ℤ
  pub musig2_nonce_randomness : Text
  pub musig2_nonces : Text

-- `match`, as it is read from a file.
pub record MatchFile : Type 0 where
  pub node1 : Option NodeInfo
  pub node2 : Option NodeInfo
  pub channels : List Channel

-- A file of which both nodes are there.
pub record KeyFile : Type 0 where
  pub node1 : NodeInfo
  pub node2 : NodeInfo
  pub channels : List Channel

pub data OfferError : Type 0 where
  node_info_missing pubkey_mismatch keys_missing channel_info_incorrect channels_mismatch :
      OfferError
  address_missing nonces_mismatch randomness_mismatch : OfferError
  not_our_node no_keys no_payout_addr bad_key : OfferError
  script_mismatch no_matching_keys : OfferError
  read_failed bad_amount fees_unhandled : OfferError

unfoldable pub is_nil : {A : Type 0} → List A → Bool
is_nil [] = true
is_nil (_ ∷ _) = false

unfoldable pub load_file : MatchFile → Result OfferError KeyFile
load_file f = nodes f.node1 f.node2
  where
    nodes : Option NodeInfo → Option NodeInfo → Result OfferError KeyFile
    nodes (some a) (some b) = ok (record { node1 = a; node2 = b; channels = f.channels })
    nodes _ _ = err node_info_missing

-- One round of the loop over the channels.
unfoldable pub check_channel : Channel → Channel → Result OfferError (Unit {0})
unfolding is_nil
check_channel c1 c2 = do
  fail_if (not (text_eq c2.chan_point c1.chan_point)) channels_mismatch
  fail_if (not (text_eq c2.address c1.address)) channels_mismatch
  fail_if (is_nil c2.address || is_nil c1.address) address_missing
  fail_if (not (length c2.musig2_nonces == length c1.musig2_nonces)) nonces_mismatch
  fail_if (not (length c2.musig2_nonce_randomness == length c1.musig2_nonce_randomness))
      randomness_mismatch

-- `keys2.Channels[idx]` for each channel of the first file; a list that is too short panics.
unfoldable pub check_channels : List Channel → List Channel → Result OfferError (Unit {0})
check_channels [] cs2 = ok tt
check_channels (c1 ∷ cs1) [] = panic
check_channels (c1 ∷ cs1) (c2 ∷ cs2) = check_channel c1 c2 >> check_channels cs1 cs2

-- "Make sure the key files were filled correctly."
unfoldable pub check_files : KeyFile → KeyFile → Result OfferError (Unit {0})
unfolding is_nil
check_files keys1 keys2 = do
  fail_if (not (text_eq keys1.node1.pub_key keys2.node1.pub_key)) pubkey_mismatch
  fail_if (not (text_eq keys1.node2.pub_key keys2.node2.pub_key)) pubkey_mismatch
  fail_if (is_nil keys1.node1.multisig_keys && is_nil keys1.node2.multisig_keys) keys_missing
  fail_if (is_nil keys2.node1.multisig_keys && is_nil keys2.node2.multisig_keys) keys_missing
  fail_if (length keys1.node1.multisig_keys == length keys2.node1.multisig_keys)
      channel_info_incorrect
  fail_if (length keys1.node2.multisig_keys == length keys2.node2.multisig_keys)
      channel_info_incorrect
  fail_if (not (length keys1.channels == length keys2.channels)) channels_mismatch
  check_channels keys1.channels keys2.channels
