-- ===== src/Offer/Select.antt =====
-- Which keys are ours: "There are 4 possibilities, given 2 files with 2 node slots each."
use chantools.Prelude.{List, [], not, ◌&&◌, ◌||◌, Result, ok, ◌>>◌, fail_if, if◌then◌else◌}
use chantools.Prelude.Text.{Text, text_eq}
use chantools.Offer.Files.{
  NodeInfo, Channel, KeyFile, OfferError, not_our_node, no_keys, no_payout_addr, is_nil,
}

pub record Selection : Type 0 where
  pub our_keys : List Text
  pub our_payout_addr : Text
  pub our_channels : List Channel
  pub their_keys : List Text
  pub their_payout_addr : Text
  pub their_channels : List Channel

abbrev pub no_selection : Selection
no_selection = record {
  our_keys = [];
  our_payout_addr = [];
  our_channels = [];
  their_keys = [];
  their_payout_addr = [];
  their_channels = [];
}

-- One of the four ifs: our slot of a file, and the other slot of the other file.
unfoldable pub pick :
    Text → NodeInfo → List Channel → NodeInfo → List Channel → Selection → Selection
unfolding is_nil
pick pub_key ours our_channels theirs their_channels selection =
    if text_eq ours.pub_key pub_key && not (is_nil ours.multisig_keys)
    then record {
      our_keys = ours.multisig_keys;
      our_payout_addr = ours.payout_addr;
      our_channels = our_channels;
      their_keys = theirs.multisig_keys;
      their_payout_addr = theirs.payout_addr;
      their_channels = their_channels;
    }
    else selection

-- The four ifs in a row: a later one that passes overwrites.
unfoldable pub pick_keys : Text → KeyFile → KeyFile → Selection
pick_keys pub_key keys1 keys2 = pick pub_key keys2.node2 keys2.channels keys1.node1 keys1.channels (
    pick pub_key keys2.node1 keys2.channels keys1.node2 keys1.channels (
      pick pub_key keys1.node2 keys1.channels keys2.node1 keys2.channels
        (pick pub_key keys1.node1 keys1.channels keys2.node2 keys2.channels no_selection)))

-- The tests behind the four ifs.
unfoldable pub accept : Selection → Result OfferError Selection
accept s = do
  fail_if (is_nil s.our_keys || is_nil s.their_keys) no_keys
  fail_if (is_nil s.our_payout_addr || is_nil s.their_payout_addr) no_payout_addr
  ok s

-- "Make sure one of the nodes is ours."
unfoldable pub is_ours : Text → KeyFile → Result OfferError (Unit {0})
is_ours pub_key keys1 =
    fail_if (not (text_eq keys1.node1.pub_key pub_key) && not (text_eq keys1.node2.pub_key pub_key))
      not_our_node

unfoldable pub select_keys : Text → KeyFile → KeyFile → Result OfferError Selection
select_keys pub_key keys1 keys2 = is_ours pub_key keys1 >> accept (pick_keys pub_key keys1 keys2)

-- The public key of the peer.
unfoldable pub peer_pub_key : Text → KeyFile → Text
peer_pub_key pub_key keys1 =
    if text_eq keys1.node1.pub_key pub_key then keys1.node2.pub_key else keys1.node1.pub_key
