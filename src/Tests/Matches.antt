-- ===== src/Tests/Matches.antt =====
-- The search for matches at concrete inputs.
use chantools.Prelude.{List, [], ◌∷◌, some, ok, ◌≡◌, refl, arith}
use chantools.Prelude.Text.{Text, codes, text_eq, split}
use chantools.Prelude.Int.{pos}
use chantools.Prelude.Int64.{to_int64}
use chantools.Prelude.Text.Decimal.{parse_uint, atoi}
use chantools.Explorer.{address, transaction, outspends}
use chantools.Offer.Files.{is_nil}
use chantools.Matching.{
  GqChannel, page, identify_peer, Matches, has_match, new_match, ensure_match, add_channel,
  match_channel, match_peers, match_channels, match_nodes, find_matches, fetch_channels, register,
}
use chantools.Matching.Fresh.{Good, find_matches-Good}
use chantools.Matching.Paging.{take, drop, fetch_channels-all}
use chantools.Tests.Summaries.{address_explorer}

abbrev alice : Text
alice = codes "aa"

abbrev bob : Text
bob = codes "bb"

abbrev shared : GqChannel
shared = record {
  chan_point = 4 ∷ codes ":0";
  capacity = codes "70000";
  channel_id = codes "9";
  node1 = bob;
  node2 = alice;
}

abbrev registered : List (Text × Text)
registered = (alice, codes "a") ∷ (bob, codes "b") ∷ []

-- Both nodes have the one channel, which is matched once.
abbrev found : Matches
found =
    (
      alice,
      bob,
      record (new_match alice (codes "a") bob (codes "b")) {
        channels =
            record {
              channel_id = codes "9";
              chan_point = 4 ∷ codes ":0";
              address = 7 ∷ [];
              capacity = pos 70000;
              musig2_nonce_randomness = [];
              musig2_nonces = [];
            }
            ∷ [];
      },
    )
    ∷ []

both_seen : find_matches address_explorer (λ node. ok (shared ∷ [])) registered ≡ ok found
unfolding find_matches match_nodes match_channels match_peers match_channel identify_peer
    ensure_match add_channel has_match address transaction outspends text_eq split atoi parse_uint
    to_int64
both_seen = refl

find_matches-Good_example : Good found
find_matches-Good_example =
    find_matches-Good address_explorer (λ node. ok (shared ∷ [])) registered found both_seen

-- The contacts of a node that is registered twice.
registered_again :
    register alice (codes "c") registered ≡ (alice, codes "a, c") ∷ (bob, codes "b") ∷ []
unfolding register text_eq is_nil
registered_again = refl

fetch_channels-all_example :
    fetch_channels (λ request pub_key offset. page (take 50 (drop offset (shared ∷ [])))) 1 alice
    ≡ some (ok (shared ∷ []))
fetch_channels-all_example =
    fetch_channels-all (λ request pub_key offset. page (take 50 (drop offset (shared ∷ [])))) alice
      (shared ∷ []) (λ request offset. refl) 1 (omega arith)
