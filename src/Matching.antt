-- ===== src/Matching.antt =====
-- cmd/chantools/zombierecovery_findmatches.go: the channels between registered nodes. The registrations are
-- what the regular expression finds, and the answers of the GraphQL server are a parameter.
pub mod Paging
pub mod Fresh
use chantools.Prelude.{
  ℕ, zero, suc, ◌+◌, List, [], ◌∷◌, ◌++◌, Bool, true, false, not, ◌&&◌, ◌||◌, Option, none, some,
  Result, ok, err, panic, ◌>>=◌, wrap, ltb, length, if◌then◌else◌,
}
use chantools.Prelude.Int64.{to_int64}
use chantools.Prelude.Text.{Text, codes, text_eq, contains_text}
use chantools.Prelude.Text.Decimal.{parse_uint}
use chantools.Explorer.{ApiError, Api, address}
use chantools.Offer.Files.{NodeInfo, Channel, MatchFile, is_nil}

-- `gqChannel`
pub record GqChannel : Type 0 where
  pub chan_point : Text
  pub capacity : Text
  pub channel_id : Text
  pub node1 : Text
  pub node2 : Text

pub data Answer : Type 0 where
  page : List GqChannel → Answer
  query_failed : Text → Answer
  no_graph_info : Answer

pub data MatchingError : Type 0 where
  fetch_failed bad_capacity bad_node_id : MatchingError
  address_failed : ApiError → MatchingError

-- `isServerErr`, on the text of the error.
unfoldable pub is_server_err : Text → Bool
is_server_err e =
    contains_text (codes "Too many requests") e || contains_text (codes "error code: 520") e

-- How a round of `fetchChannels` ends: a request that the server refuses is made again, and a full page is
-- followed by the next one.
unfoldable pub on_answer :
    List GqChannel
    → Answer
    → Option (Result MatchingError (List GqChannel))
    → (List GqChannel → Option (Result MatchingError (List GqChannel)))
    → Option (Result MatchingError (List GqChannel))
on_answer channels (query_failed e) retry more =
    if is_server_err e then retry else some (err fetch_failed)
on_answer channels no_graph_info retry more = some panic
on_answer channels (page list) retry more =
    if ltb (length list) 50 then some (ok (channels ++ list)) else more (channels ++ list)

-- The loop of `fetchChannels`: the answer to a request depends on its number, on the node and on the offset.
-- `none` means that the loop still runs when its fuel is used up.
unfoldable pub fetch_loop :
    (ℕ → Text → ℕ → Answer)
    → Text
    → ℕ
    → ℕ
    → ℕ
    → List GqChannel
    → Option (Result MatchingError (List GqChannel))
fetch_loop query pub_key zero request offset channels = none
fetch_loop query pub_key (suc fuel) request offset channels =
    on_answer channels (query request pub_key offset)
      (fetch_loop query pub_key fuel (request + 1) offset channels)
      (fetch_loop query pub_key fuel (request + 1) (offset + 50))

unfoldable pub fetch_channels :
    (ℕ → Text → ℕ → Answer) → ℕ → Text → Option (Result MatchingError (List GqChannel))
fetch_channels query fuel pub_key = fetch_loop query pub_key fuel 0 0 []

-- `identifyPeer`
unfoldable pub identify_peer : GqChannel → Text → Result MatchingError Text
identify_peer channel node1 =
    if text_eq channel.node1 node1
    then ok channel.node2
    else if text_eq channel.node2 node1
    then ok channel.node1
    else panic

-- A registration, where the contacts of a node are put together.
unfoldable pub register : Text → Text → List (Text × Text) → List (Text × Text)
register node contact [] = (node, contact) ∷ []
register node contact ((n, c) ∷ rest) =
    let after = register node contact rest in
    if text_eq n node
    then (n, (if is_nil c then contact else c ++ (codes ", " ++ contact))) ∷ rest
    else (n, c) ∷ after

-- The loop over what the regular expression finds.
unfoldable pub register_all :
    (Text → Bool)
    → List (Text × Text)
    → List (Text × Text)
    → Result MatchingError (List (Text × Text))
register_all is_key [] registrations = ok registrations
register_all is_key ((node, contact) ∷ groups) registrations =
    let rest = register_all is_key groups (register node contact registrations) in
    if is_key node then rest else err bad_node_id

-- The map of matches, by the two nodes.
abbrev pub Matches : Type 0
Matches = List (Text × Text × MatchFile)

abbrev pub is_pair : Text → Text → Text → Text → Bool
is_pair a b node1 node2 = text_eq a node1 && text_eq b node2

-- `matches[node1][node2] != nil`
unfoldable pub has_match : Text → Text → Matches → Bool
has_match node1 node2 [] = false
has_match node1 node2 ((a, b, m) ∷ ms) = is_pair a b node1 node2 || has_match node1 node2 ms

abbrev pub new_match : Text → Text → Text → Text → MatchFile
new_match node1 contact1 node2 contact2 = record {
  node1 =
      some (record { pub_key = node1; contact = contact1; payout_addr = []; multisig_keys = [] });
  node2 =
      some (record { pub_key = node2; contact = contact2; payout_addr = []; multisig_keys = [] });
  channels = [];
}

-- A new match is put in where there is none.
unfoldable pub ensure_match : Text → Text → Text → Text → Matches → Matches
ensure_match node1 contact1 node2 contact2 ms =
    if has_match node1 node2 ms
    then ms
    else ms ++ (node1, node2, new_match node1 contact1 node2 contact2) ∷ []

-- `matches[node1][node2].Channels = append(...)`
unfoldable pub add_channel : Text → Text → Channel → Matches → Matches
add_channel node1 node2 channel [] = []
add_channel node1 node2 channel ((a, b, m) ∷ ms) =
    let rest = add_channel node1 node2 channel ms in
    if is_pair a b node1 node2
    then (a, b, record m { channels = m.channels ++ channel ∷ [] }) ∷ ms
    else (a, b, m) ∷ rest

abbrev pub matching_try : {A : Type 0} → Option A → MatchingError → Result MatchingError A
matching_try none e = err e
matching_try (some a) e = ok a

module _ (api : Api) where
  -- A channel with a registered peer.
  unfoldable pub match_channel :
      Text → Text → Text → Text → GqChannel → Matches → Result MatchingError Matches
  match_channel node1 contact1 node2 contact2 channel ms = do
    addr ← wrap address_failed (address api channel.chan_point)
    capacity ← matching_try (parse_uint 64 channel.capacity) bad_capacity
    ok (
        add_channel node1 node2
          (record {
            channel_id = channel.channel_id;
            chan_point = channel.chan_point;
            address = addr;
            capacity = to_int64 capacity;
            musig2_nonce_randomness = [];
            musig2_nonces = [];
          })
          (ensure_match node1 contact1 node2 contact2 ms))

  -- The inner loop over the registrations.
  unfoldable pub match_peers :
      Text → Text → Text → GqChannel → List (Text × Text) → Matches → Result MatchingError Matches
  match_peers node1 contact1 peer channel [] ms = ok ms
  match_peers node1 contact1 peer channel ((node2, contact2) ∷ registrations) ms =
      if (text_eq node1 node2 || not (text_eq node2 peer)) || has_match node2 node1 ms
      then match_peers node1 contact1 peer channel registrations ms
      else (match_channel node1 contact1 node2 contact2 channel ms
          >>= match_peers node1 contact1 peer channel registrations)

  -- The loop over the channels of a node.
  unfoldable pub match_channels :
      Text → Text → List (Text × Text) → List GqChannel → Matches → Result MatchingError Matches
  match_channels node1 contact1 registrations [] ms = ok ms
  match_channels node1 contact1 registrations (channel ∷ channels) ms = do
    peer ← identify_peer channel node1
    ms' ← match_peers node1 contact1 peer channel registrations ms
    match_channels node1 contact1 registrations channels ms'

  -- The loop over the registered nodes, in the order in which the map gives them, each with the channels that
  -- are fetched for it.
  unfoldable pub match_nodes :
      (Text → Result MatchingError (List GqChannel))
      → List (Text × Text)
      → List (Text × Text)
      → Matches
      → Result MatchingError Matches
  match_nodes fetch registrations [] ms = ok ms
  match_nodes fetch registrations ((node1, contact1) ∷ nodes) ms = do
    channels ← fetch node1
    ms' ← match_channels node1 contact1 registrations channels ms
    match_nodes fetch registrations nodes ms'

  unfoldable pub find_matches :
      (Text → Result MatchingError (List GqChannel))
      → List (Text × Text)
      → Result MatchingError Matches
  find_matches fetch registrations = match_nodes fetch registrations registrations []
