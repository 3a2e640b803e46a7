-- ===== src/RemoteClosed/Ancient.antt =====
-- `findAncientChannels`, `checkAncientChannelPoints` and `findTargetsLnd` of
-- cmd/chantools/sweepremoteclosed.go. The file of ancient channels is an argument.
use chantools.Prelude.{
  ℕ, List, [], ◌∷◌, ◌++◌, Bool, true, false, if◌then◌else◌, Option, none, Result, ok, err, panic,
  ◌>>=◌, wrap,
}
use chantools.Prelude.Text.{Text}
use chantools.HdKeychain.Derive.{KeyLib}
use chantools.HdKeychain.Ring.{Consts, KeyDescriptor}
use chantools.HdKeychain.Address.{AddressLib, parse_address, decode_address_hash}
use chantools.Explorer.{Api, unspent}
use chantools.Rescue.{TweakLib, RescueError, addr_not_found, CacheEntry, fill_cache, key_in_cache}
use chantools.RemoteClosed.{
  RemoteLib, RemoteError, api_failed, key_failed, rescue_failed, address_failed, bad_commit_point,
  no_channels, remote_try, TargetAddr, targets_from,
}

pub record AncientChannel : Type 0 where
  pub op : Text
  pub addr : Text
  pub cp : Text
  pub node : Text

module _ (K : KeyLib) (L : AddressLib K) (R : RemoteLib K L) (T : TweakLib K) where
  -- The same addresses, read with the parameters of the main network.
  abbrev pub main_net : AddressLib K
  main_net = record L { decode_address = R.decode_main_net; is_for_net = R.is_main_net }

  unfoldable pub commit_point_of : AncientChannel → Result RemoteError K.PublicKey
  commit_point_of channel = do
    bytes ← remote_try (R.decode_hex channel.cp) bad_commit_point
    remote_try (R.parse_pub_key bytes) bad_commit_point

  -- Whether the search found a key; that it did not is no error.
  unfoldable pub is_found : Result RescueError (KeyDescriptor K × List ℕ) → Result RemoteError Bool
  is_found (ok _) = ok true
  is_found (err addr_not_found) = ok false
  is_found (err e) = err (rescue_failed e)
  is_found panic = panic

  -- The loop of `findAncientChannels`.
  unfoldable pub find_ancient_channels :
      List (CacheEntry K) → ℕ → List AncientChannel → Result RemoteError (List AncientChannel)
  find_ancient_channels cache num_keys [] = ok []
  find_ancient_channels cache num_keys (channel ∷ channels) = do
    commit_point ← commit_point_of channel
    (hash, is_script) ← wrap address_failed (decode_address_hash K main_net channel.addr)
    keep ← is_found (key_in_cache K T cache hash commit_point 0 num_keys)
    rest ← find_ancient_channels cache num_keys channels
    ok (if keep then channel ∷ rest else rest)

  -- The target of a channel that was found.
  unfoldable pub ancient_target :
      Api → List (CacheEntry K) → ℕ → AncientChannel → Result RemoteError (TargetAddr K L R)
  ancient_target api cache num_keys channel = do
    commit_point ← commit_point_of channel
    (hash, is_script) ← wrap address_failed (decode_address_hash K main_net channel.addr)
    addr ← wrap address_failed (parse_address K main_net channel.addr)
    outs ← wrap api_failed (unspent api (R.encode_address addr))
    (key_desc, tweak) ← wrap rescue_failed (key_in_cache K T cache hash commit_point 0 num_keys)
    ok (record {
      addr = addr;
      key_desc = key_desc;
      tweak = tweak;
      vouts = outs;
      script = [];
      script_tree = none;
    })

  unfoldable pub ancient_targets :
      Api
      → List (CacheEntry K)
      → ℕ
      → List AncientChannel
      → Result RemoteError (List (TargetAddr K L R))
  ancient_targets api cache num_keys [] = ok []
  ancient_targets api cache num_keys (channel ∷ channels) = do
    target ← ancient_target api cache num_keys channel
    rest ← ancient_targets api cache num_keys channels
    ok (target ∷ rest)

  -- `checkAncientChannelPoints`; there are no channels where the file cannot be read.
  unfoldable pub check_ancient_channel_points :
      Api
      → Consts
      → Option (List AncientChannel)
      → ℕ
      → K.ExtendedKey
      → Result RemoteError (List (TargetAddr K L R))
  check_ancient_channel_points api c channels num_keys key = do
    all ← remote_try channels no_channels
    cache ← wrap key_failed (fill_cache K c num_keys key)
    found ← find_ancient_channels cache num_keys all
    ancient_targets api cache num_keys found

  -- A key that is not found leaves no target.
  unfoldable pub tolerate :
      Result RemoteError (List (TargetAddr K L R)) → Result RemoteError (List (TargetAddr K L R))
  tolerate (err (rescue_failed addr_not_found)) = ok []
  tolerate r = r

  -- `findTargetsLnd`
  unfoldable pub find_targets_lnd :
      Api
      → List Text
      → Consts
      → Option (List AncientChannel)
      → K.ExtendedKey
      → ℕ
      → Result RemoteError (List (TargetAddr K L R))
  find_targets_lnd api known_outputs c channels extended_key recovery_window = do
    targets ← targets_from K L R api known_outputs c extended_key 0 recovery_window
    ancient ← tolerate (check_ancient_channel_points api c channels recovery_window extended_key)
    ok (targets ++ ancient)
