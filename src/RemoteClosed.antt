-- ===== src/RemoteClosed.antt =====
-- cmd/chantools/sweepremoteclosed.go: outputs that a peer's force-close pays us, found by their addresses
-- and swept. The scripts of lnd's `input` and their signatures are parameters.
pub mod Ancient
pub mod Sweep
pub mod Owned
pub mod Tweaked
pub mod Safe
pub mod Run
use chantools.Prelude.{
  ℕ, zero, suc, ◌+◌, List, [], ◌∷◌, ◌++◌, Bool, true, false, not, ◌&&◌, Option, none, some, Result,
  ok, err, panic, ◌>>=◌, wrap, if◌then◌else◌,
}
use chantools.Prelude.Text.{Text, text_eq}
use chantools.HdKeychain.Path.{PathError, multisig_path, parse_path}
use chantools.HdKeychain.Derive.{
  KeyLib, KeyError, priv_key_failed, path_failed, try, derive_children,
}
use chantools.HdKeychain.Ring.{Consts, KeyLocator, KeyDescriptor}
use chantools.HdKeychain.Address.{AddressLib, AddressError}
use chantools.Explorer.{VoutData, ApiError, Api, unspent}
use chantools.Rescue.{RescueError}
use chantools.Offer.Files.{is_nil}
use chantools.Offer.Prepare.{Signer}

pub record RemoteLib (K : KeyLib) (L : AddressLib K) : Type 1 where
  -- `input.CommitScriptTree`
  pub ScriptTree : Type 0
  pub pub_key_of : K.PrivateKey → K.PublicKey
  -- `EncodeAddress` and `String` of an address
  pub encode_address : L.Address → Text
  pub address_string : L.Address → Text
  pub commit_script_to_remote_confirmed : K.PublicKey → Option Text
  -- `NewAddressWitnessScriptHash(sha256.Sum256(script), params)`
  pub script_hash_address : Text → Option L.Address
  pub new_remote_commit_script_tree : K.PublicKey → Option ScriptTree
  -- `NewAddressTaproot(SerializePubKey(tree.TaprootKey), params)`
  pub taproot_address : ScriptTree → Option L.Address
  -- `CtrlBlockForPath(ScriptPathSuccess)` with `ToBytes`
  pub control_block : ScriptTree → Option Text
  pub settle_script : ScriptTree → Text
  pub tapscript_root : ScriptTree → Text
  pub new_hash_from_str : Text → Option Text
  pub decode_hex : Text → Option Text
  pub parse_pub_key : Text → Option K.PublicKey
  -- decoding an address with the parameters of the main network, and whether it is for that
  pub decode_main_net : Text → Option L.Address
  pub is_main_net : L.Address → Bool

pub data RemoteError : Type 0 where
  api_failed : ApiError → RemoteError
  key_failed : KeyError → RemoteError
  rescue_failed : RescueError → RemoteError
  address_failed : AddressError → RemoteError
  bad_address script_failed bad_hash bad_commit_point no_channels below_dust no_control_block :
      RemoteError
  not_signed not_found : RemoteError

abbrev pub remote_try : {A : Type 0} → Option A → RemoteError → Result RemoteError A
remote_try none e = err e
remote_try (some a) e = ok a

-- An address with outputs that are not spent.
pub record TargetAddr (K : KeyLib) (L : AddressLib K) (R : RemoteLib K L) : Type 0 where
  pub addr : L.Address
  pub key_desc : KeyDescriptor K
  pub tweak : List ℕ
  pub vouts : List (Text × ℕ × VoutData)
  pub script : Text
  pub script_tree : Option R.ScriptTree

-- `slices.Contains`
unfoldable pub one_of : Text → List Text → Bool
one_of t [] = false
one_of t (u ∷ us) = if text_eq u t then true else one_of t us

module _ (K : KeyLib) (L : AddressLib K) (R : RemoteLib K L) where
  -- `P2AnchorStaticRemote` of lnd/hdkeychain.go
  unfoldable pub p2_anchor_static_remote : K.PublicKey → Result RemoteError (L.Address × Text)
  p2_anchor_static_remote pub_key = do
    commit_script ← remote_try (R.commit_script_to_remote_confirmed pub_key) script_failed
    p2wsh ← remote_try (R.script_hash_address commit_script) bad_address
    ok (p2wsh, commit_script)

  -- `P2TaprootStaticRemote` of lnd/hdkeychain.go
  unfoldable pub p2_taproot_static_remote :
      K.PublicKey → Result RemoteError (L.Address × R.ScriptTree)
  p2_taproot_static_remote pub_key = do
    script_tree ← remote_try (R.new_remote_commit_script_tree pub_key) script_failed
    addr ← remote_try (R.taproot_address script_tree) bad_address
    ok (addr, script_tree)

  module _ (api : Api) (known_outputs : List Text) where
    -- A target where something is left at the address.
    unfoldable pub found_target :
        KeyDescriptor K
        → L.Address
        → Text
        → Option R.ScriptTree
        → List (Text × ℕ × VoutData)
        → List (TargetAddr K L R)
    found_target key_desc address script script_tree [] = []
    found_target key_desc address script script_tree (v ∷ vs) =
        record {
          addr = address;
          key_desc = key_desc;
          tweak = [];
          vouts = v ∷ vs;
          script = script;
          script_tree = script_tree;
        }
        ∷ []

    -- `queryAddr`: an address that is not among the known ones, if there are any, is left out.
    unfoldable pub query_addr :
        KeyDescriptor K
        → L.Address
        → Text
        → Option R.ScriptTree
        → Result RemoteError (List (TargetAddr K L R))
    query_addr key_desc address script script_tree =
        if not (is_nil known_outputs) && not (one_of (R.address_string address) known_outputs)
        then ok []
        else (wrap api_failed (unspent api (R.encode_address address)) >>= λ outs.
            ok (found_target key_desc address script script_tree outs))

    -- `queryAddressBalances`
    unfoldable pub query_address_balances :
        K.PublicKey → KeyDescriptor K → Result RemoteError (List (TargetAddr K L R))
    query_address_balances pub_key key_desc = do
      p2wkh ← remote_try (L.p2wkh_addr pub_key) bad_address
      plain ← query_addr key_desc p2wkh [] none
      (p2anchor, script) ← p2_anchor_static_remote pub_key
      anchor ← query_addr key_desc p2anchor script none
      (p2tr, script_tree) ← p2_taproot_static_remote pub_key
      tap ← query_addr key_desc p2tr [] (some script_tree)
      ok (plain ++ (anchor ++ tap))

    -- The payment base key of an index, by its printed path.
    unfoldable pub payment_key : Consts → K.ExtendedKey → ℕ → Result KeyError K.PrivateKey
    payment_key c extended_key index = do
      parsed_path ←
          wrap path_failed (parse_path (multisig_path c.hd_coin_type c.family_payment_base index))
      hd_key ← derive_children K extended_key parsed_path
      try (K.ec_priv_key hd_key) priv_key_failed

    abbrev pub payment_desc : Consts → ℕ → K.PublicKey → KeyDescriptor K
    payment_desc c index pub_key = record {
      locator = record { family = c.family_payment_base; index = index };
      pub_key = some pub_key;
    }

    -- The loop of `findTargetsLnd`, from an index on, `n` more rounds.
    unfoldable pub targets_from :
        Consts → K.ExtendedKey → ℕ → ℕ → Result RemoteError (List (TargetAddr K L R))
    targets_from c extended_key index zero = ok []
    targets_from c extended_key index (suc n) = do
      priv_key ← wrap key_failed (payment_key c extended_key index)
      found ←
          query_address_balances (R.pub_key_of priv_key)
            (payment_desc c index (R.pub_key_of priv_key))
      rest ← targets_from c extended_key (index + 1) n
      ok (found ++ rest)

    -- The inner loop of `findTargetsCln`, for one peer; the key comes from the signer.
    unfoldable pub peer_targets_from :
        Consts → Signer K → K.PublicKey → ℕ → ℕ → Result RemoteError (List (TargetAddr K L R))
    peer_targets_from c signer peer index zero = ok []
    peer_targets_from c signer peer index (suc n) = do
      priv_key ← wrap key_failed (signer.fetch_private_key (payment_desc c index peer))
      found ← query_address_balances (R.pub_key_of priv_key) (payment_desc c index peer)
      rest ← peer_targets_from c signer peer (index + 1) n
      ok (found ++ rest)

    -- `findTargetsCln`
    unfoldable pub find_targets_cln :
        Consts → Signer K → List K.PublicKey → ℕ → Result RemoteError (List (TargetAddr K L R))
    find_targets_cln c signer [] recovery_window = ok []
    find_targets_cln c signer (pub_key ∷ pub_keys) recovery_window = do
      found ← peer_targets_from c signer pub_key 0 recovery_window
      rest ← find_targets_cln c signer pub_keys recovery_window
      ok (found ++ rest)
