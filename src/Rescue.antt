-- ===== src/Rescue.antt =====
-- cmd/chantools/rescueclosed.go: the private keys of outputs that a peer's force-close pays us. The
-- cache of payment base keys is a list; the file that is written and the log are left out.
pub mod Channels
pub mod Key
pub mod Complete
use chantools.Prelude.{
  ℕ, zero, suc, ◌+◌, List, [], ◌∷◌, ◌++◌, Bool, true, ◌&&◌, ◌||◌, not, Option, none, some, Result,
  ok, err, panic, ◌>>=◌, ◌>>◌, fail_if, wrap, or_panic, if◌then◌else◌, get_elem?,
}
use chantools.Prelude.Text.{Text, text_eq}
use chantools.HdKeychain.Derive.{
  KeyLib, KeyError, priv_key_failed, pub_key_failed, try, derive_children,
}
use chantools.HdKeychain.Ring.{Consts, KeyDescriptor, family_path}
use chantools.HdKeychain.Address.{
  AddressKind, witness_pub_key_hash, witness_script_hash, taproot, other_kind, AddressLib,
  AddressError, decode_address_hash,
}

-- What the code calls of lnd's `input` and of btcutil.
pub record TweakLib (K : KeyLib) : Type 0 where
  -- `Hash160(key.SerializeCompressed())`
  pub hash160 : K.PublicKey → List ℕ
  -- `TweakPubKey(basePoint, commitPoint)`
  pub tweak_pub_key : K.PublicKey → K.PublicKey → K.PublicKey
  -- `SingleTweakBytes(commitPoint, basePoint)`
  pub single_tweak_bytes : K.PublicKey → K.PublicKey → List ℕ
  pub tweak_priv_key : K.PrivateKey → List ℕ → K.PrivateKey

pub data RescueError : Type 0 where
  address_failed : AddressError → RescueError
  fill_failed : KeyError → RescueError
  must_be_p2wkh addr_not_found new_wif_failed wrong_net must_be_bech32 key_not_found fetch_failed :
      RescueError

pub record CacheEntry (K : KeyLib) : Type 0 where
  pub priv_key : K.PrivateKey
  pub key_desc : KeyDescriptor K

-- What the channel DB holds of a channel here.
pub record OpenChannel (K : KeyLib) : Type 0 where
  pub remote_next_revocation : Option K.PublicKey
  pub remote_current_revocation : Option K.PublicKey

module _ (K : KeyLib) where
  unfoldable pub fill_from : Consts → K.ExtendedKey → ℕ → ℕ → Result KeyError (List (CacheEntry K))
  fill_from c extended_key i zero = ok []
  fill_from c extended_key i (suc n) = do
    key ← derive_children K extended_key (family_path c c.family_payment_base (i ∷ []))
    priv_key ← try (K.ec_priv_key key) priv_key_failed
    pub_key ← try (K.ec_pub_key key) pub_key_failed
    rest ← fill_from c extended_key (i + 1) n
    ok (
        record {
          priv_key = priv_key;
          key_desc = record {
            locator = record { family = c.family_payment_base; index = i };
            pub_key = some pub_key;
          };
        }
        ∷ rest)

  -- `fillCache`, from index 0 on.
  unfoldable pub fill_cache : Consts → ℕ → K.ExtendedKey → Result KeyError (List (CacheEntry K))
  fill_cache c num_keys extended_key = fill_from c extended_key 0 num_keys

  -- The points of one channel that `commitPointsFromDB` appends.
  present : Option K.PublicKey → List K.PublicKey
  present none = []
  present (some p) = p ∷ []

  unfoldable pub collect_points : List (OpenChannel K) → List K.PublicKey
  unfolding present
  collect_points [] = []
  collect_points (c ∷ cs) =
      present c.remote_next_revocation ++ (present c.remote_current_revocation ++ collect_points cs)

  unfoldable pub commit_points_from_db :
      Option (List (OpenChannel K)) → Result RescueError (List K.PublicKey)
  commit_points_from_db none = err fetch_failed
  commit_points_from_db (some channels) = ok (collect_points channels)

  -- The error of a call, where it has one.
  abbrev pub or_error : {A : Type 0} → Option A → RescueError → Result RescueError A
  or_error none e = err e
  or_error (some a) e = ok a

  module _ (T : TweakLib K) where
    -- The key pair that one round of a loop of `addrInCache` tries: with no commit point the plain
    -- pair, else the tweaked one.
    unfoldable pub candidate :
        Option K.PublicKey → CacheEntry K → Result RescueError (K.PublicKey × K.PrivateKey)
    candidate none entry = do
      pub_key ← or_panic entry.key_desc.pub_key
      ok (pub_key, entry.priv_key)
    candidate (some commit) entry = do
      base_point ← or_panic entry.key_desc.pub_key
      ok (
        T.tweak_pub_key base_point commit,
        T.tweak_priv_key entry.priv_key (T.single_tweak_bytes commit base_point),
      )

    -- The loops of `addrInCache`, from index `i` on, `n` more rounds.
    unfoldable pub find_from :
        List (CacheEntry K) → List ℕ → Option K.PublicKey → ℕ → ℕ → Result RescueError Text
    find_from cache target commit i zero = err addr_not_found
    find_from cache target commit i (suc n) = do
      cache_entry ← or_panic (get_elem? cache i)
      (pub_key, priv_key) ← candidate commit cache_entry
      let rest = find_from cache target commit (i + 1) n
      if text_eq target (T.hash160 pub_key)
          then or_error (K.new_wif priv_key) new_wif_failed
          else rest

    -- The loop of `keyInCache`.
    unfoldable pub key_in_cache :
        List (CacheEntry K)
        → List ℕ
        → K.PublicKey
        → ℕ
        → ℕ
        → Result RescueError (KeyDescriptor K × List ℕ)
    key_in_cache cache target commit i zero = err addr_not_found
    key_in_cache cache target commit i (suc n) = do
      cache_entry ← or_panic (get_elem? cache i)
      base_point ← or_panic cache_entry.key_desc.pub_key
      let rest = key_in_cache cache target commit (i + 1) n
      if text_eq target (T.hash160 (T.tweak_pub_key base_point commit))
          then ok (cache_entry.key_desc, T.single_tweak_bytes commit base_point)
          else rest

    module _ (L : AddressLib K) where
      unfoldable pub addr_in_cache :
          List (CacheEntry K) → ℕ → Text → Option K.PublicKey → Result RescueError Text
      addr_in_cache cache num_keys addr commit = do
        (target_pub_key_hash, script_hash) ← wrap address_failed (decode_address_hash K L addr)
        fail_if script_hash must_be_p2wkh
        find_from cache target_pub_key_hash commit 0 num_keys

      -- How the loop over the commit points reads the result: a key that is not found is no error.
      unfoldable pub attempt : Result RescueError Text → Result RescueError (Option Text)
      attempt (ok wif) = ok (some wif)
      attempt (err addr_not_found) = ok none
      attempt (err e) = err e
      attempt panic = panic

      unfoldable pub or_next :
          Option Text → Result RescueError (Option Text) → Result RescueError (Option Text)
      or_next none rest = rest
      or_next (some wif) rest = ok (some wif)

      -- The loop over the commit points.
      unfoldable pub try_points :
          List (CacheEntry K)
          → ℕ
          → Text
          → List (Option K.PublicKey)
          → Result RescueError (Option Text)
      try_points cache num_keys addr [] = ok none
      try_points cache num_keys addr (commit ∷ commits) = do
        found ← attempt (addr_in_cache cache num_keys addr commit)
        or_next found (try_points cache num_keys addr commits)
