-- ===== src/HdKeychain/Derive.antt =====
-- `DeriveChildren` and what lnd/hdkeychain.go builds on it. Extended keys and elliptic curve keys are
-- those of btcd's `hdkeychain` and `btcec`, a parameter.
pub mod Depth
pub mod Safety
use chantools.Prelude.{
  ℕ, ◌+◌, ◌-◌, ◌%◌, ◌^◌, List, [], ◌∷◌, Bool, ◌&&◌, ◌||◌, ◌==◌, ltb, not, Option, none, some,
  Result, ok, err, ◌>>=◌, or_panic, wrap, if◌then◌else◌, length, get_elem?,
}
use chantools.Prelude.Text.{Text}
use chantools.HdKeychain.Path.{hardened_key_start, PathError, parse_path}

-- What the code calls of `hdkeychain` and `btcec`; `none` is an error.
pub record KeyLib : Type 1 where
  pub ExtendedKey : Type 0
  pub PublicKey : Type 0
  pub PrivateKey : Type 0
  pub derive_non_standard : ExtendedKey → ℕ → Option ExtendedKey
  pub depth : ExtendedKey → ℕ
  -- `NewKeyFromString(key.String())`
  pub reload : ExtendedKey → Option ExtendedKey
  pub ec_pub_key : ExtendedKey → Option PublicKey
  pub ec_priv_key : ExtendedKey → Option PrivateKey
  pub is_private : ExtendedKey → Bool
  -- `NewWIF(key, params, true)`, as text
  pub new_wif : PrivateKey → Option Text
  -- `PublicKey.IsEqual`
  pub same_key : PublicKey → PublicKey → Bool

pub data KeyError : Type 0 where
  derive_failed reload_failed pub_key_failed priv_key_failed wif_failed : KeyError
  path_failed : PathError → KeyError
  no_public_key cannot_derive_priv_key : KeyError

-- An error of a call, wrapped.
abbrev pub try : {A : Type 0} → Option A → KeyError → Result KeyError A
try none e = err e
try (some a) e = ok a

-- `pathPart - hdkeychain.HardenedKeyStart` on `uint32`.
unfoldable pub key_id : ℕ → ℕ
key_id part = (part + (2 ^ 32 - hardened_key_start)) % 2 ^ 32

module _ (K : KeyLib) where
  open K use {
    ExtendedKey, PublicKey, PrivateKey, derive_non_standard, depth, reload, ec_pub_key, ec_priv_key,
    is_private, new_wif,
  }

  -- The look ahead at the account level: `path[idx+1]` may be out of range.
  unfoldable pub next_id : List ℕ → ℕ → ExtendedKey → Result KeyError ℕ
  next_id path idx derived =
      if depth derived == 2 && ltb 2 (length path)
      then (or_panic (get_elem? path (idx + 1)) >>= λ next. ok (key_id next))
      else ok 0

  -- The key that the next round starts from.
  unfoldable pub settle : ℕ → ℕ → ExtendedKey → Result KeyError ExtendedKey
  settle part next derived =
      if (depth derived == 2 && not (next == 0)) || (depth derived == 3 && not (key_id part == 0))
      then try (reload derived) reload_failed
      else ok derived

  unfoldable pub derive_loop : List ℕ → ℕ → ExtendedKey → List ℕ → Result KeyError ExtendedKey
  derive_loop path idx key [] = ok key
  derive_loop path idx key (part ∷ parts) = do
    derived ← try (derive_non_standard key part) derive_failed
    next ← next_id path idx derived
    current ← settle part next derived
    derive_loop path (idx + 1) current parts

  unfoldable pub derive_children : ExtendedKey → List ℕ → Result KeyError ExtendedKey
  derive_children key path = derive_loop path 0 key path

  -- The WIF that `DeriveKey` returns, if the key is private.
  unfoldable pub wif_of : ExtendedKey → Result KeyError (Option Text)
  wif_of derived_key =
      if is_private derived_key
      then (do
        priv_key ← try (ec_priv_key derived_key) priv_key_failed
        wif ← try (new_wif priv_key) wif_failed
        ok (some wif))
      else ok none

  -- `DeriveKey`; the WIF is missing for an extended public key.
  unfoldable pub derive_key :
      ExtendedKey → Text → Result KeyError (ExtendedKey × PublicKey × Option Text)
  derive_key extended_key path = do
    parsed_path ← wrap path_failed (parse_path path)
    derived_key ← derive_children extended_key parsed_path
    pub_key ← try (ec_pub_key derived_key) pub_key_failed
    wif ← wif_of derived_key
    ok (derived_key, pub_key, wif)

  unfoldable pub priv_key_from_path : ExtendedKey → List ℕ → Result KeyError PrivateKey
  priv_key_from_path extended_key path = do
    derived_key ← derive_children extended_key path
    try (ec_priv_key derived_key) priv_key_failed
