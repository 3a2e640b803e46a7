-- ===== src/TweakedKey.antt =====
-- cmd/chantools/rescuetweakedkey.go: the search for a key that was tweaked again and again. The arithmetic of
-- keys is a parameter.
pub mod Search
use chantools.Prelude.{
  ℕ, zero, suc, ◌+◌, ◌%◌, ◌^◌, ◌==◌, List, Bool, true, false, Option, none, some, Result, ok, err,
  panic, ◌>>=◌, ◌>>◌, fail_if, wrap, leb, if◌then◌else◌,
}
use chantools.Prelude.Text.{Text, text_eq}
use chantools.HdKeychain.Derive.{KeyLib, KeyError, priv_key_failed, try, derive_key}
use chantools.HdKeychain.Address.{
  AddressKind, witness_pub_key_hash, witness_script_hash, taproot, other_kind, AddressLib,
  AddressError, parse_address,
}
use chantools.Offer.Files.{is_nil}

-- What the code calls of btcec, btcutil, chainhash and txscript.
pub record SecpLib (K : KeyLib) : Type 0 where
  -- `privKey.PubKey()`
  pub pub_key : K.PrivateKey → K.PublicKey
  -- `pubKey.SerializeCompressed()`: the byte of the format, and the rest.
  pub serialize_compressed : K.PublicKey → ℕ × Text
  -- `Negate()` of the key's scalar.
  pub negate : K.PrivateKey → K.PrivateKey
  -- `TaggedHash(TagTapTweak, key, []byte{})`
  pub tap_tweak_hash : Text → Text
  -- `Add` of a scalar that is set to bytes.
  pub add_scalar : K.PrivateKey → Text → K.PrivateKey
  pub hash160 : K.PublicKey → List ℕ
  -- `SerializePubKey(ComputeTaprootKeyNoScript(pubKey))`
  pub taproot_key : K.PublicKey → List ℕ

pub data TweakedError : Type 0 where
  path_required unsupported_address addr_not_found : TweakedError
  derive_failed : KeyError → TweakedError
  parse_failed : AddressError → TweakedError

-- How a test ends: with the key that matches, or with what is tested next.
unfoldable pub or_test :
    {A : Type 0}
    → Result TweakedError Bool
    → A
    → Option (Result TweakedError A)
    → Option (Result TweakedError A)
or_test (ok true) key next = some (ok key)
or_test (ok false) key next = next
or_test (err e) key next = some (err e)
or_test panic key next = some panic

-- `idx++`
unfoldable pub inc64 : ℕ → ℕ
inc64 idx = (idx + 1) % 2 ^ 64

module _ (K : KeyLib) (S : SecpLib K) where
  -- `mutateWithSign`: the key is negated if its public key is odd.
  unfoldable pub mutate_with_sign : K.PrivateKey → K.PrivateKey
  mutate_with_sign priv_key =
      if (S.serialize_compressed (S.pub_key priv_key)).0 == 3 then S.negate priv_key else priv_key

  -- `mutateWithTweak`: the hash is that of the public key before the key is negated.
  unfoldable pub mutate_with_tweak : K.PrivateKey → K.PrivateKey
  mutate_with_tweak priv_key =
      S.add_scalar (mutate_with_sign priv_key)
        (S.tap_tweak_hash (S.serialize_compressed (S.pub_key priv_key)).1)

  module _ (L : AddressLib K) where
    abbrev pub kind_matches : AddressKind → K.PublicKey → L.Address → Result TweakedError Bool
    kind_matches witness_pub_key_hash key addr =
        ok (text_eq (S.hash160 key) (L.script_address addr))
    kind_matches taproot key addr = ok (text_eq (S.taproot_key key) (L.script_address addr))
    kind_matches witness_script_hash key addr = err unsupported_address
    kind_matches other_kind key addr = err unsupported_address

    unfoldable pub pub_key_matches_addr : K.PublicKey → L.Address → Result TweakedError Bool
    pub_key_matches_addr key addr = kind_matches (L.kind addr) key addr

    abbrev pub test_key : L.Address → K.PrivateKey → Result TweakedError Bool
    test_key addr key = pub_key_matches_addr (S.pub_key key) addr

    -- The loop of `testPattern`. `none` means that it still runs when its fuel is used up.
    unfoldable pub test_loop :
        L.Address → ℕ → ℕ → ℕ → K.PrivateKey → Option (Result TweakedError K.PrivateKey)
    test_loop addr max_index zero idx current_key = none
    test_loop addr max_index (suc fuel) idx current_key =
        let tweaked = mutate_with_tweak current_key in
        let key_copy = mutate_with_sign tweaked in
        let rest = test_loop addr max_index fuel (inc64 idx) tweaked in
        if leb idx max_index
        then or_test (test_key addr current_key) current_key (
            or_test (test_key addr tweaked) tweaked
              (or_test (test_key addr key_copy) key_copy rest))
        else or_test (test_key addr current_key) current_key (some (err addr_not_found))

    -- `testPattern` gives the key that it logs.
    unfoldable pub test_pattern :
        ℕ → K.PrivateKey → L.Address → ℕ → Option (Result TweakedError K.PrivateKey)
    test_pattern fuel start_key target_addr max_index =
        test_loop target_addr max_index fuel 0 start_key

    -- What `Execute` does before the search.
    unfoldable pub start_search :
        K.ExtendedKey → Text → Text → Result TweakedError (K.PrivateKey × L.Address)
    start_search extended_key path addr = do
      fail_if (is_nil path) path_required
      (child_key, _, _) ← wrap derive_failed (derive_key K extended_key path)
      start_key ← wrap derive_failed (try (K.ec_priv_key child_key) priv_key_failed)
      target_addr ← wrap parse_failed (parse_address K L addr)
      ok (start_key, target_addr)

    -- `Execute`
    or_search :
        ℕ
        → ℕ
        → Result TweakedError (K.PrivateKey × L.Address)
        → Option (Result TweakedError K.PrivateKey)
    or_search fuel num_tries (ok (start_key, target_addr)) =
        test_pattern fuel start_key target_addr num_tries
    or_search fuel num_tries (err e) = some (err e)
    or_search fuel num_tries panic = some panic

    unfoldable pub rescue_tweaked_key :
        ℕ → K.ExtendedKey → Text → Text → ℕ → Option (Result TweakedError K.PrivateKey)
    unfolding or_search
    rescue_tweaked_key fuel extended_key path addr num_tries =
        or_search fuel num_tries (start_search extended_key path addr)
