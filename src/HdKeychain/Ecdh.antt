-- ===== src/HdKeychain/Ecdh.antt =====
-- `ECDH` of lnd/signer.go. The curve and the hash are parameters.
use chantools.Prelude.{Option, some}
use chantools.Prelude.Text.{Text}
use chantools.HdKeychain.Derive.{KeyLib}

pub record EcdhLib (K : KeyLib) : Type 0 where
  -- `ScalarMultNonConst`, as a public key
  pub scalar_mult : K.PrivateKey → K.PublicKey → K.PublicKey
  pub serialize_compressed : K.PublicKey → Text
  pub sha256 : Text → Text

-- There is always a result: the error that is returned is nil.
unfoldable pub ecdh : (K : KeyLib) → EcdhLib K → K.PrivateKey → K.PublicKey → Option Text
ecdh K E priv_key pub_key =
    some (E.sha256 (E.serialize_compressed (E.scalar_mult priv_key pub_key)))
