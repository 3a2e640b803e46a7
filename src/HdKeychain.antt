-- ===== src/HdKeychain.antt =====
-- lnd/hdkeychain.go: derivation paths, key derivation the way lnd's wallet does it, addresses and
-- the key ring.
pub mod Path
pub mod Derive
pub mod Address
pub mod Ecdh
pub mod Ring
