-- ===== src/Offer.antt =====
-- cmd/chantools/zombierecovery_makeoffer.go: the offer that two nodes make to rescue their channels.
pub mod Files
pub mod Select
pub mod Agree
pub mod Prepare
pub mod Keys
pub mod Ask
pub mod Fees
