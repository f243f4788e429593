-- ===== src/Offer.antt =====
-- What an offer identifier tells of its trip (edge/offerinfo.go), and the flights that the
-- builders make of it (edge/xmlbuild.go).
pub mod Info
pub mod Ident
pub mod Render
unfoldable pub use Info.*
