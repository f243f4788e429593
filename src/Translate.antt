-- ===== src/Translate.antt =====
-- Translation between IATA generations (edge/translate.go). A Go map is an association list here;
-- the order of the list is the order in which a loop visits the map, which Go leaves open.
pub mod Mapping
pub mod Rename
pub mod Penalties
pub mod Listed
pub mod Units
pub mod Segments
pub mod Steps
pub mod Document
pub mod Ends
