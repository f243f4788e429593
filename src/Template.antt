-- ===== src/Template.antt =====
-- The reference responses (edge/template.go): how one is sliced, and how a response is rendered.
pub mod Scan
pub mod Chunk
pub mod Airports
pub mod Dates
pub mod Build
pub mod Render
pub mod Load
