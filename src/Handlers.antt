-- ===== src/Handlers.antt =====
-- The handlers of the operations after AirShopping (edge/handlers.go).
pub mod Ids
pub mod Answers
pub mod Orders
pub mod Services
pub mod Seats
pub mod Plans
pub mod Shop
