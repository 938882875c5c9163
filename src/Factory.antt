-- ===== src/Factory.antt =====
-- factory/main.go: the factory.
pub mod Normalize
pub mod Drivers
pub mod Tasks
pub mod Assets
pub mod Contracts
pub mod Destinations
pub mod Lookup
