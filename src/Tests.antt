-- ===== src/Tests.antt =====
-- Runs of the models on concrete values.
mod Sample
mod Names
mod Wallet
mod Transfer
mod Signed
mod Reading
mod Addresses
mod Tasks
mod Factory
mod Lookups
mod Solana
mod CashAddr
mod Toy
mod Ethereum
mod EthereumTasks
mod SuiTransfer
