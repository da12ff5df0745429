-- ===== src/SmartContracts.antt =====
-- lib/smart-contracts/index.ts: the parameters of an entry point, formatted for Taquito.
pub mod Token
pub mod Format
pub mod Single
pub mod Order
pub mod Method
pub mod EntryPoints
