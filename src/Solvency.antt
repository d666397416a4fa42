-- ===== src/Solvency.antt =====
-- The escrow of the program against the locked value, over its instructions: see `Solvency/`.
pub mod Laws
pub mod Outbound
pub mod Inbound
pub mod Fees
pub mod Supply
