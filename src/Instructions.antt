-- ===== src/Instructions.antt =====
-- instructions/: the handlers of the program. A handler is the check of its account attributes,
-- then its `apply`; it answers the accounts that it may change and the state of the other programs.
pub mod Accounts
pub mod Limits
pub mod Send
pub mod LzReceive
pub mod Quote
pub mod Config
pub mod WithdrawFee
pub mod InitOft
pub mod LzReceiveTypes
pub mod Paused
pub mod Transit
pub mod Addresses
