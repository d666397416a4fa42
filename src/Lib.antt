-- ===== src/Lib.antt =====
-- The Solana OFT program of this repository (solana-oft-deployment/programs/oft), which moves a
-- token between chains over LayerZero: tokens are locked or burnt here while a message tells the
-- other chain to release or mint them, and the reverse.
--
-- Parts, paths from solana-oft-deployment/programs/oft/src:
--   MsgCodec, ComposeMsgCodec   msg_codec.rs and compose_msg_codec.rs: the bytes of the messages
--   State.OftStore              state/oft.rs: `OFTStore`, `ld2sd`, `sd2ld`, `remove_dust`
--   State.RateLimiter           state/peer_config.rs: `RateLimiter` and its four operations
--   State.PeerConfig            state/peer_config.rs: `PeerConfig`, `EnforcedOptions`
--   Fees                        instructions/quote_send.rs: `compute_fee_and_adjust_amount`,
--                               `calculate_fee`, `get_post_fee_amount_ld`, `get_pre_fee_amount_ld`
--   Fees.PreFee                 instructions/quote_send.rs: `calculate_pre_fee_amount`, `ceil_div`
--   Instructions.Accounts       the account attributes that the instructions share
--   Instructions.Limits         the rate limiter calls of send.rs and lz_receive.rs
--   Instructions.Send           instructions/send.rs
--   Instructions.LzReceive      instructions/lz_receive.rs
--   Instructions.Quote          instructions/quote_oft.rs and quote_send.rs
--   Instructions.Config         instructions/set_oft_config.rs and set_pause.rs
--   Instructions.Config.Peer    instructions/set_peer_config.rs
--   Instructions.WithdrawFee    instructions/withdraw_fee.rs
--   Instructions.InitOft        instructions/init_oft.rs
--   Instructions.LzReceiveTypes instructions/lz_receive_types.rs, and its list against lz_receive.rs
--   Instructions.Transit        both ends of a transfer, send.rs and lz_receive.rs
--   Instructions.Addresses      the program-derived addresses across the instructions
--   Program                     lib.rs: the instructions as steps on one store, its peers and the
--                               state of the other programs
--   EndpointMock                ../../endpoint-mock/src: the stand-in for the endpoint
--   Errors, Words, Common       errors.rs; machine integers and bytes; shared names
--   Platform                    what the program calls and does not implement
--   Solvency                    the laws of the token programs and what follows for the escrow of an
--                               adapter and the supply of a native OFT
--   Example                     a platform that keeps the laws, and runs of the program on it
--
-- How the model stands to the code. An instruction is a function of the accounts as Anchor loads
-- them, the parameters and a world, the state of other programs; it answers the accounts that it
-- writes and the new world, an error, or a panic (the workspace sets overflow-checks = true, so an
-- overflow is a panic). A failing instruction is rolled back by the runtime. `check_accounts` holds
-- the attributes of the accounts struct in the order in which Anchor tests them (`init_if_needed`
-- first), `apply` is the handler. Numbers are natural numbers;
-- what a u64, u128 or u16 does at its bound is written out in Words and Fees. `Clock::get()` is an
-- argument. There are no loops but those over bytes, so nothing needs fuel.
--
-- The runtime, Anchor, spl-token-2022, the associated token program, the LayerZero endpoint and
-- the oapp library are the fields of `Platform.Host`. What is relied on of them is named:
-- `FeeLaws` (a transfer fee in basis points, rounded up and capped), `TokenLaws` (a transfer takes
-- no more than its amount from its source, and credits another account with what is left after the
-- fee), `CallLaws` (no other call takes tokens from the escrow of the store), `SupplyLaws` (burning
-- and minting change the supply by their amounts, nothing else does) and `PdaLaws` (the address
-- that is found is the address that its seeds and bump create). Example.Keeps and Example.Supplies
-- fill them.
--
-- Not modelled: the owner, discriminator and signer checks of account loading, rent and account
-- creation, serialization, account sizes, `oft_version`, log output, and the rest of the repository
-- (the Solidity contracts under contracts, the scripts and the JavaScript tests).
pub mod Common
pub mod Errors
pub mod Words
pub mod MsgCodec
pub mod ComposeMsgCodec
pub mod State
pub mod Platform
pub mod Fees
pub mod Instructions
pub mod Solvency
pub mod Program
pub mod EndpointMock
pub mod Example
