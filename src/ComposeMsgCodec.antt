-- ===== src/ComposeMsgCodec.antt =====
-- compose_msg_codec.rs: the message that the receiving program hands to the composer,
-- [nonce: 8][src_eid: 4][amount_ld: 8][compose_from: 32][compose_msg].
pub mod RoundTrip
mod Tests
use cross_chain_contracts.Common.{ℕ, List, [], ◌++◌, length, drop, ltb, if◌then◌else◌}
use cross_chain_contracts.Errors.{Result, ok, ◌>>=◌}
use cross_chain_contracts.Words.{to_be_bytes, from_be_bytes, slice}

abbrev pub nonce_offset : ℕ
nonce_offset = 0

abbrev pub src_eid_offset : ℕ
src_eid_offset = 8

abbrev pub amount_ld_offset : ℕ
amount_ld_offset = 12

abbrev pub compose_from_offset : ℕ
compose_from_offset = 20

abbrev pub compose_msg_offset : ℕ
compose_msg_offset = 52

-- `compose_msg` is [composeFrom][composeMsg].
unfoldable pub encode : ℕ → ℕ → ℕ → List ℕ → List ℕ
encode nonce src_eid amount_ld compose_msg =
    to_be_bytes 8 nonce ++ (to_be_bytes 4 src_eid ++ (to_be_bytes 8 amount_ld ++ compose_msg))

unfoldable pub nonce : List ℕ → Result ℕ
nonce message = do
  nonce_bytes ← slice message nonce_offset src_eid_offset
  ok (from_be_bytes nonce_bytes)

unfoldable pub src_eid : List ℕ → Result ℕ
src_eid message = do
  src_eid_bytes ← slice message src_eid_offset amount_ld_offset
  ok (from_be_bytes src_eid_bytes)

unfoldable pub amount_ld : List ℕ → Result ℕ
amount_ld message = do
  amount_ld_bytes ← slice message amount_ld_offset compose_from_offset
  ok (from_be_bytes amount_ld_bytes)

unfoldable pub compose_from : List ℕ → Result (List ℕ)
compose_from message = slice message compose_from_offset compose_msg_offset

unfoldable pub compose_msg : List ℕ → List ℕ
compose_msg message =
    if ltb compose_msg_offset (length message) then drop compose_msg_offset message else []
