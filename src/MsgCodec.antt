-- ===== src/MsgCodec.antt =====
-- msg_codec.rs: the message that goes over the wire,
-- [send_to: 32][amount_sd: 8] and, when composed, [sender: 32][compose_msg].
pub mod RoundTrip
pub mod Decode
mod Tests
use cross_chain_contracts.Common.{
  ℕ, Option, none, some, List, ◌++◌, length, drop, ltb, if◌then◌else◌,
}
use cross_chain_contracts.Errors.{Result, ok, ◌>>=◌}
use cross_chain_contracts.Words.{to_be_bytes, from_be_bytes, slice, slice_from}

abbrev pub send_to_offset : ℕ
send_to_offset = 0

abbrev pub send_amount_sd_offset : ℕ
send_amount_sd_offset = 32

abbrev pub compose_msg_offset : ℕ
compose_msg_offset = 40

unfoldable pub encode : List ℕ → ℕ → List ℕ → Option (List ℕ) → List ℕ
encode send_to amount_sd sender (some msg) = send_to ++ (to_be_bytes 8 amount_sd ++ (sender ++ msg))
encode send_to amount_sd sender none = send_to ++ to_be_bytes 8 amount_sd

-- The slice's length is the array's, so `copy_from_slice` does not panic.
unfoldable pub send_to : List ℕ → Result (List ℕ)
send_to message = slice message send_to_offset send_amount_sd_offset

unfoldable pub amount_sd : List ℕ → Result ℕ
amount_sd message = do
  amount_sd_bytes ← slice message send_amount_sd_offset compose_msg_offset
  ok (from_be_bytes amount_sd_bytes)

-- The slice of `message[COMPOSE_MSG_OFFSET..]` stands under the test that it is in range.
unfoldable pub compose_msg : List ℕ → Option (List ℕ)
compose_msg message =
    if ltb compose_msg_offset (length message) then some (drop compose_msg_offset message) else none
