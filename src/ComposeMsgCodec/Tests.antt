-- ===== src/ComposeMsgCodec/Tests.antt =====
-- A message of compose_msg_codec.rs, and the round trip at it.
use cross_chain_contracts.Common.{ℕ, ◌≡◌, refl, List, [], ◌∷◌, ◌++◌, replicate, arith}
use cross_chain_contracts.Errors.{ok}
use cross_chain_contracts.Words.{to_be_bytes}
use cross_chain_contracts.ComposeMsgCodec.{
  encode, nonce, src_eid, amount_ld, compose_from, compose_msg,
}
use cross_chain_contracts.ComposeMsgCodec.RoundTrip.{decode-encode}

abbrev from : List ℕ
from = replicate 32 2

encode_header :
    encode 1 258 3 []
    ≡ 0 ∷ 0 ∷ 0 ∷ 0 ∷ 0 ∷ 0 ∷ 0 ∷ 1 ∷ 0 ∷ 0 ∷ 1 ∷ 2 ∷ 0 ∷ 0 ∷ 0 ∷ 0 ∷ 0 ∷ 0 ∷ 0 ∷ 3 ∷ []
unfolding encode to_be_bytes
encode_header = refl

decode-encode_example :
    (nonce (encode 1 258 3 (from ++ (9 ∷ []))) ≡ ok 1)
    × (src_eid (encode 1 258 3 (from ++ (9 ∷ []))) ≡ ok 258)
    × (amount_ld (encode 1 258 3 (from ++ (9 ∷ []))) ≡ ok 3)
    × (compose_from (encode 1 258 3 (from ++ (9 ∷ []))) ≡ ok from)
    × (compose_msg (encode 1 258 3 (from ++ (9 ∷ []))) ≡ 9 ∷ [])
decode-encode_example =
    decode-encode 1 258 3 from (9 ∷ []) (omega arith) (omega arith) (omega arith)
      (refl, omega arith)
