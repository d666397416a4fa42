-- ===== src/MsgCodec/Tests.antt =====
-- Messages of msg_codec.rs, and the theorems on them at concrete messages.
use cross_chain_contracts.Common.{
  ℕ, ◌≡◌, ◌<◌, ◌↔◌, refl, none, some, List, [], ◌∷◌, ◌++◌, replicate, arith,
}
use cross_chain_contracts.Errors.{ok, panic}
use cross_chain_contracts.Words.{IsArray, IsU64, to_be_bytes}
use cross_chain_contracts.MsgCodec.{encode, send_to, amount_sd, compose_msg}
use cross_chain_contracts.MsgCodec.RoundTrip.{decoders-encode}
use cross_chain_contracts.MsgCodec.Decode.{
  encode-decode_plain, encode-decode_composed, decode_short,
}

abbrev recipient : List ℕ
recipient = replicate 32 1

abbrev sender : List ℕ
sender = replicate 32 2

recipient-IsArray : IsArray 32 recipient
recipient-IsArray = (refl, omega arith)

sender-IsArray : IsArray 32 sender
sender-IsArray = (refl, omega arith)

abbrev plain : List ℕ
plain = recipient ++ (0 ∷ 0 ∷ 0 ∷ 0 ∷ 0 ∷ 0 ∷ 1 ∷ 2 ∷ [])

abbrev composed : List ℕ
composed = plain ++ (sender ++ (7 ∷ 8 ∷ []))

encode-plain : encode recipient 258 sender none ≡ plain
unfolding encode to_be_bytes
encode-plain = refl

encode-composed : encode recipient 258 sender (some (7 ∷ 8 ∷ [])) ≡ composed
unfolding encode to_be_bytes
encode-composed = refl

decoders-encode_example :
    (send_to (encode recipient 258 sender (some (7 ∷ []))) ≡ ok recipient)
    × (amount_sd (encode recipient 258 sender (some (7 ∷ []))) ≡ ok 258)
    × (compose_msg (encode recipient 258 sender (some (7 ∷ []))) ≡ some (sender ++ (7 ∷ [])))
decoders-encode_example =
    decoders-encode recipient 258 sender (some (7 ∷ [])) recipient-IsArray (omega arith)
      sender-IsArray

encode-decode_plain_example :
    (to : List ℕ) × (amount : ℕ) × (send_to plain ≡ ok to)
    × (amount_sd plain ≡ ok amount)
    × (compose_msg plain ≡ none)
    × IsU64 amount
    × (encode to amount sender none ≡ plain)
encode-decode_plain_example = encode-decode_plain plain sender (omega arith) refl

encode-decode_composed_example :
    (to : List ℕ) × (amount : ℕ) × (from : List ℕ) × (msg : List ℕ) × (send_to composed ≡ ok to)
    × (amount_sd composed ≡ ok amount)
    × (compose_msg composed ≡ some (from ++ msg))
    × IsArray 32 from
    × IsU64 amount
    × (encode to amount from (some msg) ≡ composed)
encode-decode_composed_example = encode-decode_composed composed (omega arith) (omega arith)

decode_short_example :
    ((send_to recipient ≡ panic) ↔ (32 < 32)) × ((amount_sd recipient ≡ panic) ↔ (32 < 40))
decode_short_example = decode_short recipient
