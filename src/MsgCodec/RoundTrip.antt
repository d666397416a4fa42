-- ===== src/MsgCodec/RoundTrip.antt =====
-- The decoders of msg_codec.rs on what its `encode` makes.
use cross_chain_contracts.Common.{
  ℕ, ◌+◌, ◌≡◌, refl, sym, ap, Option, none, some, List, [], ◌++◌, length, drop, arith,
  length-append, append_assoc, append-nil, drop-append, subst,
}
use cross_chain_contracts.Errors.{ok}
use cross_chain_contracts.Words.{IsArray, IsU64, to_be_bytes}
use cross_chain_contracts.Words.Bytes.{length-to_be_bytes, from_be_bytes-to_be_bytes, slice-append}
use cross_chain_contracts.MsgCodec.{encode, send_to, amount_sd, compose_msg}
use mathlib.Core.Option

-- What follows the first 40 bytes.
abbrev pub tail : List ℕ → Option (List ℕ) → List ℕ
tail sender none = []
tail sender (some msg) = sender ++ msg

pub encode_shape :
    (to : List ℕ) (amount : ℕ) (sender : List ℕ) (compose : Option (List ℕ))
    → encode to amount sender compose ≡ to ++ (to_be_bytes 8 amount ++ tail sender compose)
unfolding encode
encode_shape to amount sender none = ap (λ (l : List ℕ). to ++ l) (sym (append-nil _))
encode_shape to amount sender (some msg) = refl

module _ (to : List ℕ) (amount : ℕ) (sender : List ℕ) (compose : Option (List ℕ))
    (to_size : IsArray 32 to) where
  pub send_to-encode : send_to (encode to amount sender compose) ≡ ok to
  unfolding send_to
  send_to-encode =
      rw (encode_shape to amount sender compose)
        (slice-append [] to (to_be_bytes 8 amount ++ tail sender compose) 0 32 refl (omega arith))

  pub amount_sd-encode : IsU64 amount → amount_sd (encode to amount sender compose) ≡ ok amount
  unfolding amount_sd
  amount_sd-encode fits = rw (
    encode_shape to amount sender compose,
    slice-append to (to_be_bytes 8 amount) (tail sender compose) 32 40 (omega arith)
        (omega (arith, length-to_be_bytes 8 amount)),
    from_be_bytes-to_be_bytes 8 amount fits,
  )

  pub length-encode : length (encode to amount sender compose) ≡ 40 + length (tail sender compose)
  length-encode = rw (encode_shape to amount sender compose) (
      omega (
        arith,
        length-append {0} to (to_be_bytes 8 amount ++ tail sender compose),
        length-append {0} (to_be_bytes 8 amount) (tail sender compose),
        length-to_be_bytes 8 amount,
      ))

  drop-encode : drop 40 (encode to amount sender compose) ≡ tail sender compose
  drop-encode =
      let header : List ℕ = to ++ to_be_bytes 8 amount in
      let size : length header ≡ 40 =
        omega (arith, length-append {0} to (to_be_bytes 8 amount), length-to_be_bytes 8 amount) in
      rw
        (
          encode_shape to amount sender compose,
          ← append_assoc to (to_be_bytes 8 amount) (tail sender compose),
        )
        (subst (λ (k : ℕ). drop k (header ++ tail sender compose) ≡ tail sender compose) size
          (drop-append header (tail sender compose)))

-- What `compose_msg` reads of an encoding: nothing of a plain message, and of a composed one the
-- sender's 32 bytes followed by the message.
pub compose_msg-encode :
    (to : List ℕ) (amount : ℕ) (sender : List ℕ) (compose : Option (List ℕ))
    → IsArray 32 to
    → IsArray 32 sender
    → compose_msg (encode to amount sender compose) ≡ Option.map (λ msg. sender ++ msg) compose
unfolding compose_msg
compose_msg-encode to amount sender none ht hs =
    ground (arith, length-encode to amount sender none ht)
compose_msg-encode to amount sender (some msg) ht hs = ground (
  arith,
  length-encode to amount sender (some msg) ht,
  drop-encode to amount sender (some msg) ht,
  length-append {0} sender msg,
)

-- For a recipient and a sender of 32 bytes and a u64 amount, the three decoders read back what
-- `encode` wrote: the recipient, the amount, and nothing of a plain message or the sender followed
-- by the message of a composed one.
pub decoders-encode :
    (to : List ℕ) (amount : ℕ) (sender : List ℕ) (compose : Option (List ℕ))
    → IsArray 32 to
    → IsU64 amount
    → IsArray 32 sender
    → let m = encode to amount sender compose in
      (send_to m ≡ ok to)
      × (amount_sd m ≡ ok amount)
      × (compose_msg m ≡ Option.map (λ msg. sender ++ msg) compose)
decoders-encode to amount sender compose to_size fits sender_size = (
  send_to-encode to amount sender compose to_size,
  amount_sd-encode to amount sender compose to_size fits,
  compose_msg-encode to amount sender compose to_size sender_size,
)
