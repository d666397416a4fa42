-- ===== src/MsgCodec/Decode.antt =====
-- The decoders of msg_codec.rs on messages that need not be encodings.
use cross_chain_contracts.Common.{
  drop_all, ℕ, lt→ltb, ◌≤◌, ◌<◌, ◌≡◌, sym, ap, ◌∙◌, none, some, List, [], ◌++◌, length, take, drop,
  arith, All, All-take, All-drop, length-take, length-drop, drop-drop, take-append-drop, le→leb,
  append-nil, ◌↔◌,
}
use cross_chain_contracts.Errors.{ok, panic}
use cross_chain_contracts.Words.{IsArray, IsByte, IsU64, from_be_bytes, slice}
use cross_chain_contracts.Words.Bytes.{to_be_bytes-from_be_bytes, from_be_bytes-lt}
use cross_chain_contracts.MsgCodec.{encode, send_to, amount_sd, compose_msg}

-- The three parts of a message: bytes 0 to 32, bytes 32 to 40, and the rest.
abbrev to_part : List ℕ → List ℕ
to_part m = take 32 m

abbrev amount_part : List ℕ → List ℕ
amount_part m = take 8 (drop 32 m)

to_part-IsArray : (m : List ℕ) → All IsByte m → 32 ≤ length m → IsArray 32 (to_part m)
to_part-IsArray m bytes h = (omega (arith, length-take {0} 32 m), All-take IsByte 32 m bytes)

amount_part-IsArray : (m : List ℕ) → All IsByte m → 40 ≤ length m → IsArray 8 (amount_part m)
amount_part-IsArray m bytes h = (
  omega (arith, length-take {0} 8 (drop 32 m), length-drop {0} 32 m),
  All-take IsByte 8 (drop 32 m) (All-drop IsByte 32 m bytes),
)

split_message : (m : List ℕ) → m ≡ to_part m ++ (amount_part m ++ drop 40 m)
split_message m =
    sym (take-append-drop 32 m)
    ∙ ap (λ (l : List ℕ). to_part m ++ l)
        (sym (take-append-drop 8 (drop 32 m))
          ∙ ap (λ (l : List ℕ). amount_part m ++ l) (drop-drop 32 8 m))

send_to_lem : (m : List ℕ) → 32 ≤ length m → send_to m ≡ ok (to_part m)
unfolding send_to slice
send_to_lem m h = rw (le→leb 32 (length m) h)

amount_sd_lem : (m : List ℕ) → 40 ≤ length m → amount_sd m ≡ ok (from_be_bytes (amount_part m))
unfolding amount_sd slice
amount_sd_lem m h = rw (le→leb 40 (length m) h)

compose_msg_lem : (m : List ℕ) → 40 < length m → compose_msg m ≡ some (drop 40 m)
unfolding compose_msg
compose_msg_lem m h = rw (lt→ltb 40 (length m) h)

-- A message of exactly 40 bytes (each below 256) is the plain encoding of what the decoders read of
-- it, whatever sender is passed to `encode`, and nothing is composed.
pub encode-decode_plain :
    (m sender : List ℕ)
    → All IsByte m
    → length m ≡ 40
    → (to : List ℕ) × (amount : ℕ) × (send_to m ≡ ok to)
      × (amount_sd m ≡ ok amount)
      × (compose_msg m ≡ none)
      × IsU64 amount
      × (encode to amount sender none ≡ m)
unfolding encode compose_msg
encode-decode_plain m sender bytes h =
    let nothing_left : drop 40 m ≡ [] = drop_all m 40 (omega arith) in
    let amount_array = amount_part-IsArray m bytes (omega arith) in
    (
      to_part m,
      from_be_bytes (amount_part m),
      send_to_lem m (omega arith),
      amount_sd_lem m (omega arith),
      ground arith,
      from_be_bytes-lt 8 (amount_part m) amount_array,
      rw (to_be_bytes-from_be_bytes 8 (amount_part m) amount_array) (
          ap (λ (l : List ℕ). to_part m ++ l)
            (sym (append-nil (amount_part m))
              ∙ ap (λ (l : List ℕ). amount_part m ++ l) (sym nothing_left))
          ∙ sym (split_message m)),
    )

-- A message of 72 bytes or more (each below 256) is the composed encoding of what the decoders read
-- of it: its bytes 40 to 72 are the sender, and the composed message is all from byte 40 on.
pub encode-decode_composed :
    (m : List ℕ)
    → All IsByte m
    → 72 ≤ length m
    → (to : List ℕ) × (amount : ℕ) × (sender : List ℕ) × (msg : List ℕ) × (send_to m ≡ ok to)
      × (amount_sd m ≡ ok amount)
      × (compose_msg m ≡ some (sender ++ msg))
      × IsArray 32 sender
      × IsU64 amount
      × (encode to amount sender (some msg) ≡ m)
unfolding encode compose_msg
encode-decode_composed m bytes h =
    let amount_array = amount_part-IsArray m bytes (omega arith) in
    let rest : take 32 (drop 40 m) ++ drop 72 m ≡ drop 40 m =
      ap (λ (l : List ℕ). take 32 (drop 40 m) ++ l) (sym (drop-drop 40 32 m))
      ∙ take-append-drop 32 (drop 40 m) in
    (
      to_part m,
      from_be_bytes (amount_part m),
      take 32 (drop 40 m),
      drop 72 m,
      send_to_lem m (omega arith),
      amount_sd_lem m (omega arith),
      rw rest (compose_msg_lem m (omega arith)),
      (
        omega (arith, length-take {0} 32 (drop 40 m), length-drop {0} 40 m),
        All-take IsByte 32 (drop 40 m) (All-drop IsByte 40 m bytes),
      ),
      from_be_bytes-lt 8 (amount_part m) amount_array,
      rw (to_be_bytes-from_be_bytes 8 (amount_part m) amount_array, rest) (sym (split_message m)),
    )

-- The decoders of the fixed fields panic exactly on the messages that are too short for them.
pub decode_short :
    (m : List ℕ)
    → ((send_to m ≡ panic) ↔ (length m < 32)) × ((amount_sd m ≡ panic) ↔ (length m < 40))
unfolding send_to amount_sd slice
decode_short m = ground arith
