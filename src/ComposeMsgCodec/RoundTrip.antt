-- ===== src/ComposeMsgCodec/RoundTrip.antt =====
-- The decoders of compose_msg_codec.rs on what its `encode` makes.
use cross_chain_contracts.Common.{
  drop_all, Bool-cases, inl, inr, if◌then◌else◌, ℕ, ◌≡◌, refl, sym, ◌∙◌, subst, List, [], ◌++◌,
  length, drop, arith, length-append, append_assoc, drop-append, ltb,
}
use cross_chain_contracts.Errors.{ok}
use cross_chain_contracts.Words.{IsArray, IsU32, IsU64, to_be_bytes}
use cross_chain_contracts.Words.Bytes.{length-to_be_bytes, from_be_bytes-to_be_bytes, slice-append}
use cross_chain_contracts.ComposeMsgCodec.{
  encode, nonce, src_eid, amount_ld, compose_from, compose_msg,
}

-- The guard of `compose_msg` changes nothing: behind the end there is nothing to drop.
drop_guarded : (m : List ℕ) (k : ℕ) → (if ltb k (length m) then drop k m else []) ≡ drop k m
drop_guarded m k = elim (Bool-cases (ltb k (length m))) [
  | inl more ↦ rw more
  | inr end ↦ rw end (sym (drop_all m k (ground arith)))
]

module _ (n eid amount : ℕ) (from msg : List ℕ) where
  abbrev message : List ℕ
  message = encode n eid amount (from ++ msg)

  -- The message with its parts bracketed to the left, up to the one that is read.
  by_eid :
      message ≡ to_be_bytes 8 n ++ (to_be_bytes 4 eid ++ (to_be_bytes 8 amount ++ (from ++ msg)))
  unfolding encode
  by_eid = refl

  by_amount :
      message ≡ (to_be_bytes 8 n ++ to_be_bytes 4 eid) ++ (to_be_bytes 8 amount ++ (from ++ msg))
  unfolding encode
  by_amount = sym (append_assoc (to_be_bytes 8 n) (to_be_bytes 4 eid) _)

  by_from :
      message ≡ ((to_be_bytes 8 n ++ to_be_bytes 4 eid) ++ to_be_bytes 8 amount) ++ (from ++ msg)
  by_from = by_amount ∙ sym (append_assoc _ (to_be_bytes 8 amount) (from ++ msg))

  by_msg :
      message ≡ (((to_be_bytes 8 n ++ to_be_bytes 4 eid) ++ to_be_bytes 8 amount) ++ from) ++ msg
  by_msg = by_from ∙ sym (append_assoc _ from msg)

  header_size : length (to_be_bytes 8 n ++ to_be_bytes 4 eid) ≡ 12
  header_size = omega (
    arith,
    length-append {0} (to_be_bytes 8 n) (to_be_bytes 4 eid),
    length-to_be_bytes 8 n,
    length-to_be_bytes 4 eid,
  )

  front_size : length ((to_be_bytes 8 n ++ to_be_bytes 4 eid) ++ to_be_bytes 8 amount) ≡ 20
  front_size = omega (
    arith,
    header_size,
    length-append {0} (to_be_bytes 8 n ++ to_be_bytes 4 eid) (to_be_bytes 8 amount),
    length-to_be_bytes 8 amount,
  )

  nonce-encode : IsU64 n → nonce message ≡ ok n
  unfolding nonce
  nonce-encode h = rw (
    by_eid,
    slice-append [] (to_be_bytes 8 n) _ 0 8 refl (omega (arith, length-to_be_bytes 8 n)),
    from_be_bytes-to_be_bytes 8 n h,
  )

  src_eid-encode : IsU32 eid → src_eid message ≡ ok eid
  unfolding src_eid
  src_eid-encode h = rw (
    by_eid,
    slice-append (to_be_bytes 8 n) (to_be_bytes 4 eid) _ 8 12
        (omega (arith, length-to_be_bytes 8 n))
        (omega (arith, length-to_be_bytes 8 n, length-to_be_bytes 4 eid)),
    from_be_bytes-to_be_bytes 4 eid h,
  )

  amount_ld-encode : IsU64 amount → amount_ld message ≡ ok amount
  unfolding amount_ld
  amount_ld-encode h = rw (
    by_amount,
    slice-append (to_be_bytes 8 n ++ to_be_bytes 4 eid) (to_be_bytes 8 amount) _ 12 20
        (omega (arith, header_size)) (omega (arith, header_size, length-to_be_bytes 8 amount)),
    from_be_bytes-to_be_bytes 8 amount h,
  )

  compose_from-encode : IsArray 32 from → compose_from message ≡ ok from
  unfolding compose_from
  compose_from-encode h = rw (
    by_from,
    slice-append ((to_be_bytes 8 n ++ to_be_bytes 4 eid) ++ to_be_bytes 8 amount) from msg 20 52
        (omega (arith, front_size)) (omega (arith, front_size)),
  )

  compose_msg-encode : IsArray 32 from → compose_msg message ≡ msg
  unfolding compose_msg
  compose_msg-encode h =
      let front : List ℕ = (to_be_bytes 8 n ++ to_be_bytes 4 eid) ++ to_be_bytes 8 amount in
      let size : length (front ++ from) ≡ 52 =
        omega (arith, front_size, length-append {0} front from) in
      let rest : drop 52 message ≡ msg = rw by_msg (
        subst (λ (k : ℕ). drop k ((front ++ from) ++ msg) ≡ msg) size
          (drop-append (front ++ from) msg)) in
      drop_guarded message 52 ∙ rest

-- For a u64 nonce and amount, a u32 endpoint id and a sender of 32 bytes, each decoder reads back
-- the part that was encoded, the composed message too.
pub decode-encode :
    (n eid amount : ℕ) (from msg : List ℕ)
    → IsU64 n
    → IsU32 eid
    → IsU64 amount
    → IsArray 32 from
    → let m = encode n eid amount (from ++ msg) in
      (nonce m ≡ ok n)
      × (src_eid m ≡ ok eid)
      × (amount_ld m ≡ ok amount)
      × (compose_from m ≡ ok from)
      × (compose_msg m ≡ msg)
decode-encode n eid amount from msg hn he ha hf = (
  nonce-encode n eid amount from msg hn,
  src_eid-encode n eid amount from msg he,
  amount_ld-encode n eid amount from msg ha,
  compose_from-encode n eid amount from msg hf,
  compose_msg-encode n eid amount from msg hf,
)
