-- ===== src/Example/Keeps.antt =====
-- The laws at the platform of the examples.
use cross_chain_contracts.Common.{
  [], ◌∷◌, ◌++◌, zero, suc, ◌<◌, All, replicate, length-replicate, ℕ, ◌+◌, ◌-◌, ◌≤◌, ◌≡◌, ◌≢◌, refl,
  arith, Bool, true, false, List, some, leb, bytes_eq, bytes_eq_refl, bytes_eq→eq, Bool-cases, inl,
  inr, sym, ap, subst, if◌then◌else◌,
}
use cross_chain_contracts.Errors.{Result, Error, external, ok, err, ok-injective}
use cross_chain_contracts.Platform.Cpi.{TransferChecked, Mint, MintTo, MessagingReceipt}
use cross_chain_contracts.Words.{IsByte, IsArray}
use cross_chain_contracts.Platform.Laws.{PdaLaws, IsFee, FeeLaws, post_fee}
use cross_chain_contracts.Fees.{get_post_fee_amount_ld}
use cross_chain_contracts.Solvency.Laws.{TokenLaws, CallLaws}
use cross_chain_contracts.Example.{
  escrow_key, State, address_of, key, Balances, fee, update, transfer, mint_to, host, reading, mint,
  clock,
}
use native.Mathlib.Nat.{le_refl}

fee-IsFee : IsFee fee
fee-IsFee = omega arith

pub fee_laws : FeeLaws host
fee_laws = record {
  epoch_fee = λ config epoch. fee-IsFee;
  post_fee_amount = λ f amount good fits. refl;
}

bytes_eq-ne : (i k : List ℕ) → i ≢ k → bytes_eq i k ≡ false
bytes_eq-ne i k ne = elim (Bool-cases (bytes_eq i k)) [
  | inl same ↦ absurd (ne (bytes_eq→eq i k same))
  | inr other ↦ other
]

update-same : (w : Balances) (k : List ℕ) (v : ℕ) → update w k v k ≡ v
unfolding update
update-same w k v = rw (bytes_eq_refl k) refl

update-other : (w : Balances) (k i : List ℕ) (v : ℕ) → i ≢ k → update w k v i ≡ w i
unfolding update
update-other w k i v ne = rw (bytes_eq-ne i k ne) refl

update-raises : (w : Balances) (k i : List ℕ) (v : ℕ) → w k ≤ v → w i ≤ update w k v i
unfolding update
update-raises w k i v up = elim (Bool-cases (bytes_eq i k)) [
  | inl same ↦ rw same (rw (bytes_eq→eq i k same) up)
  | inr other ↦ rw other (le_refl (w i))
]

pub if-ok :
    (b : Bool) (e : Error) {x y : State} → (if b then ok x else err e) ≡ ok y → (b ≡ true) × (y ≡ x)
if-ok true e h = (refl, sym (ok-injective h))
if-ok false e h = cc

pub leb→le : (a b : ℕ) → leb a b ≡ true → a ≤ b
leb→le a b h = ground arith

transfer_debits_lem :
    (t : TransferChecked) (seeds : List (List ℕ)) (amount decimals : ℕ) (w : State) {w' : State}
    → transfer t seeds amount decimals w ≡ ok w'
    → w.balances t.from ≤ w'.balances t.from + amount
unfolding transfer
transfer_debits_lem t seeds amount decimals w {w'} e =
    let (b, same) = if-ok (leb amount (w.balances t.from)) external e in
    let debited = update w.balances t.from (w.balances t.from - amount) in
    omega (
      arith,
      leb→le amount (w.balances t.from) b,
      ap (λ (x : State). x.balances t.from) same,
      update-same w.balances t.from (w.balances t.from - amount),
      update-raises debited t.to t.from (debited t.to + post_fee fee amount) (omega arith),
    )

transfer_credits_lem :
    (t : TransferChecked) (seeds : List (List ℕ)) (amount decimals arrived : ℕ) (w : State)
    {w' : State} {m : Mint}
    → transfer t seeds amount decimals w ≡ ok w'
    → some mint ≡ some m
    → t.from ≢ t.to
    → get_post_fee_amount_ld host clock m amount ≡ ok arrived
    → w'.balances t.to ≡ w.balances t.to + arrived
unfolding transfer get_post_fee_amount_ld
transfer_credits_lem t seeds amount decimals arrived w {w'} {m} e loaded ne fits =
    let (b, same) = if-ok (leb amount (w.balances t.from)) external e in
    let debited = update w.balances t.from (w.balances t.from - amount) in
    let is_mint : mint ≡ m = cc in
    let arrives : post_fee fee amount ≡ arrived = ok-injective (
      subst (λ (x : Mint). get_post_fee_amount_ld host clock x amount ≡ ok arrived) (sym is_mint)
        fits) in
    omega (
      arith,
      arrives,
      ap (λ (x : State). x.balances t.to) same,
      update-other w.balances t.from t.to (w.balances t.from - amount) (λ q. ne (sym q)),
      update-same debited t.to (debited t.to + post_fee fee amount),
    )

pub token_laws : TokenLaws host reading
token_laws = record {
  transfer_debits = transfer_debits_lem _ _ _ _ _;
  transfer_credits = transfer_credits_lem _ _ _ _ _ _;
}

mint_keeps_lem :
    (t : MintTo) (seeds : List (List ℕ)) (amount : ℕ) (w : State) {w' : State}
    → mint_to t seeds amount w ≡ ok w'
    → (key : List ℕ) → w.balances key ≤ w'.balances key
unfolding mint_to
mint_keeps_lem t seeds amount w e key = omega (
  arith,
  ap (λ (x : State). x.balances key) (ok-injective e),
  update-raises w.balances t.account key (w.balances t.account + amount) (omega arith),
)

kept : {w w' : State} → ok w ≡ ok w' → (key : List ℕ) → w.balances key ≤ w'.balances key
kept e key = omega (arith, ap (λ (x : State). x.balances key) (ok-injective e))

sent_kept :
    {r r' : MessagingReceipt} {w w' : State}
    → ◌≡◌ {A = Result (MessagingReceipt × State)} (ok (r, w)) (ok (r', w'))
    → (key : List ℕ) → w.balances key ≤ w'.balances key
sent_kept e key =
    omega (arith, ap (λ (x : MessagingReceipt × State). x.1.balances key) (ok-injective e))

pub call_laws : CallLaws host reading escrow_key
call_laws = record {
  mint_keeps = λ e. mint_keeps_lem _ _ _ _ e escrow_key;
  init_keeps = λ e. kept e escrow_key;
  emit_keeps = λ e. kept e escrow_key;
  send_keeps = λ e. sent_kept e escrow_key;
  clear_keeps = λ e. kept e escrow_key;
  compose_keeps = λ e. kept e escrow_key;
  delegate_keeps = λ e. kept e escrow_key;
}

-- A key is 32 bytes.
replicate-IsByte : (n b : ℕ) → b < 256 → All IsByte (replicate n b)
replicate-IsByte zero b h = tt
replicate-IsByte (suc n) b h = (h, replicate-IsByte n b h)

pub key-IsArray : (b : ℕ) → b < 256 → IsArray 32 (key b)
key-IsArray b h = (length-replicate {0} {A = ℕ} 32 b, replicate-IsByte 32 b h)

found_lem :
    (parts : List (List ℕ)) (program : List ℕ)
    → some (address_of (parts ++ (255 ∷ []) ∷ [])) ≡ some (address_of parts)
found_lem [] program = refl
found_lem (s ∷ ss) program = refl

pub pda_laws : PdaLaws host
pda_laws = record { found = found_lem }
