-- ===== src/Example.antt =====
-- A small platform: token balances, one mint whose transfer fee is 1% up to 5,000, an endpoint that
-- accepts everything. It instantiates the hypotheses of the theorems.
pub mod Keeps
pub mod Accounts
mod Transfers
mod Settings
mod Runs
mod Guards
mod Transits
mod Branches
mod Addresses
mod Supplies
mod Amounts
use cross_chain_contracts.Common.{
  ◌&&◌, ℕ, ◌+◌, ◌-◌, Bool, true, false, Option, none, some, List, [], ◌∷◌, ◌++◌, replicate, length,
  leb, ◌==◌, if◌then◌else◌, bytes_eq,
}
use cross_chain_contracts.Errors.{Result, ok, err, external}
use cross_chain_contracts.Words.{pos}
use cross_chain_contracts.State.RateLimiter.{Clock}
use cross_chain_contracts.Platform.{Host}
use cross_chain_contracts.Platform.Cpi.{
  TransferFee, TransferChecked, Burn, MintTo, MessagingReceipt, MessagingFee, Mint, LzAccount,
}
use cross_chain_contracts.Platform.Laws.{post_fee}
use cross_chain_contracts.Solvency.Laws.{Reading}

abbrev pub key : ℕ → List ℕ
key n = replicate 32 n

abbrev pub store_key : List ℕ
store_key = key 1

abbrev pub peer_key : List ℕ
peer_key = key 2

abbrev pub escrow_key : List ℕ
escrow_key = key 3

abbrev pub mint_key : List ℕ
mint_key = key 4

abbrev pub token_program_key : List ℕ
token_program_key = key 5

abbrev pub dest_key : List ℕ
dest_key = key 9

abbrev pub fee : TransferFee
fee = record { maximum_fee = 5_000; transfer_fee_basis_points = 100 }

abbrev pub Balances : Type 0
Balances = List ℕ → ℕ

-- A world is the balance of each account and the supply of the mint.
pub record State : Type 0 where
  pub balances : Balances
  pub supply : ℕ

unfoldable pub update : Balances → List ℕ → ℕ → Balances
update w k v i = if bytes_eq i k then v else w i

unfoldable pub transfer : TransferChecked → List (List ℕ) → ℕ → ℕ → State → Result State
transfer t seeds amount decimals w =
    if leb amount (w.balances t.from)
    then (let debited = update w.balances t.from (w.balances t.from - amount) in
        ok (record w { balances = update debited t.to (debited t.to + post_fee fee amount) }))
    else err external

unfoldable pub burn : Burn → ℕ → State → Result State
burn b amount w =
    if leb amount (w.balances b.from) && leb amount w.supply
    then ok (record {
      balances = update w.balances b.from (w.balances b.from - amount);
      supply = w.supply - amount;
    })
    else err external

unfoldable pub mint_to : MintTo → List (List ℕ) → ℕ → State → Result State
mint_to t seeds amount w = ok (record {
  balances = update w.balances t.account (w.balances t.account + amount);
  supply = w.supply + amount;
})

-- The store's address has seeds that begin with `OFT`, the peer's with `Peer`.
abbrev pub address_of : List (List ℕ) → List ℕ
address_of [] = peer_key
address_of (s ∷ ss) = if length s == 3 then store_key else peer_key

abbrev pub receipt : MessagingReceipt
receipt = record { guid = key 20; nonce = 1; fee = record { native_fee = 7; lz_token_fee = 0 } }

abbrev pub host : Host
host = record {
  World = State;
  program_id = key 11;
  endpoint_id = key 10;
  system_program_id = key 0;
  associated_token_id = key 16;
  lz_receive_types_seed = key 17;
  event_seed = key 18;
  clear_min_accounts_len = 2;
  create_program_address = λ seeds program. some (address_of seeds);
  find_program_address = λ seeds program. (address_of seeds, 255);
  emit_cpi = λ e w. ok w;
  MintState = List ℕ;
  TransferFeeConfig = Unit;
  unpack = λ bytes. ok bytes;
  get_extension = λ state. some tt;
  get_epoch_fee = λ config epoch. fee;
  calculate_post_fee_amount = λ f amount. some (post_fee f amount);
  transfer_checked = transfer;
  burn = burn;
  mint_to = mint_to;
  get_associated_token_address_with_program_id = λ wallet mint program. dest_key;
  init_associated_token_if_needed = λ payer wallet mint program w. ok w;
  combine_options = λ enforced extra. ok (enforced ++ extra);
  assert_type_3 = λ options. ok tt;
  register_oapp = λ endpoint store accounts seeds params w. ok w;
  set_delegate = λ endpoint store accounts seeds params w. ok w;
  quote = λ endpoint accounts params w. ok receipt.fee;
  send = λ endpoint store accounts seeds params w. ok (receipt, w);
  clear = λ endpoint store accounts seeds params w. ok w;
  send_compose = λ endpoint store accounts seeds params w. ok w;
  get_accounts_for_clear = λ endpoint store eid sender nonce. [];
  get_accounts_for_send_compose = λ endpoint store dest guid index message. [];
}

abbrev pub mint : Mint
mint = record {
  key = mint_key;
  token_program = token_program_key;
  mint_authority = none;
  decimals = 9;
  bytes = ok [];
}

abbrev pub clock : Result Clock
clock = ok (record { unix_timestamp = pos 1_000; epoch = 7 })

abbrev pub reading : Reading host
reading = record { balance = λ w k. w.balances k; mint_at = λ w k. some mint; clock = λ w. clock }
