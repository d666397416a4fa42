-- ===== src/Instructions/Accounts.antt =====
-- The account attributes of instructions/: the tests that Anchor makes of them, in their order.
use cross_chain_contracts.Common.{ℕ, Bool, false, Option, none, some, List, [], ◌∷◌, ◌++◌, bytes_eq}
use cross_chain_contracts.Errors.{
  Result, constraint, seeds, address, token_owner, token_mint, token_token_program,
  mint_token_program, require, ◌>>◌,
}
use cross_chain_contracts.Words.{to_be_bytes}
use cross_chain_contracts.State.OftStore.{OftStore}
use cross_chain_contracts.State.PeerConfig.{PeerConfig}
use cross_chain_contracts.Platform.{Host}
use cross_chain_contracts.Platform.Cpi.{Account, TokenAccount, Mint}

-- b"OFT" and b"Peer"
abbrev pub oft_seed : List ℕ
oft_seed = b'O' ∷ b'F' ∷ b'T' ∷ []

abbrev pub peer_seed : List ℕ
peer_seed = b'P' ∷ b'e' ∷ b'e' ∷ b'r' ∷ []

-- `[OFT_SEED, token_escrow]`, and with the bump the seeds that the store signs with.
abbrev pub store_seeds : List ℕ → List (List ℕ)
store_seeds token_escrow = oft_seed ∷ token_escrow ∷ []

abbrev pub signer_seeds : List ℕ → ℕ → List (List ℕ)
signer_seeds token_escrow bump = oft_seed ∷ token_escrow ∷ (bump ∷ []) ∷ []

-- `[PEER_SEED, oft_store, eid]`
abbrev pub peer_seeds : List ℕ → ℕ → List (List ℕ)
peer_seeds oft_store eid = peer_seed ∷ oft_store ∷ to_be_bytes 4 eid ∷ []

-- `a == Some(key)`
abbrev pub is_key : Option (List ℕ) → List ℕ → Bool
is_key none key = false
is_key (some k) key = bytes_eq k key

-- `address = expected`
unfoldable pub check_address : List ℕ → List ℕ → Result (Unit {0})
check_address key expected = require (bytes_eq key expected) (constraint address)

-- `token::authority`, `token::mint` and `token::token_program`
unfoldable pub check_token : TokenAccount → List ℕ → List ℕ → List ℕ → Result (Unit {0})
check_token account authority mint token_program = do
  require (bytes_eq account.owner authority) (constraint token_owner)
  require (bytes_eq account.mint mint) (constraint token_mint)
  require (bytes_eq account.token_program token_program) (constraint token_token_program)

-- `mint::token_program`
unfoldable pub check_mint_program : Mint → List ℕ → Result (Unit {0})
check_mint_program mint token_program =
    require (bytes_eq mint.token_program token_program) (constraint mint_token_program)

module _ (h : Host) where
  -- `seeds = [...], bump = bump`
  unfoldable pub check_seeds : List (List ℕ) → ℕ → List ℕ → Result (Unit {0})
  check_seeds parts bump key =
      require (is_key (h.create_program_address (parts ++ (bump ∷ []) ∷ []) h.program_id) key)
        (constraint seeds)

  unfoldable pub check_store : Account OftStore → Result (Unit {0})
  check_store s = check_seeds (store_seeds s.value.token_escrow) s.value.bump s.key

  unfoldable pub check_peer : Account PeerConfig → Account OftStore → ℕ → Result (Unit {0})
  check_peer p s eid = check_seeds (peer_seeds s.key eid) p.value.bump p.key
