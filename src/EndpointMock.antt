-- ===== src/EndpointMock.antt =====
-- programs/endpoint-mock: the stand-in for the endpoint, which registers an OApp's delegate.
pub mod Registry
use cross_chain_contracts.Common.{ℕ, List, [], ◌∷◌, bytes_eq}
use cross_chain_contracts.Errors.{Result, ok, constraint, seeds, require, ◌>>◌}
use cross_chain_contracts.Platform.{Host}
use cross_chain_contracts.Platform.Cpi.{RegisterOappParams}

-- b"OApp"
abbrev pub oapp_seed : List ℕ
oapp_seed = b'O' ∷ b'A' ∷ b'p' ∷ b'p' ∷ []

pub record OappRegistry : Type 0 where
  pub delegate : List ℕ
  pub bump : ℕ

-- `Context<RegisterOApp>`; `oapp_registry` is made by Anchor's `init`.
pub record RegisterOappContext : Type 0 where
  pub payer : List ℕ
  pub oapp : List ℕ
  pub oapp_registry : List ℕ

-- The instruction `register_oapp`.
unfoldable pub register_oapp : Host → RegisterOappContext → RegisterOappParams → Result OappRegistry
register_oapp h c params =
    let (address, found_bump) = h.find_program_address (oapp_seed ∷ c.oapp ∷ []) h.program_id in
    do
      require (bytes_eq address c.oapp_registry) (constraint seeds)
      ok (record { delegate = params.delegate; bump = found_bump })
