-- ===== src/EndpointMock/Registry.antt =====
-- The registry that register_oapp.rs of the endpoint mock leaves.
use cross_chain_contracts.Common.{
  ◌≡◌, refl, ap, [], ◌∷◌, ◌⊎◌, inl, inr, bytes_eq, bytes_eq→eq, bytes_eq_refl, ◌≢◌, Bool-cases,
}
use cross_chain_contracts.Errors.{ok, err, constraint, seeds}
use cross_chain_contracts.Platform.{Host}
use cross_chain_contracts.Platform.Cpi.{RegisterOappParams}
use cross_chain_contracts.Platform.Laws.{PdaLaws}
use cross_chain_contracts.Instructions.Accounts.{check_seeds}
use cross_chain_contracts.Instructions.Addresses.{check_seeds_lem}
use cross_chain_contracts.EndpointMock.{oapp_seed, OappRegistry, RegisterOappContext, register_oapp}

-- `register_oapp` refuses an account that is not at the address of the OApp's registry; for the one
-- that is, it succeeds, the registry names the delegate of the call, and its bump and address pass
-- the check of the same seeds.
pub register_oapp_lem :
    (h : Host) (pda : PdaLaws h) (c : RegisterOappContext) (params : RegisterOappParams)
    → let address = (h.find_program_address (oapp_seed ∷ c.oapp ∷ []) h.program_id).0 in
      ((address ≢ c.oapp_registry) × (register_oapp h c params ≡ err (constraint seeds)))
      ⊎ ((registry : OappRegistry) × (address ≡ c.oapp_registry)
          × (register_oapp h c params ≡ ok registry)
          × (registry.delegate ≡ params.delegate)
          × (check_seeds h (oapp_seed ∷ c.oapp ∷ []) registry.bump c.oapp_registry ≡ ok tt))
unfolding register_oapp
register_oapp_lem h pda c params =
    let found = h.find_program_address (oapp_seed ∷ c.oapp ∷ []) h.program_id in
    elim (Bool-cases (bytes_eq found.0 c.oapp_registry)) [
      | inr other ↦ inl (λ same. cc (ap (bytes_eq found.0) same, bytes_eq_refl found.0), rw other)
      | inl same ↦ inr (
        record { delegate = params.delegate; bump = found.1 },
        bytes_eq→eq found.0 c.oapp_registry same,
        rw same,
        refl,
        check_seeds_lem h pda (oapp_seed ∷ c.oapp ∷ []) found.1 c.oapp_registry same refl,
      )
    ]
