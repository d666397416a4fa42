-- ===== src/Example/Addresses.antt =====
-- The theorems on addresses and on the price of a transfer, at the accounts of the examples.
use cross_chain_contracts.EndpointMock.{oapp_seed, OappRegistry, RegisterOappContext, register_oapp}
use cross_chain_contracts.EndpointMock.Registry.{register_oapp_lem}
use cross_chain_contracts.Common.{
  ◌∷◌, ◌≢◌, ◌⊎◌, ℕ, ◌≡◌, refl, true, false, some, List, [], get_elem?,
}
use cross_chain_contracts.Errors.{ok, err, constraint, seeds}
use cross_chain_contracts.State.PeerConfig.{combine_options}
use cross_chain_contracts.Instructions.Accounts.{check_seeds, check_store, check_peer}
use cross_chain_contracts.Instructions.Addresses.{set_peer_config-check_peer, init_oft-check_store}
use cross_chain_contracts.Instructions.LzReceiveTypes.{account, fixed_accounts}
use cross_chain_contracts.Instructions.Quote as Quote
use cross_chain_contracts.Instructions.Quote.Price.{quote_send-send}
use cross_chain_contracts.Example.{host, clock, key, store_key, peer_key}
use cross_chain_contracts.Example.Keeps.{pda_laws}
use cross_chain_contracts.Example.Accounts.{
  admin, bob, peer, store, store_account, world, send_context, send_params, quote_context,
  quote_request, types_context, peer_context, receive_params,
}
use cross_chain_contracts.Example.Transfers.{quote_checked, send_run}
use cross_chain_contracts.Example.Settings.{
  limit_params, limited_peer, peer_run, init_context, init_params, init_run, new_store,
}

set_peer_config-check_peer_example :
    (check_peer host (record { key = peer_key; value = limited_peer }) (store_account store) 30_101
      ≡ ok tt)
    × (get_elem? (fixed_accounts host types_context receive_params bob) 1
        ≡ some (account peer_key false true))
set_peer_config-check_peer_example =
    set_peer_config-check_peer host pda_laws clock peer_context limit_params types_context
      receive_params bob refl refl peer_run

init_oft-check_store_example : check_store host (store_account new_store) ≡ ok tt
init_oft-check_store_example =
    init_oft-check_store host pda_laws init_context init_params world init_run

quote_send-send_example :
    (options : List ℕ) × (combine_options host.combine_options peer.enforced_options
        send_params.compose_msg []
      ≡ ok options)
    × (Quote.quote_send host clock (quote_context store) quote_request world
        ≡ host.quote
            (key 10)
            (quote_context store).remaining_accounts
            (record {
              sender = store_key;
              dst_eid = 30_101;
              receiver = key 12;
              message = Quote.quoted_message quote_request 993_000;
              pay_in_lz_token = false;
              options = options;
            })
            world)
quote_send-send_example =
    quote_send-send host clock (send_context store) send_params world world (quote_context store)
      quote_request refl refl refl refl refl refl refl quote_checked send_run

abbrev registry_context : RegisterOappContext
registry_context = record { payer = key 15; oapp = store_key; oapp_registry = peer_key }

register_oapp_lem_example :
    ((peer_key ≢ peer_key)
      × (register_oapp host registry_context (record { delegate = admin })
          ≡ err (constraint seeds)))
    ⊎ ((registry : OappRegistry) × (peer_key ≡ peer_key)
        × (register_oapp host registry_context (record { delegate = admin }) ≡ ok registry)
        × (registry.delegate ≡ admin)
        × (check_seeds host (oapp_seed ∷ store_key ∷ []) registry.bump peer_key ≡ ok tt))
register_oapp_lem_example =
    register_oapp_lem host pda_laws registry_context (record { delegate = admin })
