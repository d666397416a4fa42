-- ===== src/Example/Transits.antt =====
-- The theorems on the two ends of a transfer, at the accounts of the examples.
use cross_chain_contracts.Common.{◌≡◌, refl, arith, some, [], ◌∷◌, ◌++◌}
use cross_chain_contracts.Words.{to_be_bytes, from_be_bytes, from_be_bytes_acc, slice}
use cross_chain_contracts.MsgCodec as MsgCodec
use cross_chain_contracts.Instructions.Send.{SendParams}
use cross_chain_contracts.Instructions.Send.Message.{Handed}
use cross_chain_contracts.Instructions.Transit.{Composed, lz_receive-Composed}
use cross_chain_contracts.Example.{host, clock, receipt}
use cross_chain_contracts.Example.Keeps.{fee_laws, key-IsArray}
use cross_chain_contracts.Example.Accounts.{
  alice, bob, store, world, send_context, send_params, receive_context, receive_params,
}
use cross_chain_contracts.Example.Transfers.{received, receive_run}

-- Alice sends to Bob.
abbrev to_bob : SendParams
to_bob = record send_params { to = bob }

-- The message of the call, with 900 units.
handed : Handed host (send_context store) to_bob store 900_000 receipt
unfolding MsgCodec.encode MsgCodec.send_to MsgCodec.amount_sd MsgCodec.compose_msg to_be_bytes
    from_be_bytes from_be_bytes_acc slice
handed = record {
  units = 900;
  message = receive_params.message;
  options = [];
  before = world;
  after = world;
  call = refl;
  reads_recipient = refl;
  reads_units = refl;
  whole = refl;
  reads_composed = refl;
}

composes : MsgCodec.compose_msg receive_params.message ≡ some (alice ++ (1 ∷ 2 ∷ []))
unfolding MsgCodec.encode MsgCodec.compose_msg to_be_bytes
composes = refl

lz_receive-Composed_example :
    Composed host clock (receive_context store) receive_params world received alice (1 ∷ 2 ∷ [])
lz_receive-Composed_example =
    lz_receive-Composed host clock (receive_context store) receive_params world alice (1 ∷ 2 ∷ [])
      fee_laws (omega arith) (omega arith) (key-IsArray 6 (omega arith)) composes receive_run
