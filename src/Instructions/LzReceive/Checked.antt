-- ===== src/Instructions/LzReceive/Checked.antt =====
-- What the account attributes of `LzReceive` in instructions/lz_receive.rs establish.
use cross_chain_contracts.Common.{
  ℕ, ◌≡◌, ap, Option, none, some, true, List, arith, subst, bytes_eq, bytes_eq→eq,
}
use cross_chain_contracts.Errors.{
  Result, ok, require, ◌>>◌, ◌>>=◌, >>=-eq-ok, >>-eq-ok, Error, err, panic, oft, invalid_sender,
}
use cross_chain_contracts.MsgCodec as MsgCodec
use cross_chain_contracts.Platform.{Host}
use cross_chain_contracts.Platform.Cpi.{LzReceiveParams}
use cross_chain_contracts.Instructions.Accounts.{
  check_store, check_peer, check_token, check_address, check_mint_program, is_key,
}
use cross_chain_contracts.Instructions.LzReceive.{
  LzReceiveContext, check_associated_token, check_accounts,
}

recipient_of :
    {A : Type 0} (m : Result (List ℕ)) (to_address : List ℕ) (e : Error) (k : List ℕ → Result A)
    {a : A}
    → (m >>= λ to. require (bytes_eq to_address to) e >> k to) ≡ ok a
    → m ≡ ok to_address
recipient_of (ok to) to_address e k h = ground (arith, bytes_eq→eq to_address to, h)
recipient_of (err x) to_address e k h = cc
recipient_of panic to_address e k h = cc

pub is_key-some : (o : Option (List ℕ)) (key : List ℕ) → is_key o key ≡ true → o ≡ some key
is_key-some none key same = cc
is_key-some (some k) key same = ap some (bytes_eq→eq k key same)

module _ (h : Host) (c : LzReceiveContext) (params : LzReceiveParams) (w : h.World) where
  pub record ReceiveChecked (w' : h.World) : Type 0 where
    pub initialised :
        h.init_associated_token_if_needed c.payer c.to_address c.token_mint.key c.token_program w
        ≡ ok w'
    pub peer_checked : check_peer h c.peer c.oft_store params.src_eid ≡ ok tt
    pub store_checked : check_store h c.oft_store ≡ ok tt
    pub sender_is_peer : c.peer.value.peer_address ≡ params.sender
    pub escrow_key : c.token_escrow.key ≡ c.oft_store.value.token_escrow
    pub recipient : MsgCodec.send_to params.message ≡ ok c.to_address
    pub dest_owner : c.token_dest.owner ≡ c.to_address
    pub dest_key :
        c.token_dest.key
        ≡ h.get_associated_token_address_with_program_id c.to_address c.token_mint.key
            c.token_program
    pub mint_key : c.token_mint.key ≡ c.oft_store.value.token_mint
    pub mint_program : c.token_mint.token_program ≡ c.token_program
    pub authority :
        (key : List ℕ) → c.mint_authority ≡ some key → c.token_mint.mint_authority ≡ some key

  pub check_accounts-ReceiveChecked :
      {w' : h.World} → check_accounts h c params w ≡ ok w' → ReceiveChecked w'
  unfolding check_accounts check_address check_token check_mint_program check_associated_token
  check_accounts-ReceiveChecked {w'} e =
      let ata =
        h.get_associated_token_address_with_program_id c.to_address c.token_mint.key
          c.token_program in
      let (w1, made, e1) =
        >>=-eq-ok
          (h.init_associated_token_if_needed c.payer c.to_address c.token_mint.key c.token_program
            w)
          _ e in
      let e3 =
        >>-eq-ok
          (check_associated_token h c.token_dest c.to_address c.token_mint.key c.token_program) _
          e1 in
      let (_, peer_checked, e4) = >>=-eq-ok (check_peer h c.peer c.oft_store params.src_eid) _ e3 in
      let e5 =
        >>-eq-ok (require (bytes_eq c.peer.value.peer_address params.sender) (oft invalid_sender)) _
          e4 in
      let (_, store_checked, e6) = >>=-eq-ok (check_store h c.oft_store) _ e5 in
      let same : w1 ≡ w' = ground (arith, e1) in
      record {
        initialised =
            subst
              (λ x.
                h.init_associated_token_if_needed c.payer c.to_address c.token_mint.key
                  c.token_program w
                ≡ ok x)
              same made;
        peer_checked = peer_checked;
        store_checked = store_checked;
        sender_is_peer = ground (arith, bytes_eq→eq c.peer.value.peer_address params.sender, e1);
        escrow_key =
            ground (arith, bytes_eq→eq c.token_escrow.key c.oft_store.value.token_escrow, e1);
        recipient = recipient_of (MsgCodec.send_to params.message) c.to_address _ _ (
            >>-eq-ok (check_token c.token_escrow c.oft_store.key c.token_mint.key c.token_program) _
              (>>-eq-ok (check_address c.token_escrow.key c.oft_store.value.token_escrow) _ e6));
        dest_owner = ground (arith, bytes_eq→eq c.token_dest.owner c.to_address, e1);
        dest_key = ground (arith, bytes_eq→eq c.token_dest.key ata, e1);
        mint_key = ground (arith, bytes_eq→eq c.token_mint.key c.oft_store.value.token_mint, e1);
        mint_program = ground (arith, bytes_eq→eq c.token_mint.token_program c.token_program, e1);
        authority =
            λ key given. ground (arith, is_key-some c.token_mint.mint_authority key, given, e1);
      }
