-- ===== src/Boc/ItsLinkTokenStarted.antt =====
-- src/boc/its_link_token_started.rs
use axelar_relayer_ton.Prelude.{ℕ, zero, suc, String, Outcome, ok, err, string_eq}
use axelar_relayer_ton.Externals.{Externals}
use axelar_relayer_ton.Types.{
  BocError, boc_parsing_error, append, lift_err, op_link_token_started_log,
}
use axelar_relayer_ton.Boc.{
  ◌>>=◌, ◌>>◌, pure, lift, load, read_boc, inside, next_string, next_buffer, expect_op_code,
}

-- relayer_core's `TokenManagerType`
pub data TokenManagerType : Type 0 where
  native_interchain_token mint_burn_from lock_unlock lock_unlock_fee mint_burn : TokenManagerType

pub record LogItsLinkTokenStartedMessage (A : Type 0) : Type 0 where
  pub token_id : ℕ
  pub destination_chain : String
  pub source_token_address : A
  pub destination_token_address : String
  pub token_manager_type : TokenManagerType

module _ (lib : Externals) where
  open lib use {
    Address, load_uint, load_u8, next_reference, hex_encode, address_from_str, show_number,
    show_number_hex,
  }

  abbrev pub token_manager : ℕ → Outcome BocError TokenManagerType
  token_manager zero = ok native_interchain_token
  token_manager (suc zero) = ok mint_burn_from
  token_manager (suc (suc zero)) = ok lock_unlock
  token_manager (suc (suc (suc zero))) = ok lock_unlock_fee
  token_manager (suc (suc (suc (suc zero)))) = ok mint_burn
  token_manager other =
      err (boc_parsing_error (append "Invalid token manager type " (show_number other)))

  unfoldable pub from_boc_b64 : String → Outcome BocError (LogItsLinkTokenStartedMessage Address)
  from_boc_b64 = read_boc lib do
    expect_op_code lib op_link_token_started_log "00000105"
    token_id ← load (load_uint 256)
    destination_chain ← next_string lib
    source_cell ← load next_reference
    source ← inside lib source_cell (load (load_uint 256))
    source_token_address ←
        lift (lift_err boc_parsing_error (address_from_str (append "0:" (show_number_hex source))))
    destination_token_address ← next_buffer lib
    manager ← load (load_u8 8)
    token_manager_type ← lift (token_manager manager)
    pure (record {
      token_id = token_id;
      destination_chain = destination_chain;
      source_token_address = source_token_address;
      destination_token_address = append "0x" (hex_encode destination_token_address);
      token_manager_type = token_manager_type;
    })
