-- ===== src/Boc/ItsInterchainTokenDeploymentStarted.antt =====
-- src/boc/its_interchain_token_deployment_started.rs
use axelar_relayer_ton.Prelude.{ℕ, String, Outcome, string_eq}
use axelar_relayer_ton.Externals.{Externals}
use axelar_relayer_ton.Types.{BocError, op_interchain_token_deployment_started_log}
use axelar_relayer_ton.Boc.{◌>>=◌, ◌>>◌, pure, load, read_boc, next_string, expect_op_code}

pub record LogItsInterchainTokenDeploymentStartedMessage : Type 0 where
  pub destination_chain : String
  pub token_id : ℕ
  pub token_name : String
  pub token_symbol : String
  pub decimals : ℕ  -- u8

module _ (lib : Externals) where
  open lib use {load_uint, load_u8, next_reference}

  -- The minter's address is read and the result dropped, an error too.
  unfoldable pub from_boc_b64 :
      String → Outcome BocError LogItsInterchainTokenDeploymentStartedMessage
  from_boc_b64 = read_boc lib do
    expect_op_code lib op_interchain_token_deployment_started_log "00000107"
    token_id ← load (load_uint 256)
    token_name ← next_string lib
    token_symbol ← next_string lib
    decimals ← load (load_u8 8)
    load next_reference
    destination_chain ← next_string lib
    pure (record {
      destination_chain = destination_chain;
      token_id = token_id;
      token_name = token_name;
      token_symbol = token_symbol;
      decimals = decimals;
    })
