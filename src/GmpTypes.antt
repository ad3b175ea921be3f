-- ===== src/GmpTypes.antt =====
-- The events that the parsers build for the GMP API (relayer_core's gmp_types), with the fields that
-- src/transaction_parser/ gives them. `timestamp` is the clock's text at the call.
use axelar_relayer_ton.Prelude.{ℕ, String, Bool, Option, List}
use axelar_relayer_ton.Boc.ItsLinkTokenStarted.{TokenManagerType}

pub record EventMetadata : Type 0 where
  pub tx_id : Option String
  pub from_address : Option String
  pub finalized : Option Bool
  pub source_context : Option (List (String × String))
  pub timestamp : String

pub record SignersRotatedEventMetadata : Type 0 where
  pub common_meta : EventMetadata
  pub signers_hash : Option String
  pub epoch : Option ℕ

pub record MessageApprovedEventMetadata : Type 0 where
  pub common_meta : EventMetadata
  pub command_id : Option String

pub record MessageExecutedEventMetadata : Type 0 where
  pub common_meta : EventMetadata
  pub command_id : Option String
  pub revert_reason : Option String

pub record CommonEventFields (M : Type 0) : Type 0 where
  pub event_type : String
  pub event_id : String
  pub meta : Option M

pub record GatewayV2Message : Type 0 where
  pub message_id : String
  pub source_chain : String
  pub source_address : String
  pub destination_address : String
  pub payload_hash : String

pub record Amount : Type 0 where
  pub token_id : Option String
  pub amount : String

pub record InterchainTokenDefinition : Type 0 where
  pub id : String
  pub name : String
  pub symbol : String
  pub decimals : ℕ

pub data MessageExecutionStatus : Type 0 where
  successful reverted : MessageExecutionStatus

pub data CannotExecuteMessageReason : Type 0 where
  insufficient_gas error : CannotExecuteMessageReason

pub data Event : Type 0 where
  call :
      (common : CommonEventFields EventMetadata) (message : GatewayV2Message)
      (destination_chain payload : String)
      → Event
  gas_credit :
      (common : CommonEventFields EventMetadata) (message_id refund_address : String)
      (payment : Amount)
      → Event
  gas_refunded :
      (common : CommonEventFields EventMetadata) (message_id recipient_address : String)
      (refunded_amount cost : Amount)
      → Event
  message_approved :
      (common : CommonEventFields MessageApprovedEventMetadata) (message : GatewayV2Message)
      (cost : Amount)
      → Event
  message_executed :
      (common : CommonEventFields MessageExecutedEventMetadata) (message_id source_chain : String)
      (status : MessageExecutionStatus) (cost : Amount)
      → Event
  cannot_execute_message_v2 :
      (common : CommonEventFields EventMetadata) (message_id source_chain : String)
      (reason : CannotExecuteMessageReason) (details : String)
      → Event
  its_interchain_transfer :
      (common : CommonEventFields EventMetadata) (message_id destination_chain : String)
      (token_spent : Amount) (source_address destination_address data_hash : String)
      → Event
  its_link_token_started :
      (common : CommonEventFields EventMetadata)
      (message_id token_id destination_chain source_token_address
        destination_token_address : String)
      (token_manager_type : TokenManagerType)
      → Event
  its_interchain_token_deployment_started :
      (common : CommonEventFields EventMetadata) (message_id destination_chain : String)
      (token : InterchainTokenDefinition)
      → Event
  its_token_metadata_registered :
      (common : CommonEventFields EventMetadata) (message_id address : String) (decimals : ℕ)
      → Event
  signers_rotated :
      (common : CommonEventFields SignersRotatedEventMetadata) (message_id : String) → Event
