-- ===== src/TransactionParser.antt =====
-- src/transaction_parser/
pub mod Common
pub mod CallContract
pub mod MessageExecuted
pub mod MessageApproved
pub mod NativeGasPaid
pub mod NativeGasAdded
pub mod NativeGasRefunded
pub mod JettonGasPaid
pub mod JettonGasAdded
pub mod SignersRotated
pub mod ItsInterchainTransfer
pub mod ItsLinkTokenStarted
pub mod ItsInterchainTokenDeploymentStarted
pub mod ItsTokenMetadataRegistered
pub mod ExecuteInsufficientGas
pub mod AnyParser
pub mod Creation
pub mod Assembly
pub mod Acceptance
pub mod Genuine
pub mod Authenticity
pub mod Recognition
pub mod Collection
pub mod Events
pub mod ParseTrace
pub mod Pairing
pub mod LogPosition
pub mod Keys
pub mod Credits
pub mod Kinds
