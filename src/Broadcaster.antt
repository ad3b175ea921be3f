-- ===== src/Broadcaster.antt =====
-- src/broadcaster.rs: messages are sent to the chain from a wallet that is acquired for them. This file
-- has the sending with its retries, and the frame of a request; the requests are in Handlers.
pub mod Handlers
pub mod Sends
pub mod Requests
pub mod FreshIds
pub mod Replay
pub mod Release
pub mod LocksLeft
pub mod NoPanic
pub mod Refunds
pub mod Funded
use axelar_relayer_ton.Prelude.{
  ℕ, zero, suc, String, ◌⊎◌, inl, inr, Bool, true, false, Option, none, some, List, [], ◌∷◌,
  Outcome, ok, err, panic, map_err, ◌>>=◌, length, contains, if◌then◌else◌,
}
use axelar_relayer_ton.Prelude.Int.{ℤ}
use axelar_relayer_ton.Externals.{Externals, OutAction}
use axelar_relayer_ton.Client.{V3MessageResponse}
use axelar_relayer_ton.Types.{boc_error_text, lift_err, append}
use axelar_relayer_ton.GasEstimator.{GasEstimates, highload_wallet_send}
use axelar_relayer_ton.HighLoadQueryId.{HighLoadQueryId, query_id}
use axelar_relayer_ton.HighLoadQueryIdDbWrapper.{
  Call, Statement, HighLoadQueryIdWrapperError, construction_error, no_next_query_id,
  database_error, next,
}
use axelar_relayer_ton.TonWalletQueryId.{Table}
use axelar_relayer_ton.LockManager.{Locks, Moment, redis}
use axelar_relayer_ton.WalletManager.{
  WalletManagerError, no_available_wallet, lock_error, acquire, release,
}
use axelar_relayer_ton.TonWalletHighLoadV3.{TonWalletHighLoadV3, outgoing_message}

pub data BroadcasterError : Type 0 where
  generic_error rpc_call_failed insufficient_gas : String → BroadcasterError

-- src/client.rs
-- What the clocks, the database and the node do at one attempt to send: the times at which the query id
-- is read and written, the statements that fail, the wallet's clock, and the answer to a post, which is
-- an error's text or a response.
pub record Attempt : Type 0 where
  pub read_at : ℤ
  pub write_at : ℤ
  pub fails : Statement → Bool
  pub carried_out : Statement → Bool
  pub now : ℕ
  pub answer : String → String ⊎ V3MessageResponse

-- The attempts in their order, and the lock store when a request acquires a wallet and releases it.
pub record Surroundings : Type 0 where
  pub attempt : ℕ → Attempt
  pub acquire_at : Moment
  pub release_at : Moment

-- A message that was posted to the node.
pub record Post : Type 0 where
  pub address : String
  pub query_id : ℕ
  pub boc : String

-- How many attempts there were, the table of query ids, the locks of the wallets, and what was posted,
-- the last first.
pub record State : Type 0 where
  pub tried : ℕ
  pub table : Table
  pub locks : Locks
  pub posts : List Post

-- The `Debug` texts of the two enumerations.
abbrev pub wrapper_error_text : HighLoadQueryIdWrapperError → String
wrapper_error_text construction_error = "ConstructionError"
wrapper_error_text no_next_query_id = "NoNextQueryId"
wrapper_error_text database_error = "DatabaseError"

abbrev pub manager_error_text : WalletManagerError → String
manager_error_text no_available_wallet = "NoAvailableWallet"
manager_error_text (lock_error e) = append (append "LockError(\"" e) "\")"

abbrev pub already_executed : String
already_executed = "THROWIF 36"

-- A method's effect on the state.
abbrev pub Act : Type 0 → Type 0
Act R = State → Outcome BroadcasterError R × State

-- A step that does not change the state, and what follows it.
abbrev pub then_act : {R Q : Type 0} → Outcome BroadcasterError R → (R → Act Q) → Act Q
then_act (ok r) act s = act r s
then_act (err e) act s = (err e, s)
then_act panic act s = (panic, s)

-- What `send_to_chain` does with the answer to its post; `retry` is its call of itself, if any retry is
-- left.
abbrev pub answered :
    Option (Act V3MessageResponse)
    → Outcome BroadcasterError (String ⊎ V3MessageResponse) × State
    → Outcome BroadcasterError V3MessageResponse × State
answered retry (err e, s) = (err e, s)
answered retry (panic, s) = (panic, s)
answered retry (ok (inr response), s) = (ok response, s)
answered none (ok (inl error), s) = (err (rpc_call_failed error), s)
answered (some again) (ok (inl error), s) = elim (contains error already_executed) [
  | true ↦ again s
  | false ↦ (err (rpc_call_failed error), s)
]

module _ (lib : Externals) where
  open lib use {Address, Cell, show_address, base64_encode, serialize_root}

  pub record TonBroadcaster : Type 0 where
    pub wallets : List (TonWalletHighLoadV3 Address)
    pub gateway_address : Address
    pub gas_service_address : Address
    pub chain_name : String
    pub gas_estimates : GasEstimates

  abbrev pub wallet_key : TonWalletHighLoadV3 Address → String
  wallet_key wallet = show_address wallet.address

  module _ (b : TonBroadcaster) (around : Surroundings) (wallet : TonWalletHighLoadV3 Address)
      (actions : List (OutAction Cell)) where
    -- The text that is posted for a query id.
    unfoldable pub message_boc : ℕ → HighLoadQueryId → Outcome BroadcasterError String
    message_boc now id = do
      outgoing ←
          map_err (λ e. generic_error (boc_error_text e))
            (outgoing_message lib now wallet actions (query_id id)
              (highload_wallet_send b.gas_estimates (length actions)))
      tx ← lift_err generic_error (serialize_root outgoing)
      ok (base64_encode tx)

    abbrev pub next_call : Bool → ℕ → Call
    next_call retrying n = record {
      address = wallet_key wallet;
      timeout = wallet.timeout;
      force_shift_increase = retrying;
      read_at = (around.attempt n).read_at;
      write_at = (around.attempt n).write_at;
      fails = (around.attempt n).fails;
      carried_out = (around.attempt n).carried_out;
    }

    -- The post of a text, and the answer to it.
    abbrev pub post_boc : HighLoadQueryId → Attempt → String → Act (String ⊎ V3MessageResponse)
    post_boc id attempt boc s = (
      ok (attempt.answer boc),
      record s {
        posts = record { address = wallet_key wallet; query_id = query_id id; boc = boc } ∷ s.posts;
      },
    )

    abbrev pub post : HighLoadQueryId → Attempt → Act (String ⊎ V3MessageResponse)
    post id attempt = then_act (message_boc attempt.now id) (post_boc id attempt)

    -- One attempt: the next query id, and a post with it.
    unfoldable pub post_once : (retrying : Bool) → Act (String ⊎ V3MessageResponse)
    post_once retrying s =
        let (id, table) = next (next_call retrying s.tried) s.table in
        then_act
          (map_err
            (λ e. generic_error (append "Query Id acquiring failed: " (wrapper_error_text e))) id)
          (λ q. post q (around.attempt s.tried)) (record s { tried = suc s.tried; table = table })

    -- `send_to_chain` with `Some(retries_left)`.
    unfoldable pub send_again : (retries_left : ℕ) → Act V3MessageResponse
    send_again zero s = answered none (post_once true s)
    send_again (suc r) s = answered (some (send_again r)) (post_once true s)

    unfoldable pub send_to_chain : (retries_left : Option ℕ) → Act V3MessageResponse
    unfolding send_again
    send_to_chain none s = answered (some (send_again 10)) (post_once false s)
    send_to_chain (some r) s = send_again r s

  -- After the inner block, also if it failed; a panic goes past it.
  abbrev pub released :
      {R : Type 0}
      → Surroundings
      → TonWalletHighLoadV3 Address
      → Outcome BroadcasterError R × State
      → Outcome BroadcasterError R × State
  released around wallet (ok r, s) =
      (ok r, record s { locks = release wallet_key (redis around.release_at) wallet s.locks })
  released around wallet (err e, s) =
      (err e, record s { locks = release wallet_key (redis around.release_at) wallet s.locks })
  released around wallet (panic, s) = (panic, s)

  -- The inner block with the wallet that was acquired, if any was.
  abbrev pub framed :
      {R : Type 0}
      → Surroundings
      → (TonWalletHighLoadV3 Address → Act R)
      → Outcome WalletManagerError (TonWalletHighLoadV3 Address) × Locks
      → Act R
  framed around body (ok w, locks) s = released around w (body w (record s { locks = locks }))
  framed around body (err e, locks) s = (
    err (generic_error (append "Wallet acquire failed: " (manager_error_text e))),
    record s { locks = locks },
  )
  framed around body (panic, locks) s = (panic, record s { locks = locks })

  -- The frame of a request: a wallet is acquired for the inner block and released after it.
  unfoldable pub with_wallet :
      {R : Type 0} → TonBroadcaster → Surroundings → (TonWalletHighLoadV3 Address → Act R) → Act R
  unfolding acquire release
  with_wallet b around body s =
      framed around body (acquire wallet_key (redis around.acquire_at) b.wallets s.locks) s
