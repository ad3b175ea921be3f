-- ===== src/Lib.antt =====
-- A verification library of the Axelar relayer for TON, which reads the traces of the Axelar contracts
-- on TON, turns them into events for the GMP API, and sends messages from high load wallets.
--
-- The parts, and the files that model them. A function of the code keeps its name here, and a method
-- stands in the module named for its type or its file.
--   src/high_load_query_id.rs            HighLoadQueryId: the ids (shift, bit number) that a high load
--                                        wallet uses once each, their order and their exhaustion
--   src/models/ton_wallet_query_id.rs    TonWalletQueryId: the table of the last id of each wallet
--   src/high_load_query_id_db_wrapper.rs HighLoadQueryIdDbWrapper: the next id of a wallet, by the table
--   src/types.rs, src/error.rs,          Types: traces, transactions and messages with the fields that
--   src/ton_constants.rs                 the modelled code reads; the errors; the op codes
--   src/boc/                             Boc and its children: the logs of the contracts, read from cells, and
--                                        the messages to the contracts, written to cells
--   src/gas_calculator.rs                GasCalculator: what a trace cost the addresses that are ours
--   src/transaction_parser/              TransactionParser: Common and a module for each of the fourteen
--                                        parsers; AnyParser is `Box<dyn Parser>`; Creation is
--                                        `create_parsers`; Assembly is the rest of `parse_trace`
--   src/lock_manager.rs                  LockManager: the interface, and locks that expire in a store
--   src/wallet_manager.rs                WalletManager: which wallet is acquired, over the interface, and
--                                        Loading, the wallets of the configuration
--   src/high_load_query_id_db_wrapper.rs,
--   src/lock_manager.rs                  Workers: workers that hold a wallet each, by a lock that expires, and draw
--                                        query ids for it with a read and a write, between which others go on
--   src/gas_estimator.rs, src/config.rs  GasEstimator: the estimates
--   src/out_action.rs,                   OutAction, TonWalletHighLoadV3: an action, and the message from
--   src/ton_wallet_high_load_v3.rs       outside with which a wallet carries it out
--   src/broadcaster.rs                   Broadcaster: the sending with its retries; its Handlers are the
--                                        requests, and Requests serves them one after the other
--   src/models/ton_trace.rs              TonTrace: the table of the traces that were seen
--   src/subscriber.rs                    Subscriber: a poll of an account, over that table
--   src/retry_subscriber.rs              RetrySubscriber: a poll for the traces that were incomplete, over
--                                        the same table (`poll_account` there is `poll_retries` here)
--   src/ingestor.rs                      Ingestor: a trace from the queue becomes events, and its row in the
--                                        table gets their summaries
--   src/client.rs                        Client: the requests to the TON API; Types.Response has what
--                                        src/types.rs makes of an answer about traces
--   src/check_accounts.rs                CheckAccounts: the status of an account, and the loop that logs it
--   src/refund_manager.rs                RefundManager: the answers for relayer_core
--   src/bin/ton_subscriber.rs            Delivery: the subscribers and the retry subscriber over one table,
--                                        whose polls come in any order
-- The parser module calls the readers of Boc for the logs and the gas calculator for the costs. The
-- broadcaster acquires a wallet from the wallet manager, asks for the wallet's next query id, and posts the
-- wallet's message; `Broadcaster.State` has the table of query ids, the locks and what was posted. The
-- ingestor calls `parse_trace` and writes to the table that the subscribers fill.
--
-- How the code is modelled. A fallible function returns an `Outcome`: ok, err, or panic for an index out
-- of bounds, an arithmetic panic of the decimals or an `unimplemented!()`. A method that changes its
-- receiver returns it. `async` is left out: a call is carried out as a whole, and what the database and
-- the clock do at a call is an input of the call. Where several parties share a state, the locks of the
-- wallets, the table of query ids and the table of traces, their steps come in any order
-- (WalletManager.Exclusion, Workers, Delivery).
-- Integers are natural numbers or integers with their wrap-around written out: `u32` and `i32` in the
-- query ids, `i128` in the gas calculator, which is taken to wrap as in a release build, as the `i64`
-- of the client is. A hash map is an association list, or a function where the code only reads it.
--
-- `Externals` is what the code calls and the repository does not contain: addresses, cells and their
-- parser (tonlib), texts (hex, base64, UTF-8, numbers), keccak, decimals and prices. All that uses it
-- takes it as a parameter, and no theorem assumes a law of it but that its test for equal addresses
-- is one, and, for the round trip of buffers, `Boc.CellLaws`: cells keep what is stored in them. The
-- comparison of JSON values by the database is a parameter too, with the law that a value equals itself.
--
-- The loop that follows references between cells runs on fuel, one more than the depth of the tree of
-- cells below the first, and the chain of cells for a buffer on fuel, one more than its length: a cell
-- takes a byte at least. The first would return the bytes so far if its fuel ran out, and it does not where a
-- reference leads to a cell with less below it (Boc.CellTo.Fuel); the second would be a panic, and it is not.
-- The retries of a sending count down from ten.
--
-- A write of a query id that fails may have been carried out nonetheless. A statement on the table of traces
-- that fails is taken not to have been executed.
--
-- The HTTP client and the JSON readers of `Client` are the record `Client.Http`, without laws; the reading
-- of a text as a trace and the model of an event are fields of `Ingestor.TonIngestor`.
--
-- What is not modelled: configuration, logging and start-up (the rest of src/bin, src/config.rs,
-- src/includer.rs), which are input and output; the JSON of serde, but for op codes (Types.Opcode); the
-- options of the HTTP client.
pub mod Prelude
pub mod HighLoadQueryId
pub mod TonWalletQueryId
pub mod HighLoadQueryIdDbWrapper
pub mod Externals
pub mod Types
pub mod Workers
pub mod Boc
pub mod GmpTypes
pub mod TransactionParser
pub mod GasCalculator
pub mod GasEstimator
pub mod OutAction
pub mod TonWalletHighLoadV3
pub mod LockManager
pub mod WalletManager
pub mod Broadcaster
pub mod TonTrace
pub mod Ingestor
pub mod Client
pub mod CheckAccounts
pub mod RefundManager
pub mod Delivery
pub mod RetrySubscriber
pub mod Subscriber
pub mod Examples
