-- ===== src/Lib.antt =====
-- A model of the Tezos API gateway (src/ of the repository): the life of a job, from the request of a
-- client to the confirmation on the chain.
--
-- A client asks the gateway to forge a batch of operations. The gateway formats the parameters of each
-- call for Taquito, asks a node for estimations and counters, forges the batch, and stores a job with
-- the rows of its operations. The client signs the bytes and sends the signature; the gateway reads
-- the rows back, preapplies them with the signature, injects the signed operation and publishes the
-- job with its hash. Or the gateway signs and sends the transactions itself, with a key of the vault.
-- A worker follows the published jobs through indexers until their operations
-- are confirmed, and then publishes one event for each operation.
--
-- Which file models which part:
--   Value, Exceptions    the JavaScript values that are passed around, the error classes of
--                        const/errors/ and code that may throw
--   Database             services/postgre.ts, models/jobs.ts (Jobs), models/operations.ts (Operations);
--                        Effect is asynchronous code: a computation takes the world and gives a result
--                        and the world after it, and what was written before an exception stays
--   SmartContracts       lib/smart-contracts/index.ts: formatEntryPointParameters and its helpers (Format),
--                        findChildTokenByAnnotation (Token), getContractMethod (Method), and
--                        lib/entrypoints (EntryPoints)
--   Forge                lib/jobs/forge-operation.ts (Batch, Assembly and Forge itself),
--                        lib/jobs/forge-reveal-operation.ts (Reveal), lib/jobs/estimate-operation.ts
--                        (Estimation)
--   Injection            lib/jobs/inject-operation.ts
--   Sending              lib/jobs/send-transactions.ts, and lib/jobs/send-transfer-transactions.ts
--                        (Transfers)
--   Confirmation         processes/workers/check-operation-status/lib, and of services/indexer-pool.ts and
--                        services/clients/indexer-client.ts what concerns the status (Indexer),
--                        the queries and the events of contracts (Queries)
--   Gateway              the processes on their shared tables: what each may do to the tables as a step,
--                        in any order (Steps), what a sound state is (Invariant), and the lemmas that
--                        read a handler as a sequence of steps (Runs, Handlers, Workers, Transfers,
--                        Confirming)
--   Web                  the controllers of processes/web/api/jobs (Jobs, Injecting, with the answers to
--                        errors in Errors) and of processes/web/api/user (Users), and the error handler of
--                        processes/web/middleware
--   Broker               the handling of messages in services/amqp.ts, and the handler of the injection
--                        worker (Handlers)
--   Storage              lib/storage: convertStorage (Requested), tryGetFromMap (Attempts),
--                        generateStorageResponse (Response), and the controller (Contract)
--   GatewayPool          services/gateway-pool.ts
--   PathObject           lib/generate-path-object, and of helpers the reading of its paths (Paths)
--   Vault                services/clients/vault-client.ts, and lib/user with it (Users)
--   Tests                runs on concrete data
-- A function keeps its name, written with underscores: injectOperation is inject_operation.
--
-- Numbers are whole. A number that JavaScript reads from text may be NaN, which is `none` or `nan`.
-- The INT columns of the tables refuse what 32 bits do not hold. A SELECT of operations gives its
-- rows in any order (Database.Order); where a text says their order, it is that of the database. The
-- rows of jobs are read in the order of their insertion, which Postgres need not keep; the worker
-- checks each job by itself. The calls of one Promise.all are run in the order of the list, and all
-- of them are run; a queue delivers a message when the last one is acknowledged. Every function here
-- is total. The retries of the indexer pool and of the maps count their tries down. The choice of a
-- healthy node is the one loop without a bound of its own: it runs on fuel, one for each draw, and
-- any fuel above the number of the first healthy draw is enough.
--
-- Parameters stand for what is not in the repository: the node and Taquito (Forge.Node.TezosService,
-- Injection.Node, SmartContracts.Method.Contract, Sending.Sender), the answers of the indexers
-- (Confirmation.Indexer.IndexerClient), the dates of luxon (Confirmation.Worker), what Postgres does
-- with a statement in which a text ends its own quotes (World.stray) and in which order it gives
-- rows (World.place), the vault with its answers to any requests (Vault.VaultServer), lodash and the
-- maps of Taquito (Storage.Requested.Libraries), JSON.parse and Ajv (Broker.Consumer), the broker's
-- answer to a message (of Web.Injecting), and the draws and the nodes of the pool
-- (GatewayPool.GatewayPool). World.faults says which queries the database rejects.
--
-- Not modelled: logging, and the service behind the metrics; the wiring of Express, the OpenAPI
-- specification, the life cycle of the processes with their timers, and connecting to the broker and the
-- database, which are data and I/O; Taquito's client with its cache, which the parameters replace; what
-- the indexers tell of users, of transactions and of balances, whose amounts are floating point numbers;
-- the activation of accounts, the signature of data, the deployment of storage, and the utilities, which
-- are calls of Taquito.
pub mod Base
pub mod Value
pub mod Exceptions
pub mod Database
pub mod Injection
pub mod SmartContracts
pub mod Forge
pub mod Sending
pub mod Confirmation
pub mod Gateway
pub mod Web
pub mod Broker
pub mod Storage
pub mod GatewayPool
pub mod PathObject
pub mod Vault
pub mod Tests
