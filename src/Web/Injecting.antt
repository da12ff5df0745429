-- ===== src/Web/Injecting.antt =====
-- The controllers of processes/web/api/jobs/ that inject and send.
use Prim.Native.String
use tezos_api_gateway.Base.{ℕ, String, Bool, Option, none, some, List, [], ◌∷◌, map}
use tezos_api_gateway.Base.Int.{pos}
use tezos_api_gateway.Base.Decimal.{to_string}
use tezos_api_gateway.Value.{Value, undef, bool, num, str, arr, obj, Fields, field, end, of_values}
use tezos_api_gateway.Exceptions.{Result, Exn, job_id_not_found}
use tezos_api_gateway.Database.Schema.{Job, transaction, created}
use tezos_api_gateway.Database.Effect.{
  Message, World, Action, queued, pure, lift, ◌>>=◌, ◌>>◌, send,
}
use tezos_api_gateway.Database.Jobs.{NewJob, insert_job, select_jobs, has_id}
use tezos_api_gateway.Injection.{Node, PatchJobParams, inject_operation}
use tezos_api_gateway.Forge.Node.{TransactionDetails}
use tezos_api_gateway.Sending.{Sender, SendParams, SentJob, send_transactions}
use tezos_api_gateway.Web.{Reply, json, http_error, next, Controller, respond}
use tezos_api_gateway.Web.Errors.{inject_error, inject_async_error, send_error, send_async_error}
use tezos_api_gateway.Web.Jobs.{first_job}

unfoldable pub no_jobs : ℕ → Exn
no_jobs id =
    job_id_not_found (String.◌++◌ "Could not find any jobs with this id " (to_string (pos id)))

abbrev pub head_job : List Job → Option Job
head_job [] = none
head_job (job ∷ _) = some job

-- `injectOperationAndUpdateJob`; a job that has gone meanwhile is answered as `undefined`.
unfoldable pub inject_operation_and_update_job : Node → PatchJobParams → Controller (Option Job)
unfolding respond inject_error select_jobs inject_operation no_jobs
inject_operation_and_update_job node params = respond 200 inject_error (do
  found ← select_jobs (has_id params.job_id)
  first_job (no_jobs params.job_id) found
  inject_operation node params
  updated ← select_jobs (has_id params.job_id)
  pure (head_job updated))

-- The body of a message on the queue of injections.
unfoldable pub patch_message : PatchJobParams → Value
patch_message params = obj (
    field "jobId" (num (pos params.job_id)) (
      field "signature" (str params.signature)
        (field "signedTransaction" (str params.signed_transaction) end)))

-- `injectOperationAndUpdateJobAsync` with lib/amqp/send-to-injection-queue.ts.
unfoldable pub inject_operation_and_update_job_async : PatchJobParams → Controller Job
unfolding respond inject_async_error select_jobs send patch_message no_jobs
inject_operation_and_update_job_async params = respond 200 inject_async_error (do
  found ← select_jobs (has_id params.job_id)
  job ← first_job (no_jobs params.job_id) found
  send (queued "inject-transaction" (patch_message params))
  pure job)

-- The parameters of a sending (const/interfaces/send-transactions-params.ts).
pub record SendRequest : Type 0 where
  pub transactions : List TransactionDetails
  pub secure_key_name : String
  pub caller_id : Option String
  pub use_cache : Bool

abbrev pub sending_job : NewJob
sending_job = record {
  status = created;
  forged_operation = none;
  operation_hash = none;
  operation_kind = some transaction;
}

-- A property that is left out of a JSON text when it is `undefined`.
abbrev optional : String → Option Value → Fields → Fields
optional name none rest = rest
optional name (some v) rest = field name v rest

abbrev text_value : Option String → Option Value
text_value none = none
text_value (some s) = some (str s)

abbrev amount_value : Option ℕ → Option Value
amount_value none = none
amount_value (some n) = some (num (pos n))

abbrev given : Value → Option Value
given undef = none
given v = some v

unfoldable pub details_message : TransactionDetails → Value
details_message d = obj (
    field "contractAddress" (str d.contract_address) (
      field "entryPoint" (str d.entry_point) (
        optional "entryPointParams" (given d.entry_point_params)
          (optional "amount" (amount_value d.amount) (optional "fee" (amount_value d.fee) end)))))

unfoldable pub send_message : SendRequest → ℕ → Value
unfolding details_message
send_message request id = obj (
    field "transactions" (arr (of_values (map details_message request.transactions))) (
      field "secureKeyName" (str request.secure_key_name) (
        optional "callerId" (text_value request.caller_id)
          (field "useCache" (bool request.use_cache) (field "jobId" (num (pos id)) end)))))

-- `sendTransactionsAsync` of lib/jobs/send-transactions.ts with lib/amqp/send-to-send-transaction-queue.ts.
-- `queue` is the answer of the broker to `sendToQueue`, which may be a rejection.
unfoldable pub send_transactions_async : (Message → Result (Unit {0})) → SendRequest → Action Job
unfolding insert_job send send_message
send_transactions_async queue request = do
  job ← insert_job sending_job
  lift (queue (queued "send-transaction" (send_message request job.id)))
  send (queued "send-transaction" (send_message request job.id))
  pure job

-- What `addTransactionsToMetric` counts.
abbrev pub counted : List TransactionDetails → List (String × String)
counted transactions = map (λ d. (d.contract_address, d.entry_point)) transactions

-- The counter of the entry points grows when the operation has gone through.
abbrev pub counted_when_sent :
    {A : Type 0}
    → List TransactionDetails
    → Reply A × World
    → (Reply A × List (String × String)) × World
counted_when_sent transactions (json status a, w) = ((json status a, counted transactions), w)
counted_when_sent transactions (http_error status text, w) = ((http_error status text, []), w)
counted_when_sent transactions (next e, w) = ((next e, []), w)

-- `sendTransactionsAndCreateJobAsync`
unfoldable pub send_transactions_and_create_job_async :
    Sender
    → (Message → Result (Unit {0}))
    → SendRequest
    → World
    → (Reply Job × List (String × String)) × World
unfolding respond send_async_error send_transactions_async
send_transactions_and_create_job_async sender queue request w =
    counted_when_sent request.transactions (
      respond 201 send_async_error
        (lift sender.public_key_hash >> send_transactions_async queue request) w)

abbrev pub send_params_of : SendRequest → ℕ → SendParams
send_params_of request id = record {
  transactions = request.transactions;
  job_id = id;
  caller_id = request.caller_id;
  use_cache = request.use_cache;
}

-- `sendTransactionsAndCreateJob`
unfoldable pub send_transactions_and_create_job :
    Sender → String → SendRequest → World → (Reply SentJob × List (String × String)) × World
unfolding respond send_error send_transactions insert_job
send_transactions_and_create_job sender now request w = counted_when_sent request.transactions (
    respond 201 send_error
      (do
        lift sender.public_key_hash
        job ← insert_job sending_job
        send_transactions sender now (send_params_of request job.id))
      w)
