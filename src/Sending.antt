-- ===== src/Sending.antt =====
-- lib/jobs/send-transactions.ts: sign a batch with a key of the vault, send it, and record its hash.
pub mod Transfers
pub mod Broadcast
pub mod Laws
use Prim.Native.String
use tezos_api_gateway.Base.{
  ℕ, String, Bool, true, false, ◌||◌, ◌/◌, Option, none, some, List, [], ◌∷◌, ◌++◌, or_blank,
  is_empty, if◌then◌else◌,
}
use tezos_api_gateway.Base.Int.{pos}
use tezos_api_gateway.Base.Decimal.{to_string}
use tezos_api_gateway.Value.{Value}
use tezos_api_gateway.Exceptions.{
  Exn, job_id_not_found, other_error, Result, ok, err, traverse, message, is_job_id_not_found,
}
use tezos_api_gateway.Database.Schema.{Job, Operation, published, error}
use tezos_api_gateway.Database.Effect.{
  World, Action, pure, throw, lift, try_catch, ◌>>=◌, ◌>>◌, map_all,
}
use tezos_api_gateway.Database.Jobs.{
  has_id, select_jobs, update_job_status_and_operation_hash, update_job_status_and_error_message,
}
use tezos_api_gateway.Database.Operations.{insert_transaction, NewTransaction}
use tezos_api_gateway.Forge.Node.{TezosService, TransactionDetails}
use tezos_api_gateway.Forge.Batch.{transaction_parameters, create_parameters_json, amount_or_zero}

-- `SendTransactionsToQueueParams`, without the name of the key.
pub record SendParams : Type 0 where
  pub transactions : List TransactionDetails
  pub job_id : ℕ
  pub caller_id : Option String
  pub use_cache : Bool

-- What Taquito returns of an operation that it has sent.
pub record Sent : Type 0 where
  pub hash : String
  pub fee : ℕ
  pub consumed_milli_gas : ℕ

-- Taquito with the vault's signer: `ContractMethod.send`, `batch.send`, and the address of the key.
pub record Sender : Type 0 where
  pub tezos : TezosService
  pub send_one : TransactionDetails → Value → Result Sent
  pub send_batch : List (TransactionDetails × Value) → Result Sent
  pub public_key_hash : Result (Option String)

pub record SentJob : Type 0 where
  pub job : Option Job
  pub fee : ℕ
  pub gas : ℕ

-- A call that signs and sends: what is accepted is on its way to the chain.
unfoldable pub sending : Result Sent → Action Sent
sending (err e) w = (err e, w)
sending (ok sent) w = (ok sent, record w { broadcast = w.broadcast ++ sent.hash ∷ [] })

-- The operation of `getOperationHashFromTezos`: a call of its own, or a batch.
unfoldable pub send_calls : Sender → List (TransactionDetails × Value) → Result Sent
send_calls sender ((details, parameter) ∷ []) = sender.send_one details parameter
send_calls sender calls = sender.send_batch calls

abbrev pub head_of : List Job → Option Job
head_of [] = none
head_of (job ∷ _) = some job

-- `!pkh`
abbrev pub is_absent : Option String → Bool
is_absent none = true
is_absent (some s) = is_empty s

unfoldable pub new_transaction_of : SendParams → String → TransactionDetails → NewTransaction
unfolding create_parameters_json
new_transaction_of params pkh details = record {
  destination = details.contract_address;
  source = pkh;
  parameters_json = create_parameters_json details;
  amount = pos (amount_or_zero details.amount);
  job_id = params.job_id;
  caller_id = some (or_blank params.caller_id);
}

module _ (sender : Sender) (now : String) (params : SendParams) where
  -- `getOperationHashFromTezos`
  unfoldable pub get_operation_hash : Action Sent
  unfolding send_calls sending traverse
  get_operation_hash = do
    calls ←
        lift (traverse (transaction_parameters sender.tezos params.use_cache) params.transactions)
    sending (send_calls sender calls)

  unfoldable pub insert_transactions : String → Action (List (List Operation))
  unfolding map_all insert_transaction new_transaction_of
  insert_transactions pkh =
      map_all (λ details. insert_transaction now (new_transaction_of params pkh details))
        params.transactions

  -- From the address of the key to the answer.
  unfoldable pub record_sent : Sent → Action SentJob
  unfolding insert_transactions
  record_sent sent = do
    pkh ← lift sender.public_key_hash
    if is_absent pkh || is_empty sent.hash
        then throw (other_error "Public key hash or operation hash is undefined")
        else (do
          insert_transactions (or_blank pkh)
          updated ← update_job_status_and_operation_hash published sent.hash params.job_id
          pure (record {
            job = head_of updated;
            fee = sent.fee;
            gas = sent.consumed_milli_gas / 1000;
          }))

  -- From the rows of the job to the end of the `try` block.
  unfoldable pub send_for : List Job → Action SentJob
  unfolding get_operation_hash record_sent
  send_for [] = throw (
      job_id_not_found
        (String.◌++◌ "Could not find job with this id: " (to_string (pos params.job_id))))
  send_for (_ ∷ _) = get_operation_hash >>= record_sent

  -- The `try` block.
  unfoldable pub attempt : Action SentJob
  unfolding send_for
  attempt = select_jobs (has_id params.job_id) >>= send_for

  -- The `catch` block: the known and the unknown errors differ in what is logged alone.
  unfoldable pub record_failure : Exn → Action SentJob
  record_failure e = elim (is_job_id_not_found e) [
    | true ↦ throw e
    | false ↦ do update_job_status_and_error_message error (message e) params.job_id; throw e
  ]

  unfoldable pub send_transactions : Action SentJob
  unfolding attempt record_failure
  send_transactions = try_catch attempt record_failure
