-- ===== src/Gateway/Workers.antt =====
-- The workers that send and that confirm, as runs of `Gateway.Steps`.
use tezos_api_gateway.Base.{
  ℕ, String, Bool, true, false, ◌||◌, ◌/◌, Option, none, some, List, [], ◌∷◌, or_blank, is_empty,
  if◌then◌else◌,
}
use tezos_api_gateway.Exceptions.{Exn, Result, ok, err, traverse, other_error}
use tezos_api_gateway.Database.Schema.{Job, Operation, published}
use tezos_api_gateway.Database.Effect.{Action, pure, throw, lift, ◌>>=◌, send, event}
use tezos_api_gateway.Database.Jobs.{has_id, select_jobs, update_job_status_and_operation_hash}
use tezos_api_gateway.Database.Operations.{insert_transaction, is_operation_a_reveal}
use tezos_api_gateway.Sending.{
  Sender, SendParams, Sent, SentJob, sending, get_operation_hash, insert_transactions, record_sent,
  send_for, send_transactions, is_absent,
}
use tezos_api_gateway.Sending
use tezos_api_gateway.Injection.Mapping.{parse_json}
use tezos_api_gateway.SmartContracts.Format.{index}
use tezos_api_gateway.Confirmation.{
  Worker, publish_event, publish_operation, transaction_message, reveal_message,
}
use tezos_api_gateway.Gateway.Steps.{here}
use tezos_api_gateway.Gateway.Invariant.Lists.{All-every}
use tezos_api_gateway.Gateway.Runs.{
  Runs, lift-Runs, >>=-Runs, try_catch-Runs, map_all-Runs, send-Runs, select_jobs-Runs,
  update_job_status_and_operation_hash-Runs, insert_transaction-Runs,
}
use tezos_api_gateway.Gateway.Handlers.{failure-Runs}
use tezos_api_gateway.Sending.{new_transaction_of, head_of, send_calls}
use tezos_api_gateway.Forge.Batch.{transaction_parameters}
use tezos_api_gateway.Value.{Value}

abbrev refusal : Exn
refusal = other_error "Public key hash or operation hash is undefined"

abbrev answer_of : Sent → List Job → Action SentJob
answer_of sent updated =
    pure (record { job = head_of updated; fee = sent.fee; gas = sent.consumed_milli_gas / 1000 })

-- The end of `record_sent`, once the address is known.
abbrev recorded : Sender → String → SendParams → Sent → Option String → Action SentJob
recorded sender now params sent pkh = insert_transactions sender now params (or_blank pkh) >>= λ _.
    update_job_status_and_operation_hash published sent.hash params.job_id >>= answer_of sent

module _ {Allowed : ℕ → Type 0} {seen : List ℕ} where
  pub sending-Runs : (r : Result Sent) → Runs Allowed seen (sending r)
  unfolding sending
  sending-Runs (ok sent) w tame = (here, tame)
  sending-Runs (err x) w tame = (here, tame)

  insert_transactions-Runs :
      (sender : Sender) (now : String) (params : SendParams) (pkh : String)
      → Allowed params.job_id
      → Runs Allowed seen (insert_transactions sender now params pkh)
  unfolding insert_transactions new_transaction_of
  insert_transactions-Runs sender now params pkh allowed =
      map_all-Runs (λ details. insert_transaction now (new_transaction_of params pkh details))
        params.transactions
        (All-every
          (λ details.
            Runs Allowed seen (insert_transaction now (new_transaction_of params pkh details)))
          params.transactions
          λ details. insert_transaction-Runs now (new_transaction_of params pkh details) allowed)

  recorded-Runs :
      (sender : Sender) (now : String) (params : SendParams) (sent : Sent) (pkh : Option String)
      → Allowed params.job_id
      → Runs Allowed seen (recorded sender now params sent pkh)
  recorded-Runs sender now params sent pkh allowed =
      let updates = update_job_status_and_operation_hash published sent.hash params.job_id in
      >>=-Runs (insert_transactions sender now params (or_blank pkh))
        (λ _. updates >>= answer_of sent)
        (insert_transactions-Runs sender now params (or_blank pkh) allowed)
        λ _.
          >>=-Runs updates (answer_of sent)
            (update_job_status_and_operation_hash-Runs sent.hash params.job_id)
            λ updated w tame. (here, tame)

  record_sent-Runs :
      (sender : Sender) (now : String) (params : SendParams) (sent : Sent)
      → Allowed params.job_id
      → Runs Allowed seen (record_sent sender now params sent)
  unfolding record_sent
  record_sent-Runs sender now params sent allowed =
      >>=-Runs (lift sender.public_key_hash)
        (λ pkh.
          if is_absent pkh || is_empty sent.hash
          then throw {A = SentJob} refusal
          else recorded sender now params sent pkh)
        (lift-Runs sender.public_key_hash) λ pkh. go pkh (is_absent pkh || is_empty sent.hash)
    where
      go :
          (pkh : Option String) (missing : Bool)
          → Runs Allowed seen
              (if missing then throw {A = SentJob} refusal else recorded sender now params sent pkh)
      go pkh true = lift-Runs {A = SentJob} (err refusal)
      go pkh false = recorded-Runs sender now params sent pkh allowed

  send_for-Runs :
      (sender : Sender) (now : String) (params : SendParams) (jobs : List Job)
      → Allowed params.job_id
      → Runs Allowed seen (send_for sender now params jobs)
  unfolding send_for get_operation_hash
  send_for-Runs sender now params [] allowed = λ w tame. (here, tame)
  send_for-Runs sender now params (_ ∷ _) allowed =
      let calls =
        traverse (transaction_parameters sender.tezos params.use_cache) params.transactions in
      >>=-Runs (lift calls >>= λ cs. sending (send_calls sender cs)) (record_sent sender now params)
        (>>=-Runs (lift calls) (λ cs. sending (send_calls sender cs)) (lift-Runs calls)
          λ cs. sending-Runs (send_calls sender cs))
        λ sent. record_sent-Runs sender now params sent allowed

  pub send_transactions-Runs :
      (sender : Sender) (now : String) (params : SendParams)
      → Allowed params.job_id
      → Runs Allowed seen (send_transactions sender now params)
  unfolding send_transactions Sending.attempt Sending.record_failure
  send_transactions-Runs sender now params allowed =
      try_catch-Runs (Sending.attempt sender now params) (Sending.record_failure sender now params)
        (>>=-Runs (select_jobs (has_id params.job_id)) (send_for sender now params)
          (select_jobs-Runs (has_id params.job_id))
          λ jobs. send_for-Runs sender now params jobs allowed)
        (failure-Runs SentJob params.job_id)

  publish_event-Runs :
      (worker : Worker) (message : Value × Value) → Runs Allowed seen (publish_event worker message)
  unfolding publish_event
  publish_event-Runs worker (body, headers) = go worker.exchange
    where
      named :
          (name : String) (blank : Bool)
          → Runs Allowed seen (
              if blank
              then throw {A = Unit {0}} (other_error "Exchange is not set")
              else send (event name body headers))
      named name true = λ w tame. (here, tame)
      named name false = send-Runs (event name body headers)

      go :
          (exchange : Option String)
          → Runs Allowed seen (elim exchange as (λ _. Action (Unit {0})) [
            | none ↦ throw (other_error "Exchange is not set")
            | some name ↦
                if is_empty name
                then throw (other_error "Exchange is not set")
                else send (event name body headers)
          ])
      go none = λ w tame. (here, tame)
      go (some name) = named name (is_empty name)

  pub publish_operation-Runs :
      (worker : Worker) (id : ℕ) (op : Operation)
      → Runs Allowed seen (publish_operation worker id op)
  unfolding publish_operation
  publish_operation-Runs worker id op = go (is_operation_a_reveal op)
    where
      found : Result Value
      found = index (parse_json op.parameters_json) "entrypoint"

      publish : Value → Action (Unit {0})
      publish entrypoint =
          publish_event worker
            (transaction_message id op (parse_json op.parameters_json) entrypoint)

      go :
          (is_reveal : Bool)
          → Runs Allowed seen (
              if is_reveal
              then publish_event worker (reveal_message op)
              else lift found >>= publish)
      go true = publish_event-Runs worker (reveal_message op)
      go false = >>=-Runs (lift found) publish (lift-Runs found) λ entrypoint.
          publish_event-Runs worker
            (transaction_message id op (parse_json op.parameters_json) entrypoint)
