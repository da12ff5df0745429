-- ===== src/Sending/Broadcast.antt =====
-- What lib/jobs/send-transactions.ts hands to the chain, on every path.
use tezos_api_gateway.Base.{
  String, ◌≡◌, refl, ◌∙◌, ◌⊎◌, inl, inr, Bool, true, false, List, [], ◌∷◌, ◌++◌, arith, or_blank,
  Bool-cases,
}
use tezos_api_gateway.Base.Lists.{keep}
use tezos_api_gateway.Value.{Value}
use tezos_api_gateway.Exceptions.{ok, Result-cases, traverse, message}
use tezos_api_gateway.Database.Schema.{Job, published, error}
use tezos_api_gateway.Database.Effect.{World, map_all, later, query-Answers}
use tezos_api_gateway.Database.Jobs.{
  has_id, has_quote, update_job_status_and_operation_hash, update_job_status_and_error_message,
}
use tezos_api_gateway.Database.Operations.{insert_transaction, NewTransaction, transaction_values}
use tezos_api_gateway.Database.Answers.{
  select_jobs-Answers, insert_transaction-Answers, insert_rows_keeps,
  update_job_status_and_operation_hash-Answers, update_job_status_and_error_message-Answers,
}
use tezos_api_gateway.Forge.Node.{TransactionDetails}
use tezos_api_gateway.Forge.Batch.{transaction_parameters}
use tezos_api_gateway.Sending.{
  Sender, SendParams, Sent, sending, send_calls, new_transaction_of, get_operation_hash,
  insert_transactions, record_sent, send_for, attempt, record_failure, send_transactions,
}

abbrev is_nil : List Job → Bool
is_nil [] = true
is_nil (_ ∷ _) = false

-- The jobs and what was sent are the same.
abbrev pub SameJobs : World → World → Type 0
SameJobs w w' = (w'.store.jobs ≡ w.store.jobs) × (w'.broadcast ≡ w.broadcast)

insert_transaction-SameJobs :
    (now : String) (new : NewTransaction) (w : World) → SameJobs w (insert_transaction now new w).1
insert_transaction-SameJobs now new w =
    let a = insert_transaction-Answers now new w in
    let (jobs, failed) = insert_rows_keeps (transaction_values now new ∷ []) w.store in
    (ground (arith, a, jobs), ground (arith, a))

module _ (sender : Sender) (now : String) (params : SendParams) where
  map_all-SameJobs :
      (pkh : String) (list : List TransactionDetails) (w : World)
      → SameJobs w
          (map_all
            (λ details. insert_transaction now (new_transaction_of params pkh details))
            list
            w).1
  unfolding map_all
  map_all-SameJobs pkh [] w = (refl, refl)
  map_all-SameJobs pkh (details ∷ list) w =
      let new = new_transaction_of params pkh details in
      let (jobs, sent) = insert_transaction-SameJobs now new w in
      let (more, later_sent) = map_all-SameJobs pkh list (insert_transaction now new w).1 in
      (more ∙ jobs, later_sent ∙ sent)

  pub insert_transactions-SameJobs :
      (pkh : String) (w : World) → SameJobs w (insert_transactions sender now params pkh w).1
  unfolding insert_transactions
  insert_transactions-SameJobs pkh w = map_all-SameJobs pkh params.transactions w

  -- What `send_transactions` has handed over at the end: nothing, or one operation.
  abbrev pub SentOnce : World → World → Type 0
  SentOnce w w' =
      (w'.broadcast ≡ w.broadcast)
      ⊎ ((calls : List (TransactionDetails × Value)) × (sent : Sent) × (traverse
              (transaction_parameters sender.tezos params.use_cache) params.transactions
            ≡ ok calls)
          × (send_calls sender calls ≡ ok sent)
          × (w'.broadcast ≡ w.broadcast ++ sent.hash ∷ []))

  update_keeps_broadcast :
      (hash : String) (w : World)
      → (update_job_status_and_operation_hash published hash params.job_id w).1.broadcast
        ≡ w.broadcast
  unfolding update_job_status_and_operation_hash
  update_keeps_broadcast hash w =
      let a = query-Answers (w.stray hash) w in
      elim (Bool-cases (has_quote hash)) [
        | inl loud ↦ ground (arith, a)
        | inr plain ↦
            let b =
              update_job_status_and_operation_hash-Answers published hash params.job_id w plain in
            ground (arith, b)
      ]

  mark_keeps_broadcast :
      (text : String) (w : World)
      → (update_job_status_and_error_message error text params.job_id w).1.broadcast ≡ w.broadcast
  unfolding update_job_status_and_error_message
  mark_keeps_broadcast text w =
      let a = query-Answers (w.stray text) w in
      elim (Bool-cases (has_quote text)) [
        | inl loud ↦ ground (arith, a)
        | inr plain ↦
            let b = update_job_status_and_error_message-Answers error text params.job_id w plain in
            ground (arith, b)
      ]

  record_sent_keeps_broadcast :
      (sent : Sent) (w : World) → (record_sent sender now params sent w).1.broadcast ≡ w.broadcast
  unfolding record_sent
  record_sent_keeps_broadcast sent w = elim (Result-cases sender.public_key_hash) [
    | inr (x, failed) ↦ ground arith
    | inl (pkh, found) ↦
        let a = insert_transactions-SameJobs (or_blank pkh) w in
        let b =
          update_keeps_broadcast sent.hash
            (insert_transactions sender now params (or_blank pkh) w).1 in
        ground (arith, a.1, b)
  ]

  attempt_sends_once : (w : World) → SentOnce w (attempt sender now params w).1
  unfolding attempt send_for get_operation_hash sending
  attempt_sends_once w = elim (select_jobs-Answers (has_id params.job_id) w) [
    | inl (m, fault, rejected) ↦ inl (ground arith)
    | inr selected ↦ elim (Bool-cases (is_nil (keep (has_id params.job_id) w.store.jobs))) [
      | inl missing ↦ inl (ground arith)
      | inr exists ↦
          elim (Result-cases
            (traverse (transaction_parameters sender.tezos params.use_cache) params.transactions)) [
              | inr (x, failed) ↦ inl (ground arith)
              | inl (calls, formed) ↦ elim (Result-cases (send_calls sender calls)) [
                | inr (x, failed) ↦ inl (ground arith)
                | inl (sent, accepted) ↦
                    let kept = record_sent_keeps_broadcast sent (record w {
                      faults = later w.faults;
                      broadcast = w.broadcast ++ sent.hash ∷ [];
                    }) in
                    inr (calls, sent, formed, accepted, ground (arith, kept))
              ]
            ]
    ]
  ]

  catch_keeps_broadcast :
      (w : World)
      → (send_transactions sender now params w).1.broadcast
        ≡ (attempt sender now params w).1.broadcast
  unfolding send_transactions record_failure
  catch_keeps_broadcast w = elim (Result-cases (attempt sender now params w).0) [
    | inl (job, returned) ↦ ground arith
    | inr (x, thrown) ↦
        let kept = mark_keeps_broadcast (message x) (attempt sender now params w).1 in
        ground (arith, kept)
  ]

  -- Whatever the database and the node answer, and whichever exception ends it, a run hands nothing to
  -- the chain, or one operation: that of all the transactions in their order.
  pub send_transactions_sends_once :
      (w : World) → SentOnce w (send_transactions sender now params w).1
  send_transactions_sends_once w = go (attempt_sends_once w)
    where
      go :
          SentOnce w (attempt sender now params w).1
          → SentOnce w (send_transactions sender now params w).1
      go (inl nothing) = inl (catch_keeps_broadcast w ∙ nothing)
      go (inr (calls, sent, formed, accepted, out)) =
          inr (calls, sent, formed, accepted, catch_keeps_broadcast w ∙ out)
