-- ===== src/Sending/Laws.antt =====
-- What lib/jobs/send-transactions.ts has recorded when it ends.
use tezos_api_gateway.Base.{
  String, ◌≡◌, ◌≢◌, inl, inr, false, ◌||◌, some, List, [], ◌∷◌, ◌++◌, arith, or_blank, is_empty,
}
use tezos_api_gateway.Base.Lists.{keep}
use tezos_api_gateway.Value.{Value}
use tezos_api_gateway.Exceptions.{
  Exn, ok, err, Result-cases, traverse, message, is_job_id_not_found,
}
use tezos_api_gateway.Database.Schema.{published, error}
use tezos_api_gateway.Database.Effect.{World, later}
use tezos_api_gateway.Database.Jobs.{
  has_id, has_quote, set_where, with_status_and_hash, with_status_and_error,
}
use tezos_api_gateway.Database.Answers.{
  select_jobs-Answers, update_job_status_and_operation_hash-Answers,
  update_job_status_and_error_message-Answers,
}
use tezos_api_gateway.Forge.Node.{TransactionDetails}
use tezos_api_gateway.Forge.Batch.{transaction_parameters}
use tezos_api_gateway.Sending.Broadcast.{insert_transactions-SameJobs}
use tezos_api_gateway.Sending.{
  Sender, SendParams, Sent, SentJob, sending, send_calls, get_operation_hash, insert_transactions,
  record_sent, send_for, attempt, record_failure, send_transactions,
}

pub record IsSent (sender : Sender) (params : SendParams) (w w' : World) (result : SentJob)
    : Type 0 where
  pub calls : List (TransactionDetails × Value)
  pub sent : Sent
  pub exists : keep (has_id params.job_id) w.store.jobs ≢ []
  pub formed :
      traverse (transaction_parameters sender.tezos params.use_cache) params.transactions ≡ ok calls
  pub accepted : send_calls sender calls ≡ ok sent
  pub broadcast : w'.broadcast ≡ w.broadcast ++ sent.hash ∷ []
  pub jobs :
      w'.store.jobs
      ≡ set_where params.job_id (with_status_and_hash published sent.hash) w.store.jobs
  pub fee : result.fee ≡ sent.fee

module _ (sender : Sender) (now : String) (params : SendParams) where
  -- While the database answers the query for the job and the UPDATE that marks it, a run whose rows are
  -- refused after the operation was sent ends with that error: the operation is with the chain, and
  -- the job is marked as failed. The message of the refusal must hold no quote.
  pub send_transactions_loses :
      (w v : World) (calls : List (TransactionDetails × Value)) (sent : Sent) (pkh : String)
      (x : Exn)
      → w.faults ≡ []
      → keep (has_id params.job_id) w.store.jobs ≢ []
      → traverse (transaction_parameters sender.tezos params.use_cache) params.transactions
        ≡ ok calls
      → send_calls sender calls ≡ ok sent
      → sender.public_key_hash ≡ ok (some pkh)
      → (is_empty pkh || is_empty sent.hash) ≡ false
      → insert_transactions sender now params pkh
          (record w { broadcast = w.broadcast ++ sent.hash ∷ [] })
        ≡ (err x, v)
      → v.faults ≡ []
      → is_job_id_not_found x ≡ false
      → has_quote (message x) ≡ false
      → ((send_transactions sender now params w).0 ≡ err x)
        × ((send_transactions sender now params w).1.broadcast ≡ w.broadcast ++ sent.hash ∷ [])
        × ((send_transactions sender now params w).1.store.jobs
            ≡ set_where params.job_id (with_status_and_error error (message x)) w.store.jobs)
  unfolding send_transactions record_failure attempt send_for get_operation_hash sending record_sent
  send_transactions_loses w v calls sent pkh x ready exists formed accepted key named refused quiet
        other plain =
      let a = select_jobs-Answers (has_id params.job_id) w in
      let kept =
        insert_transactions-SameJobs sender now params pkh
          (record w { broadcast = w.broadcast ++ sent.hash ∷ [] }) in
      let b = update_job_status_and_error_message-Answers error (message x) params.job_id v plain in
      (ground (arith, a, b), ground (arith, a, kept.1, b), ground (arith, a, kept.0, b))

  record_sent-inv :
      (sent : Sent) (w w' : World) (result : SentJob)
      → has_quote sent.hash ≡ false
      → record_sent sender now params sent w ≡ (ok result, w')
      → (w'.broadcast ≡ w.broadcast)
        × (w'.store.jobs
            ≡ set_where params.job_id (with_status_and_hash published sent.hash) w.store.jobs)
        × (result.fee ≡ sent.fee)
  unfolding record_sent
  record_sent-inv sent w w' result plain e = elim (Result-cases sender.public_key_hash) [
    | inr (x, failed) ↦ ground arith
    | inl (pkh, found) ↦
        let v = (insert_transactions sender now params (or_blank pkh) w).1 in
        let a = insert_transactions-SameJobs sender now params (or_blank pkh) w in
        let b =
          update_job_status_and_operation_hash-Answers published sent.hash params.job_id v plain in
        (ground (arith, a.1, b), ground (arith, a.0, b), ground (arith, b))
  ]

  failure_throws :
      (x : Exn) (v w' : World) (result : SentJob)
      → record_failure sender now params x v ≢ (ok result, w')
  unfolding record_failure
  failure_throws x v w' result = ground arith

  attempt_returned :
      (w w' : World) (result : SentJob)
      → send_transactions sender now params w ≡ (ok result, w')
      → attempt sender now params w ≡ (ok result, w')
  unfolding send_transactions
  attempt_returned w w' result e = elim (Result-cases (attempt sender now params w).0) [
    | inl (job, returned) ↦ ground arith
    | inr (x, thrown) ↦
        absurd (failure_throws x (attempt sender now params w).1 w' result (ground arith))
  ]

  -- A run that returns has found the job, has sent one operation with all the transactions in their
  -- order, and has published the job with the hash of that operation, and changed no other job. The
  -- answer has the fee that Taquito gives. The hash must hold no quote.
  pub send_transactions-IsSent :
      (w w' : World) (result : SentJob)
      → ((calls : List (TransactionDetails × Value)) (sent : Sent)
          → send_calls sender calls ≡ ok sent
          → has_quote sent.hash ≡ false)
      → send_transactions sender now params w ≡ (ok result, w')
      → IsSent sender params w w' result
  unfolding attempt send_for get_operation_hash sending
  send_transactions-IsSent w w' result plain e =
      let returned = attempt_returned w w' result e in
      elim (select_jobs-Answers (has_id params.job_id) w) [
        | inl (m, fault, rejected) ↦ ground arith
        | inr selected ↦
            elim (Result-cases (
              traverse (transaction_parameters sender.tezos params.use_cache)
                params.transactions)) [
                  | inr (x, failed) ↦ ground arith
                  | inl (calls, formed) ↦ elim (Result-cases (send_calls sender calls)) [
                    | inr (x, failed) ↦ ground arith
                    | inl (sent, accepted) ↦
                        let v = record w {
                          faults = later w.faults;
                          broadcast = w.broadcast ++ sent.hash ∷ [];
                        } in
                        let (out, jobs, fee) =
                          record_sent-inv sent v w' result (plain calls sent accepted)
                            (ground arith) in
                        record {
                          calls = calls;
                          sent = sent;
                          exists = ground arith;
                          formed = formed;
                          accepted = accepted;
                          broadcast = out;
                          jobs = jobs;
                          fee = fee;
                        }
                  ]
                ]
      ]
