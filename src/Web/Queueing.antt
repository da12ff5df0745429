-- ===== src/Web/Queueing.antt =====
-- What the controller of an asynchronous sending has done.
use tezos_api_gateway.Base.{String, ◌≡◌, ◌⊎◌, refl, List, [], ◌∷◌, ◌++◌, arith, inl, inr}
use tezos_api_gateway.Exceptions.{Exn, Result, err, Result-cases}
use tezos_api_gateway.Database.Schema.{Job}
use tezos_api_gateway.Database.Effect.{World, Message, queued, send}
use tezos_api_gateway.Database.Jobs.{new_row}
use tezos_api_gateway.Database.Answers.{insert_job-Answers}
use tezos_api_gateway.Sending.{Sender}
use tezos_api_gateway.Web.{Reply, json, respond}
use tezos_api_gateway.Web.Errors.{send_async_error}
use tezos_api_gateway.Web.Injecting.{
  SendRequest, sending_job, send_message, counted, send_transactions_async,
  send_transactions_and_create_job_async,
}

-- The answer, the metric and the world of an answer of 201, those of an error that leaves the tables
-- alone, and those of a message that the broker has refused.
abbrev pub IsQueued : SendRequest → World → (Reply Job × List (String × String)) × World → Type 0
IsQueued request w ((reply, counts), w') =
    (job : Job) × (reply ≡ json 201 job)
    × (job ≡ new_row w.store.next_job sending_job)
    × (w'.store.jobs ≡ w.store.jobs ++ job ∷ [])
    × (w'.store.operations ≡ w.store.operations)
    × (w'.sent ≡ w.sent ++ queued "send-transaction" (send_message request job.id) ∷ [])
    × (counts ≡ counted request.transactions)

abbrev pub IsRefused : World → (Reply Job × List (String × String)) × World → Type 0
IsRefused w ((reply, counts), w') =
    (w'.store ≡ w.store)
    × (w'.sent ≡ w.sent)
    × (w'.broadcast ≡ w.broadcast)
    × (counts ≡ [])
    × ((job : Job) → reply ≡ json 201 job → ⊥)

abbrev pub IsStranded :
    (Message → Result (Unit {0}))
    → SendRequest
    → World
    → (Reply Job × List (String × String)) × World
    → Type 0
IsStranded queue request w ((reply, counts), w') =
    (e : Exn) × (queue (queued "send-transaction" (send_message request w.store.next_job)) ≡ err e)
    × (reply ≡ send_async_error e)
    × (w'.store.jobs ≡ w.store.jobs ++ new_row w.store.next_job sending_job ∷ [])
    × (w'.store.operations ≡ w.store.operations)
    × (w'.sent ≡ w.sent)
    × (counts ≡ [])

module _ (sender : Sender) (queue : Message → Result (Unit {0})) (request : SendRequest)
    (w : World) where
  -- An asynchronous sending has one of three outcomes. It is answered with 201 and a new job, which is the
  -- last row of `jobs`; then one message with the request and the id of that job is on the queue,
  -- and each transaction is counted once. Or it is answered with an error and nothing is stored, sent
  -- or counted. Or the broker refuses the message: it is answered with that error, the new job stays
  -- behind, and nothing is sent or counted.
  pub send_transactions_and_create_job_async-outcome :
      let end = send_transactions_and_create_job_async sender queue request w in
      IsQueued request w end ⊎ (IsRefused w end ⊎ IsStranded queue request w end)
  unfolding send_transactions_and_create_job_async respond send_transactions_async send new_row
      send_async_error
  send_transactions_and_create_job_async-outcome = elim (Result-cases sender.public_key_hash) [
    | inr (e, failed) ↦
        inr (inl (ground arith, ground arith, ground arith, ground arith, λ job e. ground arith))
    | inl (pkh, known) ↦ elim (insert_job-Answers sending_job w) [
      | inl (m, fault, rejected) ↦
          inr (inl (ground arith, ground arith, ground arith, ground arith, λ job e. ground arith))
      | inr answered ↦
          elim (Result-cases
            (queue (queued "send-transaction" (send_message request w.store.next_job)))) [
              | inr (e, failed) ↦ inr (
                  inr (
                    e,
                    failed,
                    ground arith,
                    ground arith,
                    ground arith,
                    ground arith,
                    ground arith,
                  ))
              | inl (u, taken) ↦ inl (
                new_row w.store.next_job sending_job,
                ground arith,
                refl,
                ground arith,
                ground arith,
                ground arith,
                ground arith,
              )
            ]
    ]
  ]
