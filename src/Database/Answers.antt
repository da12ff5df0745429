-- ===== src/Database/Answers.antt =====
-- What each query leaves behind: nothing, if the database rejects it, or the stated rows. A text that
-- stands between quotes must hold no quote.
use tezos_api_gateway.Base.{
  ℕ, String, ◌≡◌, refl, Bool, true, false, List, map, arith, inl, inr, ◌++◌, ◌∷◌, [], ◌+◌,
}
use tezos_api_gateway.Base.Lists.{keep}
use tezos_api_gateway.Exceptions.{Exn, ok, err}
use tezos_api_gateway.Database.Schema.{JobStatus, Job, Operation, Store}
use tezos_api_gateway.Database.Effect.{World, query, Answers, query-Answers}
use tezos_api_gateway.Database.Jobs.{
  NewJob, new_row, insert_job, select_jobs, has_id, set_where, has_quote, quoting, update_where,
  with_hash, with_status, with_status_and_hash, with_status_and_error, update_operation_hash,
  update_job_status, update_job_status_and_operation_hash, update_job_status_and_error_message,
}
use tezos_api_gateway.Database.Operations.{
  NewOperation, NewTransaction, map_operation_values, transaction_values, insert_rows,
  OperationValues, insert_operations, insert_transaction, select_operation, selected, dated, of_job,
  date_where, update_operation_update_date,
}

-- The store after an UPDATE of the job `id`, and the rows that it returns.
abbrev pub updated : ℕ → (Job → Job) → Store → Store
updated id change s = record s { jobs = set_where id change s.jobs }

abbrev pub returned : ℕ → (Job → Job) → Store → List Job
returned id change s = map change (keep (has_id id) s.jobs)

module _ (text : String) (id : ℕ) (change : Job → Job) (w : World) where
  quoted-Answers :
      (quoted : Bool)
      → quoted ≡ false
      → Answers
          (elim quoted [ true ↦ query (w.stray text) w | false ↦ update_where id change w ])
          w
          (ok (returned id change w.store))
          (updated id change w.store)
  quoted-Answers true h = cc
  quoted-Answers false h = query-Answers _ w

  stray-Answers :
      (quoted : Bool)
      → quoted ≡ true
      → Answers
          (elim quoted [ true ↦ query (w.stray text) w | false ↦ update_where id change w ])
          w
          (w.stray text w.store).0
          (w.stray text w.store).1
  stray-Answers true h = query-Answers _ w
  stray-Answers false h = cc

  quoting-Answers :
      has_quote text ≡ false
      → Answers
          (quoting text (update_where id change) w)
          w
          (ok (returned id change w.store))
          (updated id change w.store)
  quoting-Answers h = quoted-Answers (has_quote text) h

pub insert_job-Answers :
    (new : NewJob) (w : World)
    → Answers (insert_job new w) w (ok (new_row w.store.next_job new)) (record w.store {
      jobs = w.store.jobs ++ new_row w.store.next_job new ∷ [];
      next_job = w.store.next_job + 1;
    })
unfolding insert_job
insert_job-Answers new w = query-Answers _ w

pub select_jobs-Answers :
    (condition : Job → Bool) (w : World)
    → Answers (select_jobs condition w) w (ok (keep condition w.store.jobs)) w.store
unfolding select_jobs
select_jobs-Answers condition w = query-Answers _ w

pub update_operation_hash-Answers :
    (hash : String) (id : ℕ) (w : World)
    → has_quote hash ≡ false
    → Answers
        (update_operation_hash hash id w)
        w
        (ok (returned id (with_hash hash) w.store))
        (updated id (with_hash hash) w.store)
unfolding update_operation_hash
update_operation_hash-Answers hash id w plain = quoting-Answers hash id (with_hash hash) w plain

pub update_job_status-Answers :
    (status : JobStatus) (id : ℕ) (w : World)
    → Answers
        (update_job_status status id w)
        w
        (ok (returned id (with_status status) w.store))
        (updated id (with_status status) w.store)
unfolding update_job_status
update_job_status-Answers status id w = query-Answers _ w

pub update_job_status_and_operation_hash-Answers :
    (status : JobStatus) (hash : String) (id : ℕ) (w : World)
    → has_quote hash ≡ false
    → Answers
        (update_job_status_and_operation_hash status hash id w)
        w
        (ok (returned id (with_status_and_hash status hash) w.store))
        (updated id (with_status_and_hash status hash) w.store)
unfolding update_job_status_and_operation_hash
update_job_status_and_operation_hash-Answers status hash id w plain =
    quoting-Answers hash id (with_status_and_hash status hash) w plain

pub update_job_status_and_error_message-Answers :
    (status : JobStatus) (message : String) (id : ℕ) (w : World)
    → has_quote message ≡ false
    → Answers
        (update_job_status_and_error_message status message id w)
        w
        (ok (returned id (with_status_and_error status message) w.store))
        (updated id (with_status_and_error status message) w.store)
unfolding update_job_status_and_error_message
update_job_status_and_error_message-Answers status message id w plain =
    quoting-Answers message id (with_status_and_error status message) w plain

-- A message with a quote: what Postgres makes of the statement is not the source's to say.
pub update_job_status_and_error_message-stray :
    (status : JobStatus) (message : String) (id : ℕ) (w : World)
    → has_quote message ≡ true
    → Answers
        (update_job_status_and_error_message status message id w)
        w
        (w.stray message w.store).0
        (w.stray message w.store).1
unfolding update_job_status_and_error_message
update_job_status_and_error_message-stray status message id w loud =
    stray-Answers message id (with_status_and_error status message) w (has_quote message) loud

pub insert_operations-Answers :
    (now : String) (contents : List NewOperation) (branch : String) (job_id : ℕ)
    (caller_id : String) (w : World)
    → let (r, s) =
        insert_rows (map (map_operation_values now branch job_id caller_id) contents) w.store in
      Answers (insert_operations now contents branch job_id caller_id w) w r s
unfolding insert_operations
insert_operations-Answers now contents branch job_id caller_id w = query-Answers _ w

pub insert_operations-eq-ok :
    (now : String) (contents : List NewOperation) (branch : String) (job_id : ℕ)
    (caller_id : String) (w : World) {rows : List Operation} {w' : World}
    → insert_operations now contents branch job_id caller_id w ≡ (ok rows, w')
    → let (r, s) =
        insert_rows (map (map_operation_values now branch job_id caller_id) contents) w.store in
      (r ≡ ok rows) × (w'.store ≡ s)
insert_operations-eq-ok now contents branch job_id caller_id w e =
    elim (insert_operations-Answers now contents branch job_id caller_id w) [
      | inl (m, fault, rejected) ↦ ground arith
      | inr answered ↦ (ground arith, ground arith)
    ]

pub insert_transaction-Answers :
    (now : String) (new : NewTransaction) (w : World)
    → let (r, s) = insert_rows (transaction_values now new ∷ []) w.store in
      Answers (insert_transaction now new w) w r s
unfolding insert_transaction
insert_transaction-Answers now new w = query-Answers _ w

pub select_operation-Answers :
    (condition : Operation → Bool) (w : World)
    → Answers (select_operation condition w) w (ok (selected condition w)) w.store
unfolding select_operation
select_operation-Answers condition w = query-Answers _ w

pub update_operation_update_date-Answers :
    (now : String) (id : ℕ) (w : World)
    → Answers
        (update_operation_update_date now id w)
        w
        (ok (map (dated now) (keep (of_job id) w.store.operations)))
        (record w.store { operations = date_where now id w.store.operations })
unfolding update_operation_update_date
update_operation_update_date-Answers now id w = query-Answers _ w

-- An insertion of rows leaves the jobs alone, and one that fails leaves all alone.
pub insert_rows_keeps :
    (vs : List OperationValues) (s : Store)
    → ((insert_rows vs s).1.jobs ≡ s.jobs)
      × ((x : Exn) → (insert_rows vs s).0 ≡ err x → (insert_rows vs s).1 ≡ s)
unfolding insert_rows
insert_rows_keeps [] s = (refl, λ x e. refl)
insert_rows_keeps (v ∷ vs) s = (ground arith, λ x e. ground arith)

pub insert_operations_keeps :
    (now : String) (contents : List NewOperation) (branch : String) (job_id : ℕ)
    (caller_id : String) (w : World)
    → let (r, w') = insert_operations now contents branch job_id caller_id w in
      (w'.store.jobs ≡ w.store.jobs)
      × (w'.broadcast ≡ w.broadcast)
      × (w'.sent ≡ w.sent)
      × ((x : Exn) → r ≡ err x → w'.store ≡ w.store)
insert_operations_keeps now contents branch job_id caller_id w =
    let vs = map (map_operation_values now branch job_id caller_id) contents in
    let (jobs, failed) = insert_rows_keeps vs w.store in
    elim (insert_operations-Answers now contents branch job_id caller_id w) [
      | inl (m, fault, rejected) ↦ rw rejected (refl, refl, refl, λ x e. refl)
      | inr answered ↦ rw answered (jobs, refl, refl, failed)
    ]
