-- ===== src/Confirmation/Untouched.antt =====
-- processes/workers/check-operation-status: the rows that a run may not change.
use tezos_api_gateway.Base.{
  ℕ, ◌≡◌, refl, true, false, none, some, List, [], ◌∷◌, arith, inl, inr, ◌==◌, or_blank, Bool-cases,
  Option-cases,
}
use tezos_api_gateway.Base.Lists.{keep, All}
use tezos_api_gateway.Value.{Value}
use tezos_api_gateway.Exceptions.{Exn, Result-cases}
use tezos_api_gateway.Database.Schema.{Job, Operation, done, error}
use tezos_api_gateway.Database.Effect.{World, later}
use tezos_api_gateway.Database.Jobs.{
  has_id, has_quote, awaits_confirmation, update_job_status, update_job_status_and_error_message,
  select_published_jobs_with_operation_hash,
}
use tezos_api_gateway.Database.Operations.{
  select_operation, of_job, update_operation_update_date, is_operation_a_reveal,
}
use tezos_api_gateway.SmartContracts.Format.{index}
use tezos_api_gateway.Injection.Mapping.{parse_json}
use tezos_api_gateway.Database.Answers.{select_jobs-Answers}
use tezos_api_gateway.Database.Keeps.{
  KeepsJob, try_catch-KeepsJob, map_all-KeepsJob, update_job_status-KeepsJob,
  update_job_status_and_error_message-KeepsJob, select_operation-KeepsJob,
  update_operation_update_date-KeepsJob,
}
use tezos_api_gateway.Confirmation.{
  Worker, publish_event, publish_operation, confirm, check_job, expire, handle_error,
  check_published_job, reveal_message, transaction_message, check_operation_status,
}
use tezos_api_gateway.Confirmation.Indexer.{check_by_random_indexer}

pub runtime_error_is_plain : has_quote "runtime_error" ≡ false
unfolding has_quote
runtime_error_is_plain = refl

module _ (worker : Worker) (k : ℕ) where
  publish_event-KeepsJob : (m : Value × Value) → KeepsJob k (publish_event worker m)
  unfolding publish_event
  publish_event-KeepsJob (message, headers) w = elim (Option-cases worker.exchange) [
    | inl missing ↦ ground arith
    | inr (name, set) ↦ ground arith
  ]

  publish_operation-KeepsJob :
      (id : ℕ) (op : Operation) → KeepsJob k (publish_operation worker id op)
  unfolding publish_operation
  publish_operation-KeepsJob id op w = elim (Bool-cases (is_operation_a_reveal op)) [
    | inl is_reveal ↦ let h = publish_event-KeepsJob (reveal_message op) w in ground (arith, h)
    | inr is_transaction ↦
        elim (Result-cases (index (parse_json op.parameters_json) "entrypoint")) [
          | inr (x, failed) ↦ ground arith
          | inl (entrypoint, found) ↦
              let h =
                publish_event-KeepsJob
                  (transaction_message id op (parse_json op.parameters_json) entrypoint) w in
              ground (arith, h)
        ]
  ]

  each_published :
      (id : ℕ) (ops : List Operation) → All (λ op. KeepsJob k (publish_operation worker id op)) ops
  each_published id [] = tt
  each_published id (op ∷ ops) = (publish_operation-KeepsJob id op, each_published id ops)

  module _ (job : Job) (other : (job.id == k) ≡ false) where
    confirm-KeepsJob : KeepsJob k (confirm worker job)
    unfolding confirm
    confirm-KeepsJob w =
        let h₁ = update_job_status-KeepsJob k done job.id other w in
        let w₁ = (update_job_status done job.id w).1 in
        let h₂ = update_operation_update_date-KeepsJob k worker.now job.id w₁ in
        let w₂ = (update_operation_update_date worker.now job.id w₁).1 in
        let h₃ = select_operation-KeepsJob k (of_job job.id) w₂ in
        let (r, w₃) = select_operation (of_job job.id) w₂ in
        elim (Result-cases r) [
          | inr (x, failed) ↦ ground arith
          | inl (ops, selected) ↦
              let h₄ =
                map_all-KeepsJob k (publish_operation worker job.id) ops (each_published job.id ops)
                  w₃ in
              ground (arith, h₁, h₂, h₃, h₄)
        ]

    check_job-KeepsJob : KeepsJob k (check_job worker job)
    unfolding check_job
    check_job-KeepsJob w =
        elim (Result-cases (
          check_by_random_indexer (worker.around job.id) (or_blank job.operation_hash) worker.depth
            worker.retries)) [
              | inr (x, failed) ↦ ground arith
              | inl (none, unsure) ↦ ground arith
              | inl (some true, sure) ↦ let c = confirm-KeepsJob w in ground (arith, c)
              | inl (some false, sure) ↦ ground arith
            ]

    expire-KeepsJob : (ops : List Operation) → KeepsJob k (expire worker job ops)
    unfolding expire
    expire-KeepsJob ops w =
        let h₁ = update_job_status-KeepsJob k error job.id other w in
        let w₁ = (update_job_status error job.id w).1 in
        let h₂ = update_operation_update_date-KeepsJob k worker.now job.id w₁ in
        ground (arith, h₁, h₂)

    handle_error-KeepsJob : (x : Exn) → KeepsJob k (handle_error worker job x)
    unfolding handle_error
    handle_error-KeepsJob (Exn.operation_not_found hash) w =
        let h₁ = select_operation-KeepsJob k (of_job job.id) w in
        let (r, w₁) = select_operation (of_job job.id) w in
        elim (Result-cases r) [
          | inr (x, failed) ↦ ground arith
          | inl (ops, selected) ↦ let h₂ = expire-KeepsJob ops w₁ in ground (arith, h₁, h₂)
        ]
    handle_error-KeepsJob (Exn.operation_failed hash) w =
        let h₁ =
          update_job_status_and_error_message-KeepsJob k error "runtime_error" job.id
            runtime_error_is_plain other w in
        let w₁ = (update_job_status_and_error_message error "runtime_error" job.id w).1 in
        let h₂ = update_operation_update_date-KeepsJob k worker.now job.id w₁ in
        ground (arith, h₁, h₂)
    handle_error-KeepsJob x w = refl

    check_published_job-KeepsJob : KeepsJob k (check_published_job worker job)
    unfolding check_published_job
    check_published_job-KeepsJob =
        try_catch-KeepsJob k (check_job worker job) (handle_error worker job) check_job-KeepsJob
          handle_error-KeepsJob

  others :
      (jobs : List Job)
      → All (λ job. awaits_confirmation job ≡ false) (keep (has_id k) jobs)
      → All (λ job. (job.id == k) ≡ false) (keep awaits_confirmation jobs)
  others [] h = tt
  others (job ∷ jobs) h = ground (arith, others jobs)

  each_checked :
      (jobs : List Job)
      → All (λ job. (job.id == k) ≡ false) jobs
      → All (λ job. KeepsJob k (check_published_job worker job)) jobs
  each_checked [] h = tt
  each_checked (job ∷ jobs) (h, hs) = (check_published_job-KeepsJob job h, each_checked jobs hs)

  -- A run of the worker leaves alone every row of `jobs` that does not wait for its confirmation: one
  -- that is not published, or has no hash. This holds whatever the indexers and the database answer,
  -- and whichever exceptions are thrown on the way.
  pub check_operation_status_untouched :
      (w : World)
      → All (λ job. awaits_confirmation job ≡ false) (keep (has_id k) w.store.jobs)
      → keep (has_id k) (check_operation_status worker w).1.store.jobs
        ≡ keep (has_id k) w.store.jobs
  unfolding check_operation_status select_published_jobs_with_operation_hash
  check_operation_status_untouched w h = elim (select_jobs-Answers awaits_confirmation w) [
    | inl (m, fault, rejected) ↦ ground arith
    | inr selected ↦
        let jobs = keep awaits_confirmation w.store.jobs in
        let kept =
          map_all-KeepsJob k (check_published_job worker) jobs
            (each_checked jobs (others w.store.jobs h)) (record w { faults = later w.faults }) in
        ground (arith, kept)
  ]
