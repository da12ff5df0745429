-- ===== src/Gateway/Confirming.antt =====
-- The confirmation worker as a run of `Gateway.Steps`: it reads the jobs that wait, and then changes
-- those jobs alone.
use tezos_api_gateway.Base.{
  ℕ, String, ◌≡◌, sym, subst, Bool, true, false, Option, none, some, List, [], ◌∷◌, ◌++◌, map,
  arith, inl, inr, or_blank, if◌then◌else◌,
}
use tezos_api_gateway.Base.Lists.{keep, All}
use tezos_api_gateway.Exceptions.{Exn, Result, ok, operation_not_found, operation_failed}
use tezos_api_gateway.Database.Schema.{Job, Operation, done, error}
use tezos_api_gateway.Database.Effect.{World, Action, pure, lift, ◌>>=◌, map_all, later}
use tezos_api_gateway.Database.Jobs.{
  awaits_confirmation, select_published_jobs_with_operation_hash,
  update_job_status_and_error_message, update_job_status,
}
use tezos_api_gateway.Database.Answers.{select_jobs-Answers}
use tezos_api_gateway.Database.Operations.{select_operation, of_job, update_operation_update_date}
use tezos_api_gateway.Confirmation.{
  is_expired, Worker, first_date, expire, publish_operation, confirm, check_job, handle_error,
  check_published_job, check_operation_status,
}
use tezos_api_gateway.Gateway.Steps.{Reach, here, observe, Reach-trans, Reach-step, member, id_of}
use tezos_api_gateway.Gateway.Invariant.Lists.{All-weaken, All-every}
use tezos_api_gateway.Gateway.Runs.{
  IsTame, at, Runs, lift-Runs, >>=-Runs, try_catch-Runs, map_all-Runs, select_operation-Runs,
  update_job_status_and_error_message-Runs, finish-Runs, give_up-Runs,
  update_operation_update_date-Runs,
}
use tezos_api_gateway.Confirmation.Indexer.{check_by_random_indexer}
use tezos_api_gateway.Gateway.Workers.{publish_operation-Runs}

module _ {Allowed : ℕ → Type 0} {seen : List ℕ} (worker : Worker) where
  confirm-Runs : (job : Job) → member job.id seen ≡ true → Runs Allowed seen (confirm worker job)
  unfolding confirm
  confirm-Runs job known =
      let id = job.id in
      let dates = update_operation_update_date worker.now id in
      let publish : List Operation → Action (Unit {0}) =
        λ ops. map_all (publish_operation worker id) ops >>= λ _. pure tt in
      >>=-Runs (update_job_status done id)
        (λ _. dates >>= λ _. select_operation (of_job id) >>= publish) (finish-Runs id known)
        λ _.
          >>=-Runs dates (λ _. select_operation (of_job id) >>= publish)
            (update_operation_update_date-Runs worker.now id)
            λ _.
              >>=-Runs (select_operation (of_job id)) publish (select_operation-Runs (of_job id))
                λ ops.
                  >>=-Runs (map_all (publish_operation worker id) ops) (λ _. pure tt)
                    (map_all-Runs (publish_operation worker id) ops (
                      All-every (λ op. Runs Allowed seen (publish_operation worker id op)) ops
                        λ op. publish_operation-Runs worker id op))
                    λ _. lift-Runs {A = Unit {0}} (ok tt)

  check_job-Runs :
      (job : Job) → member job.id seen ≡ true → Runs Allowed seen (check_job worker job)
  unfolding check_job
  check_job-Runs job known = >>=-Runs (lift answer) follow (lift-Runs answer) go
    where
      answer : Result (Option Bool)
      answer =
          check_by_random_indexer (worker.around job.id) (or_blank job.operation_hash) worker.depth
            worker.retries

      follow : Option Bool → Action (Unit {0})
      follow (some true) = confirm worker job
      follow (some false) = pure tt
      follow none = pure tt

      go : (confirmed : Option Bool) → Runs Allowed seen (follow confirmed)
      go (some true) = confirm-Runs job known
      go (some false) = λ w tame. (here, tame)
      go none = λ w tame. (here, tame)

  first_date-Runs : (ops : List Operation) → Runs Allowed seen (first_date worker ops)
  first_date-Runs [] = λ w tame. (here, tame)
  first_date-Runs (_ ∷ _) = λ w tame. (here, tame)

  dated-Runs :
      (id : ℕ)
      → Runs Allowed seen (update_operation_update_date worker.now id >>= first_date worker)
  dated-Runs id =
      >>=-Runs (update_operation_update_date worker.now id) (first_date worker)
        (update_operation_update_date-Runs worker.now id) first_date-Runs

  expire-Runs : (job : Job) (ops : List Operation) → Runs Allowed seen (expire worker job ops)
  unfolding expire
  expire-Runs job [] = λ w tame. (here, tame)
  expire-Runs job (op ∷ ops) = go op.creation_date
    where
      dates : Action (Unit {0})
      dates = update_operation_update_date worker.now job.id >>= first_date worker

      late :
          (expired : Bool)
          → Runs Allowed seen
              (if expired then (update_job_status error job.id >>= λ _. dates) else pure tt)
      late true =
          >>=-Runs (update_job_status error job.id) (λ _. dates) (give_up-Runs job.id)
            λ _. dated-Runs job.id
      late false = λ w tame. (here, tame)

      go :
          (date : Option String)
          → Runs Allowed seen (elim date as (λ _. Action (Unit {0})) [
            | none ↦ pure tt
            | some d ↦
                if is_expired worker d
                then (update_job_status error job.id >>= λ _. dates)
                else pure tt
          ])
      go none = λ w tame. (here, tame)
      go (some date) = late (is_expired worker date)

  handle_error-Runs : (job : Job) (e : Exn) → Runs Allowed seen (handle_error worker job e)
  unfolding handle_error
  handle_error-Runs job (operation_not_found hash) =
      >>=-Runs (select_operation (of_job job.id)) (expire worker job)
        (select_operation-Runs (of_job job.id)) (expire-Runs job)
  handle_error-Runs job (operation_failed hash) =
      >>=-Runs (update_job_status_and_error_message error "runtime_error" job.id)
        (λ _. update_operation_update_date worker.now job.id >>= first_date worker)
        (update_job_status_and_error_message-Runs "runtime_error" job.id) λ _. dated-Runs job.id
  handle_error-Runs job _ = λ w tame. (here, tame)

  check_published_job-Runs :
      (job : Job) → member job.id seen ≡ true → Runs Allowed seen (check_published_job worker job)
  unfolding check_published_job
  check_published_job-Runs job known =
      try_catch-Runs (check_job worker job) (handle_error worker job) (check_job-Runs job known)
        (handle_error-Runs job)

seen_all :
    (jobs : List Job) (seen : List ℕ)
    → All (λ job. member job.id (map id_of jobs ++ seen) ≡ true) jobs
seen_all [] seen = tt
seen_all (j ∷ jobs) seen = (
  ground arith,
  All-weaken (λ job. member job.id (map id_of jobs ++ seen) ≡ true)
      (λ job. member job.id (j.id ∷ map id_of jobs ++ seen) ≡ true) jobs
      (λ job h. ground (arith, h)) (seen_all jobs seen),
)

-- A run of the confirmation worker is a sequence of the steps: it observes the jobs that wait, and
-- then it finishes or gives up jobs that it has observed.
module _ {Allowed : ℕ → Type 0} (seen : List ℕ) (worker : Worker) (w : World) where
  pub check_operation_status-Reach :
      IsTame w
      → (later_seen : List ℕ) × Reach Allowed
          (at seen w.store)
          (at later_seen (check_operation_status worker w).1.store)
        × IsTame (check_operation_status worker w).1
  unfolding check_operation_status select_published_jobs_with_operation_hash
  check_operation_status-Reach tame = elim (select_jobs-Answers awaits_confirmation w) [
    | inl (m, fault, rejected) ↦ subst Ends (sym rejected) (seen, here, tame)
    | inr answered ↦
        let jobs = keep awaits_confirmation w.store.jobs in
        let (more, end) = runs jobs (record w { faults = later w.faults }) tame in
        subst Ends (sym answered)
          (map id_of jobs ++ seen, Reach-trans (Reach-step (observe (at seen w.store))) more, end)
  ]
    where
      follow : List Job → Action (Unit {0})
      follow jobs = map_all (check_published_job worker) jobs >>= λ _. pure tt

      runs : (jobs : List Job) → Runs Allowed (map id_of jobs ++ seen) (follow jobs)
      runs jobs =
          >>=-Runs (map_all (check_published_job worker) jobs) (λ _. pure tt)
            (map_all-Runs (check_published_job worker) jobs (
              All-weaken (λ job. member job.id (map id_of jobs ++ seen) ≡ true)
                (λ job. Runs Allowed (map id_of jobs ++ seen) (check_published_job worker job)) jobs
                (λ job known. check_published_job-Runs worker job known) (seen_all jobs seen)))
            λ _. lift-Runs {A = Unit {0}} (ok tt)

      Ends : Result (List Job) × World → Type 0
      Ends m =
          let end = (((λ _. m) >>= follow) w).1 in
          (later_seen : List ℕ) × Reach Allowed (at seen w.store) (at later_seen end.store)
          × IsTame end
