-- ===== src/Injection/Failure.antt =====
-- What `inject_operation` leaves behind when it throws.
use tezos_api_gateway.Base.{String, ◌≡◌, false, true, List, [], ◌∷◌, ◌++◌, inl, inr, arith}
use tezos_api_gateway.Exceptions.{
  Exn, ok, err, database_error, Result-cases, message, is_job_id_not_found,
}
use tezos_api_gateway.Database.Schema.{error, Operation}
use tezos_api_gateway.Database.Effect.{World, hand_over, later}
use tezos_api_gateway.Database.Jobs.{has_quote, with_status_and_error}
use tezos_api_gateway.Database.Answers.{
  updated, update_operation_hash-Answers, update_job_status_and_error_message-Answers,
  update_job_status_and_error_message-stray, select_operation-Answers,
}
use tezos_api_gateway.Database.Operations.{of_job, selected, selected}
use tezos_api_gateway.Injection.{
  Node, PatchJobParams, attempt, inject_operation, inject_rows, record_failure,
}

module _ (node : Node) (params : PatchJobParams) where
  abbrev Plain : Type 0
  Plain = (hash : String) → node.inject params.signed_transaction ≡ ok hash → has_quote hash ≡ false

  abbrev handed : World → World
  handed v = record v { broadcast = v.broadcast ++ params.signed_transaction ∷ [] }

  -- Before the hash is written nothing is, and while the database answers only a missing job stops
  -- the run after that.
  inject_rows_keeps :
      (rows : List Operation) (v v' : World) (x : Exn)
      → Plain
      → v.faults ≡ []
      → inject_rows node params rows v ≡ (err x, v')
      → is_job_id_not_found x ≡ false
      → (v'.store ≡ v.store) × (v'.faults ≡ [])
  unfolding inject_rows hand_over
  inject_rows_keeps [] v v' x plain ready e other = ground arith
  inject_rows_keeps (first ∷ rest) v v' x plain ready e other =
      elim (Result-cases (node.inject params.signed_transaction)) [
        | inr (y, failed) ↦ (ground arith, ground arith)
        | inl (hash, injected) ↦
            let plain_hash = plain hash injected in
            let answers = update_operation_hash-Answers hash params.job_id (handed v) plain_hash in
            (ground (arith, answers), ground (arith, answers))
      ]

  attempt_keeps :
      (w v : World) (x : Exn)
      → Plain
      → w.faults ≡ []
      → attempt node params w ≡ (err x, v)
      → is_job_id_not_found x ≡ false
      → (v.store ≡ w.store) × (v.faults ≡ [])
  unfolding attempt
  attempt_keeps w v x plain ready e other =
      elim (select_operation-Answers (of_job params.job_id) w) [
        | inl (m, fault, rejected) ↦ ground arith
        | inr answered ↦
            let rows = selected (of_job params.job_id) w in
            let here = record w { faults = later w.faults } in
            let (a, b) =
              inject_rows_keeps rows here v x plain (ground arith) (ground arith) other in
            (ground arith, b)
      ]

  -- While the database answers, a `try` block that throws anything but `JobIdNotFoundError`, with a
  -- message that holds no quote, makes the call throw the same, with the job's row marked by the
  -- status `error` and that message and every other row of both tables left alone. The hash that the
  -- node may give must hold no quote.
  pub inject_operation_marks_error :
      (w v : World) (x : Exn)
      → Plain
      → w.faults ≡ []
      → attempt node params w ≡ (err x, v)
      → is_job_id_not_found x ≡ false
      → has_quote (message x) ≡ false
      → ((inject_operation node params w).0 ≡ err x)
        × ((inject_operation node params w).1.store
            ≡ updated params.job_id (with_status_and_error error (message x)) w.store)
  unfolding inject_operation record_failure
  inject_operation_marks_error w v x plain ready e other quiet =
      let (same, more) = attempt_keeps w v x plain ready e other in
      let answers =
        update_job_status_and_error_message-Answers error (message x) params.job_id v quiet in
      (ground (arith, answers), ground (arith, answers))

  -- A message that holds a quote ends the text in which the UPDATE quotes it. Where Postgres rejects
  -- that statement, the call throws the rejection in place of the error, and both tables are left as
  -- they were: the job is not marked.
  pub inject_operation_leaves_unmarked :
      (w v : World) (x : Exn) (m : String)
      → Plain
      → w.faults ≡ []
      → attempt node params w ≡ (err x, v)
      → is_job_id_not_found x ≡ false
      → has_quote (message x) ≡ true
      → v.stray (message x) v.store ≡ (err (database_error m), v.store)
      → ((inject_operation node params w).0 ≡ err (database_error m))
        × ((inject_operation node params w).1.store ≡ w.store)
  unfolding inject_operation record_failure
  inject_operation_leaves_unmarked w v x m plain ready e other loud stray =
      let (same, more) = attempt_keeps w v x plain ready e other in
      let answers =
        update_job_status_and_error_message-stray error (message x) params.job_id v loud in
      (ground (arith, answers), ground (arith, answers))
