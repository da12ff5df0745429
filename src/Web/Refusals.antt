-- ===== src/Web/Refusals.antt =====
-- What a request that the controllers refuse leaves behind.
use tezos_api_gateway.Base.{
  ℕ, String, ◌≡◌, ◌∙◌, sym, ap, none, some, Option, ◌⊎◌, List, [], ◌∷◌, ◌++◌, ◌+◌, map, arith, inl,
  inr, Bool-cases, Option-cases, or_blank,
}
use tezos_api_gateway.Exceptions.{Exn, err, Result-cases, database_error}
use tezos_api_gateway.Database.Schema.{Store}
use tezos_api_gateway.Database.Effect.{World, later}
use tezos_api_gateway.Database.Jobs.{new_row}
use tezos_api_gateway.Database.Operations.{
  NewOperation, OperationValues, rows_of, all_exist, insert_rows, map_operation_values,
  insert_operations,
}
use tezos_api_gateway.Database.Answers.{insert_job-Answers, insert_operations-Answers}
use tezos_api_gateway.Forge.{contents_of, ForgedJob, store_batch, forge_operation}
use tezos_api_gateway.Forge.Node.{TezosService, ForgeOperationParams}
use tezos_api_gateway.Forge.Assembly.{build_batch}
use tezos_api_gateway.Forge.Stored.{new_job}
use tezos_api_gateway.Web.{
  Reply, json, next, failure, respond, error_body, error_handler, status_of,
}
use tezos_api_gateway.Web.Errors.{is_bad_forge, forge_error}
use tezos_api_gateway.Web.Jobs.{check_request, forge_operation_and_create_job}

insert_rows-error :
    (vs : List OperationValues) (s : Store) (e : Exn)
    → (insert_rows vs s).0 ≡ err e
    → (m : String) × (e ≡ database_error m)
unfolding insert_rows
insert_rows-error [] s e h = ("a value or a key is refused", ground arith)
insert_rows-error (v ∷ vs) s e h = elim (Option-cases (rows_of s.next_operation (v ∷ vs))) [
  | inl bad ↦ ("a value or a key is refused", ground arith)
  | inr (rows, good) ↦ elim (Bool-cases (all_exist s.jobs (v ∷ vs))) [
    | inl there ↦ ground arith
    | inr missing ↦ ("a value or a key is refused", ground arith)
  ]
]

insert_operations-error :
    (now : String) (ops : List NewOperation) (branch caller : String) (id : ℕ) (w : World) (e : Exn)
    → (insert_operations now ops branch id caller w).0 ≡ err e
    → (m : String) × (e ≡ database_error m)
insert_operations-error now ops branch caller id w e h =
    elim (insert_operations-Answers now ops branch id caller w) [
      | inl (m, fault, rejected) ↦ (m, ground arith)
      | inr answered ↦
          insert_rows-error (map (map_operation_values now branch id caller) ops) w.store e
            (ground arith)
    ]

store_batch-error :
    (now : String) (params : ForgeOperationParams) (ops : List NewOperation) (branch bytes : String)
    (w : World) (e : Exn)
    → (store_batch now params ops (branch, bytes) w).0 ≡ err e
    → (m : String) × (e ≡ database_error m)
unfolding store_batch new_row
store_batch-error now params ops branch bytes w e h = elim (insert_job-Answers (new_job bytes) w) [
  | inl (m, fault, rejected) ↦ (m, ground arith)
  | inr answered ↦
      let v = record w {
        store = record w.store {
          jobs = w.store.jobs ++ new_row w.store.next_job (new_job bytes) ∷ [];
          next_job = w.store.next_job + 1;
        };
        faults = later w.faults;
      } in
      let insertion =
        insert_operations now ops branch w.store.next_job (or_blank params.caller_id) v in
      elim (Result-cases insertion.0) [
        | inl (rows, done) ↦ ground arith
        | inr (x, failed) ↦
            let (m, same) =
              insert_operations-error now ops branch (or_blank params.caller_id) w.store.next_job v
                x failed in
            (m, ground (arith, same))
      ]
]

module _ (foreign : Exn → Option ℕ) where
  -- Which status an error of the forge is answered with.
  forge_error-status :
      (e : Exn) (status : ℕ) (text : String)
      → error_handler foreign (forge_error {A = ForgedJob} e)
        ≡ failure (record { status = status; message = text })
      → (status ≡ 500 → ⊥)
      → (status ≡ 400)
        ⊎ ((status ≡ 404)
            ⊎ ((status_of foreign e ≡ some status) × (forge_error {A = ForgedJob} e ≡ next e)))
  unfolding error_handler error_body forge_error
  forge_error-status (Exn.address_not_found a) status text h other = inr (inl (ground arith))
  forge_error-status e status text h other = elim (Bool-cases (is_bad_forge e)) [
    | inl bad ↦ inl (ground arith)
    | inr fine ↦ elim (Option-cases (status_of foreign e)) [
      | inl without ↦ absurd (other (ground arith))
      | inr (n, own) ↦ inr (inr (ground arith, ground arith))
    ]
  ]

  forge_error-database :
      (m : String) (status : ℕ) (text : String)
      → foreign (database_error m) ≡ none
      → error_handler foreign (forge_error {A = ForgedJob} (database_error m))
        ≡ failure (record { status = status; message = text })
      → status ≡ 500
  unfolding error_handler error_body forge_error status_of
  forge_error-database m status text plain h = ground arith

module _ (tezos : TezosService) (foreign : Exn → Option ℕ) (now : String)
    (params : ForgeOperationParams) (w : World) (status : ℕ) (text : String) where
  abbrev pub IsClients : Reply ForgedJob → World → Type 0
  IsClients reply w' =
      (w' ≡ w)
      × ((status ≡ 400)
          ⊎ ((status ≡ 404) ⊎ ((e : Exn) × (status_of foreign e ≡ some status) × (reply ≡ next e))))

  forge_error-IsClients :
      (e : Exn) (end : Reply ForgedJob × World)
      → end ≡ (forge_error e, w)
      → error_handler foreign end.0 ≡ failure (record { status = status; message = text })
      → (status ≡ 500 → ⊥)
      → IsClients end.0 end.1
  forge_error-IsClients e end same h other =
      elim (forge_error-status foreign e status text
        (sym (ap (λ m. error_handler foreign m.0) same) ∙ h) other) [
          | inl bad ↦ (ap (λ m. m.1) same, inl bad)
          | inr (inl missing) ↦ (ap (λ m. m.1) same, inr (inl missing))
          | inr (inr (own, passed)) ↦
              (ap (λ m. m.1) same, inr (inr (e, own, ap (λ m. m.0) same ∙ passed)))
        ]

  is_json :
      (job : ForgedJob) {reply : Reply ForgedJob}
      → reply ≡ json 201 job
      → error_handler foreign reply ≡ failure (record { status = status; message = text })
      → ⊥
  unfolding error_handler
  is_json job e h = ground (arith, e, h)

  -- A request to forge whose response is an error other than 500 has changed nothing at all: no job and
  -- no row is stored, and no query is made. The status is 400, 404, or that which the exception of a
  -- library itself carries. The errors of the database must carry no status.
  pub forge_operation_and_create_job-refused :
      ((m : String) → foreign (database_error m) ≡ none)
      → error_handler foreign (forge_operation_and_create_job tezos now params w).0
        ≡ failure (record { status = status; message = text })
      → (status ≡ 500 → ⊥)
      → IsClients
          (forge_operation_and_create_job tezos now params w).0
          (forge_operation_and_create_job tezos now params w).1
  unfolding forge_operation_and_create_job respond forge_operation
  forge_operation_and_create_job-refused plain h other =
      let end = forge_operation_and_create_job tezos now params w in
      elim (Result-cases (check_request params)) [
        | inr (e, failed) ↦ forge_error-IsClients e end (ground arith) h other
        | inl (u, guarded) ↦ elim (Result-cases (build_batch tezos params)) [
          | inr (e, failed) ↦ forge_error-IsClients e end (ground arith) h other
          | inl (ops, built) ↦ elim (Result-cases (tezos.forge (map contents_of ops))) [
            | inr (e, failed) ↦ forge_error-IsClients e end (ground arith) h other
            | inl ((branch, bytes), forged) ↦
                elim (Result-cases (store_batch now params ops (branch, bytes) w).0) [
                  | inl (job, stored) ↦ absurd (is_json job (ground arith) h)
                  | inr (e, failed) ↦
                      let (m, same) = store_batch-error now params ops branch bytes w e failed in
                      let reply : end.0 ≡ forge_error (database_error m) = ground (arith, same) in
                      absurd (
                        other (
                          forge_error-database foreign m status text (plain m)
                            (sym (ap (error_handler foreign) reply) ∙ h)))
                ]
          ]
        ]
      ]
