-- ===== src/Web/Reading.antt =====
-- What the controllers that read jobs answer from sound tables.
use Prim.Native.String
use tezos_api_gateway.Base.{
  ℕ, String, ◌≡◌, ◌∙◌, ◌<◌, refl, ap, sym, Bool, true, false, Option, some, List, [], ◌∷◌, ◌++◌,
  map, arith, inl, inr, Bool-cases, ◌==◌, is_empty, or_blank,
}
use tezos_api_gateway.Base.Lists.{keep, All, keep-append}
use tezos_api_gateway.Base.Int.{ℤ, pos}
use tezos_api_gateway.Exceptions.{ok, Result-cases}
use tezos_api_gateway.Database.Operations.{NewOperation, selected}
use tezos_api_gateway.Injection.Roundtrip.{selected-All}
use tezos_api_gateway.Database.Schema.{Job, Operation}
use tezos_api_gateway.Database.Effect.{World, Action, map_all}
use tezos_api_gateway.Database.Jobs.{has_id, has_quote, new_row}
use tezos_api_gateway.Database.Answers.{
  select_jobs-Answers, select_operation-Answers, insert_operations_keeps,
}
use tezos_api_gateway.Forge.{contents_of, ForgedJob, forge_operation, store_batch}
use tezos_api_gateway.Forge.Node.{TezosService, ForgeOperationParams}
use tezos_api_gateway.Forge.Assembly.{build_batch}
use tezos_api_gateway.Forge.Stored.{new_job, store_batch-inv}
use tezos_api_gateway.Gateway.Steps.{member, id_of}
use tezos_api_gateway.Gateway.Runs.{at}
use tezos_api_gateway.Gateway.Invariant.{IsSound, job_of}
use tezos_api_gateway.Web.{Reply, json, http_error, respond}
use tezos_api_gateway.Web.Errors.{forge_error, get_error}
use tezos_api_gateway.Web.Jobs.{
  check_request, forge_operation_and_create_job, find_job, has_caller, jobs_of_rows, unknown_caller,
  get_job_by_id, get_jobs_by_caller_id,
}

lookup :
    (id : ℕ) (jobs : List Job)
    → member id (map id_of jobs) ≡ true
    → (job : Job) × (rest : List Job) × (keep (has_id id) jobs ≡ job ∷ rest) × (job.id ≡ id)
lookup id [] h = cc
lookup id (j ∷ jobs) h = elim (Bool-cases (j.id == id)) [
  | inl hit ↦ (j, keep (has_id id) jobs, ground (arith, hit), ground (arith, hit))
  | inr miss ↦
      let (job, rest, found, same) = lookup id jobs (ground (arith, h, miss)) in
      (job, rest, ground (arith, found, miss), same)
]

All-keep :
    (P : Operation → Type 0) (p : Operation → Bool) (ops : List Operation)
    → All P ops
    → All P (keep p ops)
All-keep P p [] h = tt
All-keep P p (op ∷ ops) (h, hs) = go (p op) (All-keep P p ops hs)
  where
    go :
        (b : Bool)
        → All P (keep p ops)
        → All P (elim b [ true ↦ op ∷ keep p ops | false ↦ keep p ops ])
    go true rest = (h, rest)
    go false rest = rest

module _ (w : World) (ready : w.faults ≡ []) where
  find_job-finds :
      (op : Operation)
      → member (job_of op) (map id_of w.store.jobs) ≡ true
      → (job : Job) × (find_job op w ≡ (ok job, w)) × (job.id ≡ op.job_id)
  unfolding find_job
  find_job-finds op h =
      let (job, rest, found, same) = lookup op.job_id w.store.jobs h in
      let answered = select_jobs-Answers (has_id op.job_id) w in
      (job, ground (arith, answered, found, ready), same)

  find_all :
      (ops : List Operation)
      → All (λ op. member (job_of op) (map id_of w.store.jobs) ≡ true) ops
      → (jobs : List Job) × (map_all find_job ops w ≡ (ok jobs, w))
        × (map id_of jobs ≡ map job_of ops)
  unfolding map_all
  find_all [] h = ([], refl, refl)
  find_all (op ∷ ops) (h, hs) =
      let (job, here, same) = find_job-finds op h in
      let (jobs, rest, sames) = find_all ops hs in
      (job ∷ jobs, ground (arith, here, rest), ground (arith, same, sames))

  -- While the database answers, a caller that is known gets 200 with one job for each of the rows of
  -- its operations, in the order in which the database gives them, so a job stands there as often as the caller has operations in
  -- it; one that is unknown gets 404. In sound tables no job is ever missing. The id of the caller
  -- must be a text without a quote.
  pub get_jobs_by_caller_id-rows :
      (broken : String → Action (List Operation)) (seen : List ℕ) (caller_id : String)
      → IsSound (at seen w.store)
      → is_empty caller_id ≡ false
      → has_quote caller_id ≡ false
      → let rows = selected (has_caller caller_id) w in
        (jobs : List Job) × (map id_of jobs ≡ map job_of rows)
        × (get_jobs_by_caller_id broken caller_id w ≡ (
          elim rows as (λ _. Reply (List Job)) [
            | [] ↦ http_error 404 (String.◌++◌ "Could not find jobs for this caller id: " caller_id)
            | _ ↦ json 200 jobs
          ],
          w,
        ))
  unfolding get_jobs_by_caller_id respond jobs_of_rows get_error unknown_caller
  get_jobs_by_caller_id-rows broken seen caller_id sound named plain =
      let rows = selected (has_caller caller_id) w in
      let owned = selected-All _ (has_caller caller_id) w (
        All-keep (λ op. member (job_of op) (map id_of w.store.jobs) ≡ true) (has_caller caller_id)
          w.store.operations sound.owned) in
      let (jobs, found, sames) = find_all rows owned in
      let answered = select_operation-Answers (has_caller caller_id) w in
      (jobs, sames, ground (arith, answered, found, ready, named, plain))

none_yet : (n : ℕ) (jobs : List Job) → All (λ i. i < n) (map id_of jobs) → keep (has_id n) jobs ≡ []
none_yet n [] h = refl
none_yet n (j ∷ jobs) (h, hs) = ground (arith, h, none_yet n jobs hs)

module _ (tezos : TezosService) (now : String) (params : ForgeOperationParams) (w v : World)
    (result : ForgedJob) where
  stored-last_job :
      (ops : List NewOperation) (branch bytes : String)
      → store_batch now params ops (branch, bytes) w ≡ (ok result, v)
      → (v.store.jobs ≡ w.store.jobs ++ result.job ∷ []) × (result.job.id ≡ w.store.next_job)
  unfolding new_row
  stored-last_job ops branch bytes e =
      let (u, rows, store, sent, same, inserted) =
        store_batch-inv tezos now params w v ops branch bytes result e in
      let kept =
        insert_operations_keeps now ops branch w.store.next_job (or_blank params.caller_id) u in
      let jobs : v.store.jobs ≡ u.store.jobs = sym (ap (λ m. m.1.store.jobs) inserted) ∙ kept.0 in
      let row : result.job ≡ new_row w.store.next_job (new_job bytes) = ap (λ r. r.job) same in
      (
        jobs ∙ (ap (λ s. s.jobs) store ∙ ap (λ j. w.store.jobs ++ j ∷ []) (sym row)),
        ap (λ j. j.id) row,
      )

  -- The forge answers with the last row of `jobs`, which has the next id.
  forge-last_job :
      forge_operation_and_create_job tezos now params w ≡ (json 201 result, v)
      → (v.store.jobs ≡ w.store.jobs ++ result.job ∷ []) × (result.job.id ≡ w.store.next_job)
  unfolding forge_operation_and_create_job respond forge_operation forge_error
  forge-last_job e = elim (Result-cases (check_request params)) [
    | inr (x, failed) ↦ ground arith
    | inl (u, guarded) ↦ elim (Result-cases (build_batch tezos params)) [
      | inr (x, failed) ↦ ground arith
      | inl (ops, built) ↦ elim (Result-cases (tezos.forge (map contents_of ops))) [
        | inr (x, failed) ↦ ground arith
        | inl ((branch, bytes), forged) ↦
            elim (Result-cases (store_batch now params ops (branch, bytes) w).0) [
              | inr (x, failed) ↦ ground arith
              | inl (job, stored) ↦ stored-last_job ops branch bytes (ground arith)
            ]
      ]
    ]
  ]

  -- A job that the forge has answered with 201 is found under its id: while the database answers, a
  -- request for it is answered with 200 and that very job, if the tables were sound before the
  -- forge.
  pub get_job_by_id-forge_operation :
      (to_number : String → Option ℤ) (text : String) (seen : List ℕ)
      → IsSound (at seen w.store)
      → forge_operation_and_create_job tezos now params w ≡ (json 201 result, v)
      → v.faults ≡ []
      → is_empty text ≡ false
      → to_number text ≡ some (pos result.job.id)
      → get_job_by_id to_number text v ≡ (json 200 result.job, v)
  unfolding get_job_by_id respond
  get_job_by_id-forge_operation to_number text seen sound forging ready named number =
      let (last, new) = forge-last_job forging in
      let answered = select_jobs-Answers (has_id result.job.id) v in
      let fresh = none_yet w.store.next_job w.store.jobs sound.below in
      let split = keep-append (has_id w.store.next_job) w.store.jobs (result.job ∷ []) in
      let found : keep (has_id result.job.id) v.store.jobs ≡ result.job ∷ [] =
        ground (arith, last, new, fresh, split) in
      ground (arith, answered, found, ready, named, number)
