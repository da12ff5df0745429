-- ===== src/Gateway/Steps.antt =====
-- The queries of models/jobs.ts and models/operations.ts with the arguments that the program gives
-- them, as steps. The processes wait between two queries, so a run of the whole gateway is a sequence
-- of these steps in any order.
use tezos_api_gateway.Base.{
  ℕ, String, ◌≡◌, Bool, true, false, none, List, [], ◌∷◌, ◌++◌, ◌+◌, map, ◌==◌,
}
use tezos_api_gateway.Base.Lists.{keep, All}
use tezos_api_gateway.Database.Schema.{created, published, done, error, Job, Store}
use tezos_api_gateway.Database.Jobs.{
  NewJob, new_row, set_where, with_hash, with_status, with_status_and_hash, with_status_and_error,
  awaits_confirmation,
}
use tezos_api_gateway.Database.Operations.{OperationValues, insert_rows, date_where}

-- The tables, and the ids of the jobs that a worker has read as waiting for their confirmation.
pub record State : Type 0 where
  pub store : Store
  pub seen : List ℕ

abbrev pub with_jobs : State → List Job → State
with_jobs s jobs = record s { store = record s.store { jobs = jobs } }

abbrev pub member : ℕ → List ℕ → Bool
member id [] = false
member id (i ∷ ids) = elim (i == id) [ true ↦ true | false ↦ member id ids ]

abbrev pub id_of : Job → ℕ
id_of job = job.id

-- `Allowed` says for which jobs rows of operations are inserted.
pub data Step (Allowed : ℕ → Type 0) : State → State → Type 0 where
  create :
      (s : State) (new : NewJob)
      → new.status ≡ created
      → new.operation_hash ≡ none
      → Step Allowed s (record s {
        store = record s.store {
          jobs = s.store.jobs ++ new_row s.store.next_job new ∷ [];
          next_job = s.store.next_job + 1;
        };
      })
  add :
      (s : State) (vs : List OperationValues)
      → All (λ v. Allowed v.job_id) vs
      → Step Allowed s (record s { store = (insert_rows vs s.store).1 })
  publish :
      (s : State) (id : ℕ) (hash : String)
      → Step Allowed s (with_jobs s (set_where id (with_hash hash) s.store.jobs))
  publish_sent :
      (s : State) (id : ℕ) (hash : String)
      → Step Allowed s
          (with_jobs s (set_where id (with_status_and_hash published hash) s.store.jobs))
  observe :
      (s : State)
      → Step Allowed s
          (record s { seen = map id_of (keep awaits_confirmation s.store.jobs) ++ s.seen })
  finish :
      (s : State) (id : ℕ)
      → member id s.seen ≡ true
      → Step Allowed s (with_jobs s (set_where id (with_status done) s.store.jobs))
  give_up :
      (s : State) (id : ℕ)
      → Step Allowed s (with_jobs s (set_where id (with_status error) s.store.jobs))
  mark :
      (s : State) (id : ℕ) (message : String)
      → Step Allowed s
          (with_jobs s (set_where id (with_status_and_error error message) s.store.jobs))
  date :
      (s : State) (now : String) (id : ℕ)
      → Step Allowed s (record s {
        store = record s.store { operations = date_where now id s.store.operations };
      })

pub data Reach (Allowed : ℕ → Type 0) (s : State) : State → Type 0 where
  here : Reach Allowed s s
  next : {t u : State} → Reach Allowed s t → Step Allowed t u → Reach Allowed s u

module _ {Allowed : ℕ → Type 0} where
  pub Reach-trans : {s t u : State} → Reach Allowed s t → Reach Allowed t u → Reach Allowed s u
  Reach-trans r here = r
  Reach-trans r (next more step) = next (Reach-trans r more) step

  pub Reach-step : {s t : State} → Step Allowed s t → Reach Allowed s t
  Reach-step step = next here step

module _ {A B : ℕ → Type 0} (more : (id : ℕ) → A id → B id) where
  All-weaken : (vs : List OperationValues) → All (λ v. A v.job_id) vs → All (λ v. B v.job_id) vs
  All-weaken [] h = tt
  All-weaken (v ∷ vs) (h, hs) = (more v.job_id h, All-weaken vs hs)

  Step-weaken : {s t : State} → Step A s t → Step B s t
  Step-weaken (create s new is_created no_hash) = create s new is_created no_hash
  Step-weaken (add s vs allowed) = add s vs (All-weaken vs allowed)
  Step-weaken (publish s id hash) = publish s id hash
  Step-weaken (publish_sent s id hash) = publish_sent s id hash
  Step-weaken (observe s) = observe s
  Step-weaken (finish s id known) = finish s id known
  Step-weaken (give_up s id) = give_up s id
  Step-weaken (mark s id message) = mark s id message
  Step-weaken (date s now id) = date s now id

  pub Reach-weaken : {s t : State} → Reach A s t → Reach B s t
  Reach-weaken here = here
  Reach-weaken (next r step) = next (Reach-weaken r) (Step-weaken step)
