-- ===== src/Database/Jobs.antt =====
-- models/jobs.ts: the queries on the table `jobs`. The texts that the source puts between quotes
-- are the operation hash and the error message; one that holds a quote leaves the statement's shape.
use Prim.Native.Char.{code}
use tezos_api_gateway.Base.{ℕ, String, Bool, true, false, ◌&&◌, ◌||◌, Option, none, some, List, []}
use tezos_api_gateway.Base.{◌∷◌, ◌++◌, ◌+◌, map, or_null, ◌==◌, if◌then◌else◌}
use tezos_api_gateway.Base.Lists.{keep}
use tezos_api_gateway.Database.Schema.{JobStatus, published, OpKind, Job, is_published}
use tezos_api_gateway.Database.Effect.{Action, query}
use tezos_api_gateway.Exceptions.{ok}

pub record NewJob : Type 0 where
  pub status : JobStatus
  pub forged_operation : Option String
  pub operation_hash : Option String
  pub operation_kind : Option OpKind

unfoldable pub new_row : ℕ → NewJob → Job
new_row id new = record {
  id = id;
  status = new.status;
  forged_operation = or_null new.forged_operation;
  operation_hash = or_null new.operation_hash;
  error_message = none;
  operation_kind = new.operation_kind;
}

-- `INSERT INTO jobs … RETURNING *`
unfoldable pub insert_job : NewJob → Action Job
unfolding new_row query
insert_job new = query λ s.
    let row = new_row s.next_job new in
    (ok row, record s { jobs = s.jobs ++ row ∷ []; next_job = s.next_job + 1 })

-- `SELECT … FROM jobs WHERE …`
unfoldable pub select_jobs : (Job → Bool) → Action (List Job)
unfolding query
select_jobs condition = query λ s. (ok (keep condition s.jobs), s)

abbrev pub has_id : ℕ → Job → Bool
has_id id job = job.id == id

-- The rows after `UPDATE jobs SET … WHERE id = …`, and those that `RETURNING *` gives.
unfoldable pub set_where : ℕ → (Job → Job) → List Job → List Job
set_where id change [] = []
set_where id change (job ∷ jobs) =
    (if has_id id job then change job else job) ∷ set_where id change jobs

abbrev pub update_where : ℕ → (Job → Job) → Action (List Job)
update_where id change =
    query λ s.
      (ok (map change (keep (has_id id) s.jobs)), record s { jobs = set_where id change s.jobs })

unfoldable pub has_quote : String → Bool
has_quote String.[] = false
has_quote (String.◌∷◌ c s) = code c == 39 || has_quote s

-- A statement that quotes `text`.
abbrev pub quoting : String → Action (List Job) → Action (List Job)
quoting text statement w = elim (has_quote text) [
  | true ↦ query (w.stray text) w
  | false ↦ statement w
]

-- The four `SET` clauses.
abbrev pub with_hash : String → Job → Job
with_hash hash j = record j { operation_hash = some hash; status = published }

abbrev pub with_status : JobStatus → Job → Job
with_status status j = record j { status = status }

abbrev pub with_status_and_hash : JobStatus → String → Job → Job
with_status_and_hash status hash j = record j { status = status; operation_hash = some hash }

abbrev pub with_status_and_error : JobStatus → String → Job → Job
with_status_and_error status message j = record j { status = status; error_message = some message }

unfoldable pub update_operation_hash : String → ℕ → Action (List Job)
unfolding set_where query
update_operation_hash hash id = quoting hash (update_where id (with_hash hash))

unfoldable pub update_job_status : JobStatus → ℕ → Action (List Job)
unfolding set_where query
update_job_status status id = update_where id (with_status status)

unfoldable pub update_job_status_and_operation_hash : JobStatus → String → ℕ → Action (List Job)
unfolding set_where query
update_job_status_and_operation_hash status hash id =
    quoting hash (update_where id (with_status_and_hash status hash))

unfoldable pub update_job_status_and_error_message : JobStatus → String → ℕ → Action (List Job)
unfolding set_where query
update_job_status_and_error_message status message id =
    quoting message (update_where id (with_status_and_error status message))

abbrev pub awaits_confirmation : Job → Bool
awaits_confirmation job =
    is_published job.status && elim job.operation_hash [ none ↦ false | some _ ↦ true ]

unfoldable pub select_published_jobs_with_operation_hash : Action (List Job)
unfolding query
select_published_jobs_with_operation_hash = select_jobs awaits_confirmation
