-- ===== src/Confirmation/Outcome.antt =====
-- processes/workers/check-operation-status: what becomes of one published job while the database
-- answers.
use tezos_api_gateway.Base.{
  ◌+◌, ◌*◌, ltb, ℕ, String, ◌≡◌, ◌≢◌, ◌⊎◌, if◌then◌else◌, refl, Bool, true, false, Option, none,
  some, List, [], ◌∷◌, ◌++◌, map, arith, inl, inr, or_blank, is_empty,
}
use tezos_api_gateway.Base.Lists.{keep, All, append_nil, append_assoc}
use tezos_api_gateway.Value.{Value, undef}
use tezos_api_gateway.Exceptions.{Result, ok, err, operation_failed, operation_not_found}
use tezos_api_gateway.Database.Schema.{Job, Operation, Store, done, error}
use tezos_api_gateway.Database.Effect.{World, Message, event, map_all, send}
use tezos_api_gateway.Database.Jobs.{
  set_where, with_status, with_status_and_error, update_job_status,
  update_job_status_and_error_message,
}
use tezos_api_gateway.Database.Operations.{
  select_operation, selected, of_job, update_operation_update_date, is_operation_a_reveal,
  date_where,
}
use tezos_api_gateway.SmartContracts.Format.{index}
use tezos_api_gateway.Injection.Mapping.{parse_json}
use tezos_api_gateway.Injection.Roundtrip.{selected-All, selected_some}
use tezos_api_gateway.Database.Answers.{
  update_job_status-Answers, update_operation_update_date-Answers, select_operation-Answers,
  update_job_status_and_error_message-Answers,
}
use tezos_api_gateway.Confirmation.{
  is_expired, is_less, Worker, publish_event, publish_operation, confirm, check_job, expire,
  handle_error, check_published_job, reveal_message, transaction_message,
}
use tezos_api_gateway.Confirmation.Indexer.{check_by_random_indexer}
use tezos_api_gateway.Confirmation.Untouched.{runtime_error_is_plain}

-- What the pool of indexers says of a job.
abbrev pub answer_for : Worker → Job → Result (Option Bool)
answer_for worker job =
    check_by_random_indexer (worker.around job.id) (or_blank job.operation_hash) worker.depth
      worker.retries

-- The row of a reveal, or of a transaction whose parameters name an entry point.
abbrev pub IsPublishable : Operation → Type 0
IsPublishable op =
    (is_operation_a_reveal op ≡ true)
    ⊎ ((entrypoint : Value) × (index (parse_json op.parameters_json) "entrypoint" ≡ ok entrypoint))

abbrev or_undef : Result Value → Value
or_undef (ok v) = v
or_undef (err _) = undef

-- The event that stands for a row.
abbrev pub event_of : String → ℕ → Operation → Message
event_of name job_id op =
    let parameters = parse_json op.parameters_json in
    let (message, headers) =
      (if is_operation_a_reveal op
        then reveal_message op
        else transaction_message job_id op parameters (or_undef (index parameters "entrypoint"))) in
    event name message headers

abbrev pub has_expired : Worker → Operation → Bool
has_expired worker row = elim row.creation_date [
  | none ↦ false
  | some date ↦ is_expired worker date
]

module _ (worker : Worker) (name : String) (set : worker.exchange ≡ some name)
    (named : is_empty name ≡ false) where
  publish_operation-event :
      (job_id : ℕ) (op : Operation) (w : World)
      → IsPublishable op
      → publish_operation worker job_id op w
        ≡ (ok tt, record w { sent = w.sent ++ event_of name job_id op ∷ [] })
  unfolding publish_operation publish_event send
  publish_operation-event job_id op w (inl is_reveal) = ground arith
  publish_operation-event job_id op w (inr (entrypoint, found)) = ground arith

  publish_each :
      (job_id : ℕ) (ops : List Operation) (w : World)
      → All IsPublishable ops
      → (units : List (Unit {0})) × (map_all (publish_operation worker job_id) ops w
          ≡ (ok units, record w { sent = w.sent ++ map (event_of name job_id) ops }))
  unfolding map_all
  publish_each job_id [] w h = ([], ground (arith, append_nil w.sent))
  publish_each job_id (op ∷ ops) w (h, hs) =
      let w₁ = record w { sent = w.sent ++ event_of name job_id op ∷ [] } in
      let here = publish_operation-event job_id op w h in
      let (units, rest) = publish_each job_id ops w₁ hs in
      let joined =
        append_assoc w.sent (event_of name job_id op ∷ []) (map (event_of name job_id) ops) in
      (tt ∷ units, ground (arith, here, rest, joined))

-- The tables once the job is done and its rows are dated.
abbrev pub finished : Worker → Job → Store → Store
finished worker job s = record s {
  jobs = set_where job.id (with_status done) s.jobs;
  operations = date_where worker.now job.id s.operations;
}

module _ (worker : Worker) (job : Job) (w : World) (ready : w.faults ≡ []) where
  -- The indexers say that the operation is not deep enough yet, or do not say: nothing changes.
  unsure_changes_nothing :
      (c : Option Bool)
      → answer_for worker job ≡ ok c
      → (c ≡ some true → ⊥)
      → check_published_job worker job w ≡ (ok tt, w)
  unfolding check_published_job check_job
  unsure_changes_nothing none a n = ground arith
  unsure_changes_nothing (some false) a n = ground arith
  unsure_changes_nothing (some true) a n = absurd (n refl)

  -- While the database answers and the exchange has a name, a job that the indexers confirm becomes
  -- `done`, its rows of operations get the current date, and one event is published for each of
  -- them, in the order in which the database gives them; nothing else changes. Each row must be that
  -- of a reveal, or have parameters of which JavaScript can read the field `entrypoint`: the rows of a
  -- transfer have none.
  pub check_published_job_confirmed :
      (name : String)
      → worker.exchange ≡ some name
      → is_empty name ≡ false
      → answer_for worker job ≡ ok (some true)
      → All IsPublishable (keep (of_job job.id) (date_where worker.now job.id w.store.operations))
      → check_published_job worker job w ≡ (
        ok tt,
        record w {
          store = finished worker job w.store;
          sent =
              w.sent
              ++ map
                  (event_of name job.id)
                  (selected (of_job job.id) (record w { store = finished worker job w.store }));
        },
      )
  unfolding check_published_job check_job confirm
  check_published_job_confirmed name set named a h =
      let a₁ = update_job_status-Answers done job.id w in
      let w₁ = (update_job_status done job.id w).1 in
      let a₂ = update_operation_update_date-Answers worker.now job.id w₁ in
      let w₂ = (update_operation_update_date worker.now job.id w₁).1 in
      let a₃ = select_operation-Answers (of_job job.id) w₂ in
      let w₃ = (select_operation (of_job job.id) w₂).1 in
      let p =
        publish_each worker name set named job.id
          (selected (of_job job.id) (record w { store = finished worker job w.store })) w₃
          (selected-All _ (of_job job.id) (record w { store = finished worker job w.store }) h) in
      ground (arith, a₁, a₂, a₃, p.1)

  -- While the database answers, a job with rows, of which the indexers say that its operation has failed,
  -- gets the status `error` and the message `runtime_error`, and its rows the current date; nothing else
  -- changes, and nothing is thrown.
  pub check_published_job_failed :
      (hash : String)
      → answer_for worker job ≡ err (operation_failed hash)
      → keep (of_job job.id) w.store.operations ≢ []
      → check_published_job worker job w ≡ (
        ok tt,
        record w {
          store = record w.store {
            jobs = set_where job.id (with_status_and_error error "runtime_error") w.store.jobs;
            operations = date_where worker.now job.id w.store.operations;
          };
        },
      )
  unfolding check_published_job check_job handle_error
  check_published_job_failed hash a some_rows =
      let a₁ =
        update_job_status_and_error_message-Answers error "runtime_error" job.id w
          runtime_error_is_plain in
      let w₁ = (update_job_status_and_error_message error "runtime_error" job.id w).1 in
      let a₂ = update_operation_update_date-Answers worker.now job.id w₁ in ground (arith, a₁, a₂)

  not_found-expired :
      (hash : String) (first : Operation) (rest : List Operation)
      → answer_for worker job ≡ err (operation_not_found hash)
      → selected (of_job job.id) w ≡ first ∷ rest
      → check_published_job worker job w ≡ (
        ok tt,
        record w {
          store =
              if has_expired worker first
              then record w.store {
                jobs = set_where job.id (with_status error) w.store.jobs;
                operations = date_where worker.now job.id w.store.operations;
              }
              else w.store;
        },
      )
  unfolding check_published_job check_job handle_error expire
  not_found-expired hash first rest a rows =
      let a₀ = select_operation-Answers (of_job job.id) w in
      let a₁ = update_job_status-Answers error job.id w in
      let w₁ = (update_job_status error job.id w).1 in
      let a₂ = update_operation_update_date-Answers worker.now job.id w₁ in
      let some_rows = selected_some (of_job job.id) w rows in ground (arith, a₀, a₁, a₂, some_rows)

  -- While the database answers, a job of which the indexers do not find the operation becomes `error`,
  -- with its rows dated, exactly where the current time lies after the creation date of the first row
  -- that the database gives and the minutes of the configuration; otherwise nothing changes. That row
  -- must have a date that luxon reads, and luxon must write the two dates as texts of the same order,
  -- as it does within one time zone.
  pub check_published_job_not_found :
      (hash date : String) (time : ℕ) (first : Operation) (rest : List Operation)
      → let expiration = time + worker.operation_expiration_timeout * 60000 in
        answer_for worker job ≡ err (operation_not_found hash)
        → selected (of_job job.id) w ≡ first ∷ rest
        → first.creation_date ≡ some date
        → worker.from_iso date ≡ some time
        → is_less (worker.date_text (some expiration)) (worker.date_text (some worker.current_time))
          ≡ ltb expiration worker.current_time
        → check_published_job worker job w ≡ (
          ok tt,
          record w {
            store =
                if ltb expiration worker.current_time
                then record w.store {
                  jobs = set_where job.id (with_status error) w.store.jobs;
                  operations = date_where worker.now job.id w.store.operations;
                }
                else w.store;
          },
        )
  unfolding is_expired
  check_published_job_not_found hash date time first rest a rows dated read ordered =
      ground (arith, not_found-expired hash first rest a rows, dated, read, ordered)
