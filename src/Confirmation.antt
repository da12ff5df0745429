-- ===== src/Confirmation.antt =====
-- processes/workers/check-operation-status: follow the published jobs until the chain confirms them.
pub mod Indexer
pub mod Queries
pub mod Depth
pub mod Untouched
pub mod Outcome
use Prim.Native.String
use Prim.Native.Char.{code}
use tezos_api_gateway.Base.{
  ◌+◌, ◌*◌, ltb, ◌==◌, ℕ, String, Bool, true, false, Option, none, some, List, [], ◌∷◌, or_blank,
  is_empty, if◌then◌else◌,
}
use tezos_api_gateway.Base.Int.{ℤ, pos}
use tezos_api_gateway.Value.{Value, null, num, str, obj, field, end}
use tezos_api_gateway.Exceptions.{Exn, Result, type_error, other_error}
use tezos_api_gateway.Database.Schema.{Job, Operation, done, error}
use tezos_api_gateway.Database.Effect.{
  Action, Message, event, pure, throw, lift, try_catch, ◌>>=◌, ◌>>◌, map_all, send,
}
use tezos_api_gateway.Database.Jobs.{
  select_published_jobs_with_operation_hash, update_job_status, update_job_status_and_error_message,
}
use tezos_api_gateway.Database.Operations.{
  select_operation, of_job, is_operation_a_reveal, update_operation_update_date,
}
use tezos_api_gateway.Injection.Mapping.{parse_json}
use tezos_api_gateway.SmartContracts.Format.{index}
use tezos_api_gateway.Confirmation.Indexer.{check_by_random_indexer, Surroundings}

-- What the worker runs with: the surroundings of the check of each job, the numbers of config/index.ts,
-- the name of the exchange, the current date as a row stores it, and luxon's dates: the time in
-- milliseconds that `DateTime.fromISO` reads from a text, if it is a date, `toString`, and `DateTime.now()`.
pub record Worker : Type 0 where
  pub around : ℕ → Surroundings
  pub depth : ℤ
  pub retries : ℕ
  pub exchange : Option String
  pub now : String
  pub operation_expiration_timeout : ℕ
  pub from_iso : String → Option ℕ
  pub date_text : Option ℕ → String
  pub current_time : ℕ

-- `s < t` on texts, which compares their characters from the left.
unfoldable pub is_less : String → String → Bool
is_less s String.[] = false
is_less String.[] (String.◌∷◌ d t) = true
is_less (String.◌∷◌ c s) (String.◌∷◌ d t) =
    let rest = is_less s t in
    if ltb (code c) (code d) then true else if code c == code d then rest else false

abbrev pub text_or_null : Option String → Value
text_or_null none = null
text_or_null (some s) = str s

-- The message and the headers of a confirmed reveal.
unfoldable pub reveal_message : Operation → Value × Value
reveal_message op = (
  obj (field "address" (str op.source) (field "public_key" (text_or_null op.public_key) end)),
  obj (field "callerId" (text_or_null op.caller_id) end),
)

-- Those of a confirmed transaction, whose `parameters_json` gives the entry point.
unfoldable pub transaction_message : ℕ → Operation → Value → Value → Value × Value
transaction_message job_id op parameters entrypoint = (
  obj (
      field "contractAddress" (str op.destination) (
        field "entrypoint" entrypoint
          (field "jobId" (num (pos job_id)) (field "parameters" parameters end)))),
  obj (
      field "entrypoint" entrypoint (
        field "contractAddress" (str op.destination)
          (field "callerId" (text_or_null op.caller_id) end))),
)

module _ (worker : Worker) where
  -- `publishEventWhenTransactionsConfirmed` and `publishEventWhenRevealConfirmed`, which differ in the
  -- type of the message alone.
  unfoldable pub publish_event : Value × Value → Action (Unit {0})
  unfolding send
  publish_event (message, headers) = elim worker.exchange [
    | none ↦ throw (other_error "Exchange is not set")
    | some name ↦
        if is_empty name
        then throw (other_error "Exchange is not set")
        else send (event name message headers)
  ]

  unfoldable pub publish_operation : ℕ → Operation → Action (Unit {0})
  unfolding publish_event is_operation_a_reveal reveal_message transaction_message index
  publish_operation job_id op =
      if is_operation_a_reveal op then publish_event (reveal_message op) else (do
        entrypoint ← lift (index (parse_json op.parameters_json) "entrypoint")
        publish_event (transaction_message job_id op (parse_json op.parameters_json) entrypoint))

  unfoldable pub confirm : Job → Action (Unit {0})
  unfolding publish_operation map_all
  confirm job = do
    update_job_status done job.id
    update_operation_update_date worker.now job.id
    operations ← select_operation (of_job job.id)
    map_all (publish_operation job.id) operations
    pure tt

  -- The `try` block.
  unfoldable pub check_job : Job → Action (Unit {0})
  unfolding check_by_random_indexer
  check_job job = do
    confirmed ← lift (
        check_by_random_indexer (worker.around job.id) (or_blank job.operation_hash) worker.depth
          worker.retries)
    elim confirmed [ some true ↦ confirm job | _ ↦ pure tt ]

  -- `updatedOperations[0].update_time`
  abbrev pub first_date : List Operation → Action (Unit {0})
  first_date [] = throw (type_error "Cannot read properties of undefined (reading 'update_time')")
  first_date (_ ∷ _) = pure tt

  -- `DateTime.fromISO(date).plus({ minutes })`
  abbrev pub expiration_time : String → Option ℕ
  expiration_time date = elim (worker.from_iso date) [
    | none ↦ none
    | some time ↦ some (time + worker.operation_expiration_timeout * 60000)
  ]

  -- `currentDate > opExpiredDate`, on the texts of the two dates.
  unfoldable pub is_expired : String → Bool
  unfolding is_less
  is_expired date =
      is_less (worker.date_text (expiration_time date))
        (worker.date_text (some worker.current_time))

  unfoldable pub expire : Job → List Operation → Action (Unit {0})
  unfolding is_expired
  expire job [] = throw (type_error "Cannot read properties of undefined (reading 'creation_date')")
  expire job (op ∷ _) = elim op.creation_date [
    | none ↦ pure tt
    | some date ↦
        if is_expired date
        then (do
          update_job_status error job.id
          update_operation_update_date worker.now job.id >>= first_date)
        else pure tt
  ]

  -- The `catch` block.
  unfoldable pub handle_error : Job → Exn → Action (Unit {0})
  unfolding expire
  handle_error job (Exn.operation_not_found _) = select_operation (of_job job.id) >>= expire job
  handle_error job (Exn.operation_failed _) = do
    update_job_status_and_error_message error "runtime_error" job.id
    update_operation_update_date worker.now job.id >>= first_date
  handle_error job _ = pure tt

  unfoldable pub check_published_job : Job → Action (Unit {0})
  unfolding check_job handle_error
  check_published_job job = try_catch (check_job job) (handle_error job)

  unfoldable pub check_operation_status : Action (Unit {0})
  unfolding check_published_job map_all
  check_operation_status = do
    jobs ← select_published_jobs_with_operation_hash
    map_all check_published_job jobs
    pure tt
