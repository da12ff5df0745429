-- ===== src/Tests/Web.antt =====
-- Tests of processes/web/api/jobs/ and of services/amqp.ts.
use Prim.Native.String
use tezos_api_gateway.Base.{
  ℕ, String, ◌≡◌, ◌⊎◌, ◌≤◌, ◌&&◌, refl, true, false, Option, none, some, List, [], ◌∷◌, map, arith,
  str_eq, if◌then◌else◌,
}
use tezos_api_gateway.Base.Lists.{length}
use tezos_api_gateway.Base.Int.{ℤ, pos}
use tezos_api_gateway.Value.{Value, truthy, null}
use tezos_api_gateway.Exceptions.{Exn, Result, ok, err, type_error, message}
use tezos_api_gateway.Database.Schema.{Job}
use tezos_api_gateway.Database.Effect.{Message, lift}
use tezos_api_gateway.Database.Jobs.{has_quote, insert_job}
use tezos_api_gateway.Database.Operations.{selected, NewOperation, insert_operations}
use tezos_api_gateway.Base.Decimal.{parse_int}
use tezos_api_gateway.Forge.{contents_of, store_batch}
use tezos_api_gateway.Forge.Node.{ForgeOperationParams}
use tezos_api_gateway.Forge.Assembly.{build_batch}
use tezos_api_gateway.Gateway.Steps.{id_of}
use tezos_api_gateway.Gateway.Runs.{at}
use tezos_api_gateway.Gateway.Invariant.{IsSound, job_of}
use tezos_api_gateway.Web.{failure, error_body, error_handler, Reply, json, http_error, respond}
use tezos_api_gateway.Web.Errors.{forge_error}
use tezos_api_gateway.Web.Jobs.{
  check_request, is_missing, forge_operation_and_create_job, get_job_by_id, get_jobs_by_caller_id,
  has_caller,
}
use tezos_api_gateway.Web.Injecting.{
  SendRequest, patch_message, send_transactions_and_create_job_async,
}
use tezos_api_gateway.Web.Bounds.{forge_operation_and_create_job-bound}
use tezos_api_gateway.Web.Refusals.{IsClients, forge_operation_and_create_job-refused}
use tezos_api_gateway.Web.Reading.{get_jobs_by_caller_id-rows, get_job_by_id-forge_operation}
use tezos_api_gateway.Web.Queueing.{
  IsQueued, IsRefused, IsStranded, send_transactions_and_create_job_async-outcome,
}
use tezos_api_gateway.Broker.{
  Delivery, Channel, Consumer, consume_all, message_handler, validate_message,
}
use tezos_api_gateway.Broker.Laws.{consume_all-acked, message_handler-world}
use tezos_api_gateway.Broker.Handlers.{injection_handler}
use tezos_api_gateway.Tests.Fixtures.{tezos, params, world, node, patch, forged_job, mint}
use tezos_api_gateway.Tests.Forging.{forged_world, forge_runs, receipt}
use tezos_api_gateway.Tests.Sending.{sender}
use tezos_api_gateway.Tests.Confirming.{busy_world}
use tezos_api_gateway.Tests.Gateway.{empty_store-IsSound}

answered :
    forge_operation_and_create_job tezos "2022-05-01" params world
    ≡ (json 201 receipt, forged_world)
unfolding forge_operation_and_create_job respond check_request
answered = ground (arith, forge_runs)

forge_operation_and_create_job-bound_example :
    (ops : List NewOperation) × (branch bytes : String) × (build_batch tezos params ≡ ok ops)
    × (tezos.forge (map contents_of ops) ≡ ok (branch, bytes))
    × (length ops ≤ 5)
    × (params.reveal && is_missing params.public_key ≡ false)
forge_operation_and_create_job-bound_example =
    forge_operation_and_create_job-bound tezos "2022-05-01" params world forged_world receipt
      answered

-- Six transactions.
abbrev too_many : ForgeOperationParams
too_many = record params { transactions = mint ∷ mint ∷ mint ∷ mint ∷ mint ∷ mint ∷ [] }

abbrev bad_request : ℕ
bad_request = 400

abbrev limit : String
limit = "Exceeded maximum number of operations per batch authorized (5)"

-- No library gives its exceptions a status.
abbrev without_status : Exn → Option ℕ
without_status e = none

too_many_refused :
    error_handler without_status
      (forge_operation_and_create_job tezos "2022-05-01" too_many world).0
    ≡ failure (record { status = 400; message = limit })
unfolding error_handler error_body forge_operation_and_create_job respond check_request forge_error
    message
too_many_refused = refl

forge_operation_and_create_job-refused_example :
    IsClients tezos without_status "2022-05-01" too_many world bad_request limit
      (forge_operation_and_create_job tezos "2022-05-01" too_many world).0
      (forge_operation_and_create_job tezos "2022-05-01" too_many world).1
forge_operation_and_create_job-refused_example =
    forge_operation_and_create_job-refused tezos without_status "2022-05-01" too_many world
      bad_request limit (λ m. refl) too_many_refused (λ e. absurd (omega (arith, e)))

abbrev numbers : String → Option ℤ
numbers text = some (pos 1)

get_job_by_id-forge_operation_example :
    get_job_by_id numbers "1" forged_world ≡ (json 200 forged_job, forged_world)
unfolding forged_world store_batch insert_job insert_operations parse_int
get_job_by_id-forge_operation_example =
    get_job_by_id-forge_operation tezos "2022-05-01" params world forged_world receipt numbers "1"
      [] empty_store-IsSound answered refl refl refl

busy-IsSound : IsSound (at [] busy_world.store)
busy-IsSound = record {
  below = (omega arith, (omega arith, tt));
  distinct = (refl, (refl, tt));
  owned = (refl, tt);
  sent = (refl, (refl, tt));
  watched = λ k m. cc;
}

get_jobs_by_caller_id-rows_example :
    let rows = selected (has_caller "wallet") busy_world in
    (jobs : List Job) × (map id_of jobs ≡ map job_of rows)
    × (get_jobs_by_caller_id (λ c. lift (ok [])) "wallet" busy_world ≡ (
      elim rows as (λ _. Reply (List Job)) [
        | [] ↦ http_error 404 (String.◌++◌ "Could not find jobs for this caller id: " "wallet")
        | _ ↦ json 200 jobs
      ],
      busy_world,
    ))
unfolding has_quote
get_jobs_by_caller_id-rows_example =
    get_jobs_by_caller_id-rows busy_world refl (λ c. lift (ok [])) [] "wallet" busy-IsSound refl
      refl

abbrev request : SendRequest
request = record {
  transactions = mint ∷ [];
  secure_key_name = "key";
  caller_id = none;
  use_cache = true;
}

-- A broker that takes every message.
abbrev taken : Message → Result (Unit {0})
taken message = ok tt

send_transactions_and_create_job_async-outcome_example :
    let end = send_transactions_and_create_job_async sender taken request world in
    IsQueued request world end ⊎ (IsRefused world end ⊎ IsStranded taken request world end)
send_transactions_and_create_job_async-outcome_example =
    send_transactions_and_create_job_async-outcome sender taken request world

-- A queue with an injection and a text that is no JSON.
abbrev good : Delivery
good = record { tag = 1; content = "{}" }

abbrev bad : Delivery
bad = record { tag = 2; content = "{" }

abbrev consumer : Consumer
consumer = record {
  schema = some null;
  parse = λ text.
      if str_eq text "{}"
      then ok (patch_message patch)
      else err (type_error "Unexpected end of JSON input");
  compile = λ schema. ok (λ value. true);
}

abbrev channel : Channel
channel = record { world = forged_world; acked = [] }

consume_all-acked_example :
    (consume_all consumer
      (injection_handler node (λ v. lift (ok tt)))
      (good ∷ bad ∷ good ∷ [])
      channel).acked
    ≡ 1 ∷ []
consume_all-acked_example =
    consume_all-acked consumer (injection_handler node (λ v. lift (ok tt))) (good ∷ bad ∷ good ∷ [])
      channel

message_handler-world_example :
    let handler = injection_handler node (λ v. lift (ok tt)) in
    let end = (message_handler consumer handler (some good) channel).1.world in
    ((v : Value) × (consumer.parse "{}" ≡ ok v)
      × (validate_message consumer v ≡ ok (some v))
      × (truthy v ≡ true)
      × (end ≡ (handler v forged_world).1))
    ⊎ ((end ≡ forged_world)
        × ((v : Value)
            → consumer.parse "{}" ≡ ok v
            → validate_message consumer v ≡ ok (some v)
            → truthy v ≡ false))
message_handler-world_example =
    message_handler-world consumer (injection_handler node (λ v. lift (ok tt))) good channel
