-- ===== src/Tests/Confirming.antt =====
-- Tests of processes/workers/check-operation-status.
use tezos_api_gateway.Base.{
  if◌then◌else◌, ltb, ℕ, String, ◌≡◌, ◌≢◌, refl, true, none, some, [], ◌∷◌, map, ◌<◌, inr,
}
use tezos_api_gateway.Base.Lists.{keep, All, get_elem?}
use tezos_api_gateway.Base.Int.{pos, ◌-ℤ◌}
use tezos_api_gateway.Value.{num, str, arr, obj, field, end, cons, nil, get}
use tezos_api_gateway.Exceptions.{ok, err, operation_failed, operation_not_found, client_error}
use tezos_api_gateway.Database.Schema.{Job, Operation, error, done, published, transaction}
use tezos_api_gateway.Database.Effect.{World}
use tezos_api_gateway.Database.Jobs.{has_id, set_where, with_status, with_status_and_error}
use tezos_api_gateway.Database.Operations.{of_job, selected, date_where}
use tezos_api_gateway.SmartContracts.Format.{index}
use tezos_api_gateway.Injection.Mapping.{parse_json}
use tezos_api_gateway.Database.Order.{arrange, insert_at}
use tezos_api_gateway.Confirmation.{Worker, is_less, check_published_job, check_operation_status}
use tezos_api_gateway.Confirmation.Indexer.{
  IndexerClient, Surroundings, element, get_operation_by_hash, level_of, get_operation_block_level,
  check_if_operation_is_confirmed, get_random_indexer, attempt, check_by_random_indexer,
}
use tezos_api_gateway.Confirmation.Depth.{IsConfirmed, check_by_random_indexer-IsConfirmed}
use tezos_api_gateway.Confirmation.Untouched.{check_operation_status_untouched}
use tezos_api_gateway.Confirmation.Outcome.{
  finished, answer_for, event_of, IsPublishable, check_published_job_confirmed,
  check_published_job_failed, check_published_job_not_found,
}
use tezos_api_gateway.Tests.Fixtures.{world, forged_job, empty_store, call_json}

-- An indexer that knows one operation, in block 100, with this status.
abbrev indexer : String → IndexerClient
indexer status = record {
  key_to_operation = 0;
  key_to_block_level = "level";
  key_to_operation_status = "status";
  success_status = "applied";
  path_to_operation = "v1/operations/";
  call = λ url.
      ok (arr (cons (obj (field "status" (str status) (field "level" (num (pos 100)) end))) nil));
}

abbrev around : String → Surroundings
around status = record {
  indexers = λ n. indexer status ∷ [];
  random = λ n. 0;
  latest = λ n. ok (pos 102);
}

abbrev pub worker : String → Worker
worker status = record {
  around = λ id. around status;
  depth = pos 1;
  retries = 3;
  exchange = some "tezos";
  now = "2022-05-02";
  operation_expiration_timeout = 60;
  from_iso = λ date. some 0;
  date_text = λ time. elim time [
    | none ↦ "Invalid DateTime"
    | some t ↦ if ltb t 3600001 then "2022-05-02T01:00" else "2022-05-02T02:00"
  ];
  current_time = 0;
}

abbrev published_job : Job
published_job = record forged_job { status = published; operation_hash = some "ooHash" }

-- A job that was never injected.
abbrev waiting_job : Job
waiting_job = record forged_job { id = 2 }

abbrev row : Operation
row = record {
  id = 1;
  job_id = 1;
  destination = "KT1mint";
  source = "tz1alice";
  parameters = none;
  parameters_json = some (call_json "mint" 5);
  amount = some (pos 0);
  fee = some (pos 400);
  storage_limit = some (pos 7);
  gas_limit = some (pos 1100);
  counter = some (pos 43);
  branch = some "BLock";
  caller_id = some "wallet";
  kind = transaction;
  public_key = none;
  creation_date = some "2022-05-01";
  update_date = none;
}

abbrev pub busy_world : World
busy_world = record world {
  store = record empty_store {
    jobs = published_job ∷ waiting_job ∷ [];
    operations = row ∷ [];
    next_job = 3;
    next_operation = 2;
  };
}

is_applied : answer_for (worker "applied") published_job ≡ ok (some true)
unfolding check_by_random_indexer attempt get_random_indexer check_if_operation_is_confirmed
    get_operation_block_level get_operation_by_hash level_of element index get ◌-ℤ◌
is_applied = refl

is_backtracked : answer_for (worker "backtracked") published_job ≡ err (operation_failed "ooHash")
unfolding check_by_random_indexer attempt get_random_indexer check_if_operation_is_confirmed
    get_operation_block_level get_operation_by_hash level_of element index get ◌-ℤ◌
is_backtracked = refl

check_by_random_indexer-IsConfirmed_example :
    (i : ℕ) × (i < 3)
    × (client : IndexerClient) × (get_elem? (indexer "applied" ∷ []) 0 ≡ some client)
    × IsConfirmed (ok (pos 102)) client "ooHash" (pos 1)
check_by_random_indexer-IsConfirmed_example =
    check_by_random_indexer-IsConfirmed (around "applied") "ooHash" (pos 1) 3 is_applied

check_operation_status_untouched_example :
    keep (has_id 2) (check_operation_status (worker "applied") busy_world).1.store.jobs
    ≡ waiting_job ∷ []
check_operation_status_untouched_example =
    check_operation_status_untouched (worker "applied") 2 busy_world (refl, tt)

row-IsPublishable :
    All IsPublishable (keep (of_job 1) (date_where "2022-05-02" 1 busy_world.store.operations))
unfolding date_where index get parse_json
row-IsPublishable = (inr (str "mint", refl), tt)

check_published_job_confirmed_example :
    check_published_job (worker "applied") published_job busy_world ≡ (
      ok tt,
      record busy_world {
        store = record busy_world.store {
          jobs = set_where 1 (with_status done) busy_world.store.jobs;
          operations = date_where "2022-05-02" 1 busy_world.store.operations;
        };
        sent = map (event_of "tezos" 1) (
            selected (of_job 1) (record busy_world {
              store = finished (worker "applied") published_job busy_world.store;
            }));
      },
    )
check_published_job_confirmed_example =
    check_published_job_confirmed (worker "applied") published_job busy_world refl "tezos" refl refl
      is_applied row-IsPublishable

row_exists : keep (of_job 1) busy_world.store.operations ≢ []
row_exists e = cc

check_published_job_failed_example :
    check_published_job (worker "backtracked") published_job busy_world ≡ (
      ok tt,
      record busy_world {
        store = record busy_world.store {
          jobs = set_where 1 (with_status_and_error error "runtime_error") busy_world.store.jobs;
          operations = date_where "2022-05-02" 1 busy_world.store.operations;
        };
      },
    )
check_published_job_failed_example =
    check_published_job_failed (worker "backtracked") published_job busy_world refl "ooHash"
      is_backtracked row_exists

-- An indexer that does not know the operation, and a worker two hours after the creation.
abbrev empty_indexer : IndexerClient
empty_indexer = record (indexer "applied") { call = λ url. err (client_error 404 "Not Found") }

abbrev late_worker : Worker
late_worker = record (worker "applied") {
  around = λ id. record (around "applied") { indexers = λ n. empty_indexer ∷ [] };
  current_time = 7200000;
}

is_unknown : answer_for late_worker published_job ≡ err (operation_not_found "ooHash")
unfolding check_by_random_indexer attempt get_random_indexer check_if_operation_is_confirmed
    get_operation_block_level get_operation_by_hash
is_unknown = refl

row-selected : selected (of_job 1) busy_world ≡ row ∷ []
unfolding arrange insert_at
row-selected = refl

later_text :
    is_less (late_worker.date_text (some 3600000)) (late_worker.date_text (some 7200000)) ≡ true
unfolding is_less
later_text = refl

check_published_job_not_found_example : check_published_job late_worker published_job busy_world ≡ (
  ok tt,
  record busy_world {
    store = record busy_world.store {
      jobs = set_where 1 (with_status error) busy_world.store.jobs;
      operations = date_where "2022-05-02" 1 busy_world.store.operations;
    };
  },
)
check_published_job_not_found_example =
    check_published_job_not_found late_worker published_job busy_world refl "ooHash" "2022-05-01" 0
      row [] is_unknown row-selected refl refl later_text
