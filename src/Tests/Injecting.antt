-- ===== src/Tests/Injecting.antt =====
-- Tests of lib/jobs/inject-operation.ts.
use tezos_api_gateway.Base.{
  String, ◌≡◌, refl, true, false, Option, none, some, List, [], ◌∷◌, map, arith,
}
use tezos_api_gateway.Base.Lists.{All}
use tezos_api_gateway.Base.Int.{ℤ, pos}
use tezos_api_gateway.Base.Decimal.{to_string, parse_int}
use tezos_api_gateway.Exceptions.{
  Result, ok, err, traverse, Exn, preapply_failure, message, type_error, database_error,
}
use tezos_api_gateway.Database.Schema.{Operation, error, transaction}
use tezos_api_gateway.Database.Effect.{World, query, answer, hand_over}
use tezos_api_gateway.Database.Jobs.{
  has_quote, set_where, update_operation_hash, with_status_and_error,
}
use tezos_api_gateway.Database.Answers.{updated}
use tezos_api_gateway.Database.Operations.{
  insert_operations, map_operation_values, insert_rows, rows_of, row_of, column, parsed, stringify,
  all_exist, job_exists, select_operation, of_job, selected, Contents,
}
use mathlib.Core.List.{Perm}
use tezos_api_gateway.Database.Order.{arrange, insert_at}
use tezos_api_gateway.Injection.{Node, inject_operation, attempt, inject_rows}
use tezos_api_gateway.Injection.Mapping.{map_operations, map_kind, text_of}
use tezos_api_gateway.Injection.Laws.{IsInjected, inject_operation-IsInjected}
use tezos_api_gateway.Injection.Failure.{
  inject_operation_marks_error, inject_operation_leaves_unmarked,
}
use tezos_api_gateway.Injection.Roundtrip.{forged, IsForged, map_operations-insert_operations}
use tezos_api_gateway.Tests.Fixtures.{world, node, patch, forged_job, batch, empty_store}

-- The job of the fixtures, without its rows.
abbrev job_world : World
job_world = record world { store = record empty_store { jobs = forged_job ∷ []; next_job = 2 } }

-- With the rows of one transaction.
abbrev row : Option ℤ → Operation
row fee = record {
  id = 1;
  job_id = 1;
  destination = "KT1mint";
  source = "tz1alice";
  parameters = none;
  parameters_json = none;
  amount = some (pos 0);
  fee = fee;
  storage_limit = some (pos 7);
  gas_limit = some (pos 1100);
  counter = some (pos 43);
  branch = some "BLock";
  caller_id = none;
  kind = transaction;
  public_key = none;
  creation_date = none;
  update_date = none;
}

abbrev with_row : Option ℤ → World
with_row fee = record job_world { store = record job_world.store { operations = row fee ∷ [] } }

stored_world : World
stored_world = (insert_operations "2022-05-01" batch "BLock" 1 "wallet" job_world).1

abbrev rows_in : Result (List Operation) → List Operation
rows_in (ok rows) = rows
rows_in (err _) = []

rows_stored : List Operation
rows_stored = rows_in (insert_operations "2022-05-01" batch "BLock" 1 "wallet" job_world).0

batch_inserted :
    insert_operations "2022-05-01" batch "BLock" 1 "wallet" job_world
    ≡ (ok rows_stored, stored_world)
unfolding stored_world rows_stored insert_operations map_operation_values insert_rows rows_of row_of
    column parsed parse_int stringify all_exist job_exists query answer
batch_inserted = refl

batch-IsForged : All IsForged batch
unfolding to_string
batch-IsForged = (
  ((pos 300, refl), (pos 42, refl), (pos 1100, refl), (pos 7, refl)),
  (
    ((pos 0, refl), (pos 400, refl), (pos 7, refl), (pos 1100, refl), (pos 43, refl)),
    (((pos 9, refl), (pos 500, refl), (pos 7, refl), (pos 1100, refl), (pos 44, refl)), tt),
  ),
)

map_operations-insert_operations_example :
    (contents : List Contents) × (map_operations (selected (of_job 1) stored_world) ≡ ok contents)
    × Perm contents (map forged batch)
    × All (λ r. r.branch ≡ some "BLock") (selected (of_job 1) stored_world)
map_operations-insert_operations_example =
    map_operations-insert_operations "2022-05-01" "BLock" 1 "wallet" batch job_world stored_world
      rows_stored batch-IsForged refl batch_inserted

hash_is_plain :
    (hash : String) → node.inject patch.signed_transaction ≡ ok hash → has_quote hash ≡ false
unfolding has_quote
hash_is_plain hash e = let same : hash ≡ "ooHash" = ground arith in rw same refl

after_injection : World
after_injection = (inject_operation node patch (with_row (some (pos 400)))).1

row_injected : inject_operation node patch (with_row (some (pos 400))) ≡ (ok tt, after_injection)
unfolding after_injection inject_operation attempt inject_rows select_operation arrange insert_at
    query answer hand_over update_operation_hash set_where has_quote map_operations map_kind text_of
    to_string traverse
row_injected = refl

inject_operation-IsInjected_example :
    IsInjected node patch (with_row (some (pos 400))) after_injection
inject_operation-IsInjected_example =
    inject_operation-IsInjected node patch (with_row (some (pos 400))) after_injection hash_is_plain
      row_injected

abbrev refusing : Node
refusing = record node { preapply = λ branch contents signature. err (preapply_failure "refused") }

preapply_refused :
    attempt refusing patch (with_row (some (pos 400)))
    ≡ (err (preapply_failure "refused"), with_row (some (pos 400)))
unfolding attempt inject_rows select_operation arrange insert_at query answer map_operations
    map_kind text_of to_string traverse
preapply_refused = refl

refusal_is_plain : has_quote (message (preapply_failure "refused")) ≡ false
unfolding has_quote message
refusal_is_plain = refl

inject_operation_marks_error_example :
    ((inject_operation refusing patch (with_row (some (pos 400)))).0
      ≡ err (preapply_failure "refused"))
    × ((inject_operation refusing patch (with_row (some (pos 400)))).1.store
        ≡ updated 1
            (with_status_and_error error (message (preapply_failure "refused")))
            (with_row (some (pos 400))).store)
inject_operation_marks_error_example =
    inject_operation_marks_error refusing patch (with_row (some (pos 400)))
      (with_row (some (pos 400))) (preapply_failure "refused") hash_is_plain refl preapply_refused
      refl refusal_is_plain

-- The row of a transaction that was sent without being forged has no fee.
abbrev no_fee : Exn
no_fee = type_error "Cannot read properties of null (reading 'toString')"

fee_missing : attempt node patch (with_row none) ≡ (err no_fee, with_row none)
unfolding attempt inject_rows select_operation arrange insert_at query answer map_operations
    map_kind text_of to_string traverse
fee_missing = refl

no_fee-has_quote : has_quote (message no_fee) ≡ true
unfolding has_quote message
no_fee-has_quote = refl

inject_operation_leaves_unmarked_example :
    ((inject_operation node patch (with_row none)).0 ≡ err (database_error "syntax error"))
    × ((inject_operation node patch (with_row none)).1.store ≡ (with_row none).store)
inject_operation_leaves_unmarked_example =
    inject_operation_leaves_unmarked node patch (with_row none) (with_row none) no_fee
      "syntax error" hash_is_plain refl fee_missing refl no_fee-has_quote refl
