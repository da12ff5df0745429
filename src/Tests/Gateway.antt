-- ===== src/Tests/Gateway.antt =====
-- Tests of the gateway as a whole.
use tezos_api_gateway.Base.{ℕ, String, ◌≡◌, refl, none, some, List, [], ◌∷◌, ◌++◌, ◌+◌, map}
use tezos_api_gateway.Base.Int.{pos}
use tezos_api_gateway.Exceptions.{ok, traverse}
use tezos_api_gateway.Base.Decimal.{to_string, parse_int}
use tezos_api_gateway.Database.Schema.{Store}
use tezos_api_gateway.Database.Effect.{World, query, answer, hand_over}
use tezos_api_gateway.Database.Jobs.{
  insert_job, new_row, set_where, with_hash, has_quote, update_operation_hash,
}
use tezos_api_gateway.Database.Operations.{
  Contents, NewOperation, insert_operations, map_operation_values, insert_rows, rows_of, row_of,
  column, parsed, stringify, all_exist, job_exists, select_operation,
}
use mathlib.Core.List.{Perm}
use tezos_api_gateway.Database.Order.{arrange, insert_at}
use tezos_api_gateway.Forge.{contents_of, forge_operation, forge_reveal_operation, store_batch}
use tezos_api_gateway.Forge.Stored.{new_job}
use tezos_api_gateway.Injection.{inject_operation, attempt, inject_rows}
use tezos_api_gateway.Injection.Mapping.{map_operations, map_kind, text_of}
use tezos_api_gateway.Injection.Roundtrip.{forged}
use tezos_api_gateway.Confirmation.{check_operation_status}
use tezos_api_gateway.Sending.{send_transactions}
use tezos_api_gateway.Sending.Transfers.{TransferSender, TransferParams, send_transfer_transactions}
use tezos_api_gateway.Gateway.Steps.{Reach, here, next, create, publish}
use tezos_api_gateway.Gateway.Runs.{at}
use tezos_api_gateway.Gateway.Invariant.{IsSound}
use tezos_api_gateway.Gateway.Soundness.{Reach-IsSound}
use tezos_api_gateway.Gateway.Processes.{jobs-Reach}
use tezos_api_gateway.Gateway.Interleaved.{Other, inject_operation-Reach-forge_operation}
use tezos_api_gateway.Tests.Fixtures.{tezos, params, world, node, patch, empty_store}
use tezos_api_gateway.Tests.Forging.{
  counter_is_41, forged_world, forge_runs, receipt, hash_is_plain,
}
use tezos_api_gateway.Tests.Sending.{sender, to_send}
use tezos_api_gateway.Tests.Confirming.{worker}

pub empty_store-IsSound : IsSound (at [] empty_store)
empty_store-IsSound = record {
  below = tt;
  distinct = tt;
  owned = tt;
  sent = tt;
  watched = λ k m. cc;
}

-- Another process creates a job, and records a hash for it.
abbrev created_only : Store → Store
created_only s = record s {
  jobs = s.jobs ++ new_row s.next_job (new_job "ab") ∷ [];
  next_job = s.next_job + 1;
}

abbrev published_too : Store → Store
published_too s = record s { jobs = set_where 2 (with_hash "ooOther") s.jobs }

others_run :
    Reach
      (Other 1)
      (at [] forged_world.store)
      (at [] (published_too (created_only forged_world.store)))
others_run =
    next (next here (create (at [] forged_world.store) (new_job "ab") refl refl))
      (publish (at [] (created_only forged_world.store)) 2 "ooOther")

Reach-IsSound_example : IsSound (at [] (published_too (created_only empty_store)))
Reach-IsSound_example =
    Reach-IsSound {Allowed = Other 1}
      (next (next here (create (at [] empty_store) (new_job "ab") refl refl))
        (publish (at [] (created_only empty_store)) 2 "ooOther"))
      empty_store-IsSound

abbrev payer : TransferSender
payer = record {
  transfer = λ t. ok (record { hash = "ooTip"; fee = 1; consumed_milli_gas = 1 });
  send_batch = λ list. ok (record { hash = "ooTips"; fee = 1; consumed_milli_gas = 1 });
  public_key_hash = ok (some "tz1vault");
}

abbrev tip : TransferParams
tip = record {
  transactions = record { to = "tz1bob"; amount = 5 } ∷ [];
  job_id = 1;
  caller_id = none;
}

jobs-Reach_example :
    let new = λ (id : ℕ). id ≡ world.store.next_job in
    Reach new (at [] empty_store) (at [] (forge_operation tezos "2022" params world).1.store)
    × Reach new
        (at [] empty_store)
        (at [] (forge_reveal_operation tezos "2022" "tz1alice" "edpk" none none world).1.store)
    × Reach (λ id. ⊥) (at [] empty_store) (at [] (inject_operation node patch world).1.store)
    × Reach
        (λ id. id ≡ 1)
        (at [] empty_store)
        (at [] (send_transactions sender "2022" to_send world).1.store)
    × Reach
        (λ id. id ≡ 1)
        (at [] empty_store)
        (at [] (send_transfer_transactions payer "2022" tip world).1.store)
    × (later_seen : List ℕ) × Reach
        (λ id. ⊥)
        (at [] empty_store)
        (at later_seen (check_operation_status (worker "applied") world).1.store)
jobs-Reach_example =
    jobs-Reach tezos node sender "2022" [] world (λ seen text s. here) params "tz1alice" "edpk" none
      none patch to_send payer tip (worker "applied")

abbrev busier : World
busier = record forged_world { store = published_too (created_only forged_world.store) }

late_world : World
late_world = (inject_operation node patch busier).1

late_injection : inject_operation node patch busier ≡ (ok tt, late_world)
unfolding late_world inject_operation attempt inject_rows select_operation arrange insert_at query
    answer hand_over update_operation_hash set_where has_quote map_operations map_kind text_of
    to_string traverse forged_world store_batch insert_job new_row insert_operations
    map_operation_values insert_rows rows_of row_of column parsed parse_int stringify all_exist
    job_exists
late_injection = refl

inject_operation-Reach-forge_operation_example :
    (ops : List NewOperation) × (contents : List Contents) × (branch bytes hash : String)
    × (tezos.forge (map contents_of ops) ≡ ok (branch, bytes))
    × Perm contents (map forged ops)
    × (node.preapply (some branch) contents patch.signature ≡ ok tt)
    × (node.inject patch.signed_transaction ≡ ok hash)
    × (late_world.store.jobs ≡ set_where 1 (with_hash hash) busier.store.jobs)
inject_operation-Reach-forge_operation_example =
    inject_operation-Reach-forge_operation tezos node "2022-05-01" params patch world forged_world
      busier late_world (pos 41) receipt [] [] counter_is_41 empty_store-IsSound hash_is_plain refl
      forge_runs others_run late_injection
