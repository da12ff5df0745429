-- ===== src/Tests/Sending.antt =====
-- Tests of lib/jobs/send-transactions.ts.
use tezos_api_gateway.Base.{◌≡◌, ◌≢◌, refl, subst, true, false, none, some, List, [], ◌∷◌, arith}
use tezos_api_gateway.Base.Lists.{keep}
use tezos_api_gateway.Base.Int.{pos}
use tezos_api_gateway.Value.{Value, get, arr, str, num, cons, nil}
use tezos_api_gateway.Exceptions.{Exn, ok, err, traverse, message, database_error}
use tezos_api_gateway.Database.Schema.{published, error}
use tezos_api_gateway.Database.Effect.{World, query, answer, map_all}
use tezos_api_gateway.Database.Jobs.{
  has_id, has_quote, set_where, select_jobs, with_status_and_error,
  update_job_status_and_operation_hash,
}
use tezos_api_gateway.Database.Operations.{
  insert_transaction, transaction_values, insert_rows, rows_of, row_of, column, stringify,
  all_exist, job_exists,
}
use tezos_api_gateway.SmartContracts.Method.{
  get_contract_method, target, single_target, named_target, token_of,
}
use tezos_api_gateway.SmartContracts.Format.{index, format_entry_point_parameters, unless_primitive}
use tezos_api_gateway.Forge.Node.{TransactionDetails}
use tezos_api_gateway.Forge.Batch.{transaction_parameters, create_parameters_json}
use tezos_api_gateway.Sending.{
  Sender, SendParams, Sent, SentJob, sending, send_calls, new_transaction_of, get_operation_hash,
  insert_transactions, record_sent, send_for, attempt, send_transactions,
}
use tezos_api_gateway.Sending.Broadcast.{SentOnce, send_transactions_sends_once}
use tezos_api_gateway.Sending.Laws.{IsSent, send_transactions-IsSent, send_transactions_loses}
use tezos_api_gateway.Tests.Fixtures.{tezos, mint, burn, world, empty_store, forged_job}

abbrev sent : Sent
sent = record { hash = "ooSent"; fee = 374; consumed_milli_gas = 2500 }

abbrev pub sender : Sender
sender = record {
  tezos = tezos;
  send_one = λ details parameter. ok sent;
  send_batch = λ calls. ok sent;
  public_key_hash = ok (some "tz1vault");
}

abbrev pub to_send : SendParams
to_send = record { transactions = mint ∷ burn ∷ []; job_id = 1; caller_id = none; use_cache = true }

-- An amount that the column refuses.
abbrev too_much : SendParams
too_much = record to_send { transactions = record mint { amount = some 2147483648 } ∷ [] }

abbrev job_world : World
job_world = record world { store = record empty_store { jobs = forged_job ∷ []; next_job = 2 } }

sent_world : World
sent_world = (send_transactions sender "2022-05-01" to_send job_world).1

abbrev receipt : SentJob
receipt = record {
  job = some (record forged_job { status = published; operation_hash = some "ooSent" });
  fee = 374;
  gas = 2;
}

batch_sent : send_transactions sender "2022-05-01" to_send job_world ≡ (ok receipt, sent_world)
unfolding sent_world send_transactions attempt send_for get_operation_hash sending record_sent
    send_calls insert_transactions insert_transaction new_transaction_of create_parameters_json
    transaction_values insert_rows rows_of row_of column stringify all_exist job_exists query answer
    map_all select_jobs has_quote set_where update_job_status_and_operation_hash
    transaction_parameters get_contract_method target single_target named_target token_of index get
    traverse format_entry_point_parameters unless_primitive
batch_sent = refl

one_sent :
    (list : List (TransactionDetails × Value)) (s : Sent) → send_calls sender list ≡ ok s → sent ≡ s
unfolding send_calls
one_sent [] s e = ground arith
one_sent (c ∷ []) s e = ground arith
one_sent (c ∷ d ∷ list) s e = ground arith

sent_is_plain :
    (list : List (TransactionDetails × Value)) (s : Sent)
    → send_calls sender list ≡ ok s
    → has_quote s.hash ≡ false
unfolding has_quote
sent_is_plain list s e = subst (λ r. has_quote r.hash ≡ false) (one_sent list s e) refl

send_transactions-IsSent_example : IsSent sender to_send job_world sent_world receipt
send_transactions-IsSent_example =
    send_transactions-IsSent sender "2022-05-01" to_send job_world sent_world receipt sent_is_plain
      batch_sent

send_transactions_sends_once_example : SentOnce sender "2022-05-01" to_send job_world sent_world
unfolding sent_world
send_transactions_sends_once_example =
    send_transactions_sends_once sender "2022-05-01" to_send job_world

abbrev call : Value
call = arr (cons (str "mint") (cons (num (pos 5)) nil))

abbrev calls : List (TransactionDetails × Value)
calls = (record mint { amount = some 2147483648 }, call) ∷ []

call_formed :
    traverse (transaction_parameters sender.tezos too_much.use_cache) too_much.transactions
    ≡ ok calls
unfolding transaction_parameters get_contract_method target single_target named_target token_of
    index get traverse format_entry_point_parameters unless_primitive
call_formed = refl

abbrev refusal : Exn
refusal = database_error "a value or a key is refused"

abbrev out_world : World
out_world = record job_world { broadcast = "ooSent" ∷ [] }

amount_refused :
    insert_transactions sender "2022-05-01" too_much "tz1vault" out_world ≡ (err refusal, out_world)
unfolding insert_transactions insert_transaction new_transaction_of create_parameters_json
    transaction_values insert_rows rows_of row_of column stringify all_exist job_exists query answer
    map_all
amount_refused = refl

call_sent : send_calls sender calls ≡ ok sent
unfolding send_calls
call_sent = refl

refusal_is_plain : has_quote (message refusal) ≡ false
unfolding has_quote message
refusal_is_plain = refl

job_exists_here : keep (has_id 1) job_world.store.jobs ≢ []
job_exists_here e = cc

send_transactions_loses_example :
    ((send_transactions sender "2022-05-01" too_much job_world).0 ≡ err refusal)
    × ((send_transactions sender "2022-05-01" too_much job_world).1.broadcast ≡ "ooSent" ∷ [])
    × ((send_transactions sender "2022-05-01" too_much job_world).1.store.jobs
        ≡ set_where 1 (with_status_and_error error (message refusal)) job_world.store.jobs)
send_transactions_loses_example =
    send_transactions_loses sender "2022-05-01" too_much job_world out_world calls sent "tz1vault"
      refusal refl job_exists_here call_formed call_sent refl refl amount_refused refl refl
      refusal_is_plain
