-- ===== src/Injection/Mapping.antt =====
-- `mapOperations` of lib/jobs/inject-operation.ts: the contents that a job's rows stand for.
use tezos_api_gateway.Base.{String, Option, none, some, List}
use tezos_api_gateway.Base.Int.{ℤ}
use tezos_api_gateway.Base.Decimal.{to_string}
use tezos_api_gateway.Value.{Value, null}
use tezos_api_gateway.Exceptions.{Result, ok, err, type_error, ◌>>=◌, traverse}
use tezos_api_gateway.Database.Schema.{Operation, OpKind, reveal, transaction}
use tezos_api_gateway.Database.Operations.{Contents, reveal_contents, transaction_contents}

-- `JSON.parse` of a JSON column; NULL is read as the text "null".
unfoldable pub parse_json : Option Value → Value
parse_json none = null
parse_json (some v) = v

-- `n!.toString()`, which throws on NULL.
unfoldable pub text_of : Option ℤ → Result String
text_of none = err (type_error "Cannot read properties of null (reading 'toString')")
text_of (some z) = ok (to_string z)

unfoldable pub map_kind : OpKind → Operation → Result Contents
unfolding text_of parse_json
map_kind reveal op = do
  fee ← text_of op.fee
  counter ← text_of op.counter
  gas_limit ← text_of op.gas_limit
  storage_limit ← text_of op.storage_limit
  ok (
      reveal_contents (record {
        source = op.source;
        fee = fee;
        counter = counter;
        gas_limit = gas_limit;
        storage_limit = storage_limit;
        public_key = op.public_key;
      }))
map_kind transaction op = do
  amount ← text_of op.amount
  fee ← text_of op.fee
  storage_limit ← text_of op.storage_limit
  gas_limit ← text_of op.gas_limit
  counter ← text_of op.counter
  ok (
      transaction_contents (record {
        destination = op.destination;
        parameters = parse_json op.parameters;
        amount = amount;
        fee = fee;
        source = op.source;
        storage_limit = storage_limit;
        gas_limit = gas_limit;
        counter = counter;
      }))

unfoldable pub map_operations : List Operation → Result (List Contents)
unfolding map_kind traverse
map_operations = traverse λ op. map_kind op.kind op
