-- ===== src/Database/Operations.antt =====
-- models/operations.ts: the queries on the table `operations`.
use tezos_api_gateway.Base.{ℕ, suc, String, Bool, true, false, ◌&&◌, Option, none, some, List}
use tezos_api_gateway.Base.{[], ◌∷◌, ◌++◌, ◌+◌, map, ◌==◌, if◌then◌else◌}
use tezos_api_gateway.Base.Lists.{keep, length}
use tezos_api_gateway.Base.Int.{ℤ, pos, negsuc, leb_ℤ}
use tezos_api_gateway.Base.Decimal.{parse_int, to_string}
use tezos_api_gateway.Database.Order.{arrange}
use tezos_api_gateway.Value.{
  Value, undef, str, arr, obj, big_map, big_number, Values, nil, cons, Fields, end, field,
}
use tezos_api_gateway.Database.Schema.{
  OpKind, reveal, transaction, is_reveal, Job, Operation, Store,
}
use tezos_api_gateway.Database.Effect.{World, Action, query}
use tezos_api_gateway.Exceptions.{Result, ok, err, database_error}

-- Taquito's contents of an operation, in which every number is decimal text.
pub record RevealContents : Type 0 where
  pub source : String
  pub fee : String
  pub counter : String
  pub gas_limit : String
  pub storage_limit : String
  pub public_key : Option String

pub record TransactionContents : Type 0 where
  pub destination : String
  pub parameters : Value
  pub amount : String
  pub fee : String
  pub source : String
  pub storage_limit : String
  pub gas_limit : String
  pub counter : String

pub data Contents : Type 0 where
  reveal_contents : RevealContents → Contents
  transaction_contents : TransactionContents → Contents

-- What is inserted: a reveal, or a transaction with its `parametersJson`.
pub data NewOperation : Type 0 where
  new_reveal : RevealContents → NewOperation
  new_transaction : TransactionContents → Value → NewOperation

-- A number as `format` writes it: NULL, an integer, or NaN.
pub data Cell : Type 0 where
  null nan : Cell
  int : ℤ → Cell

unfoldable pub parsed : String → Cell
parsed text = elim (parse_int text) [ none ↦ nan | some z ↦ int z ]

abbrev or_json_null : Option Value → Value
or_json_null none = Value.null
or_json_null (some v) = v

abbrev add_field : String → Option Value → Fields → Fields
add_field k none fs = fs
add_field k (some v) fs = field k v fs

-- The document that `JSON.stringify(v)` spells; it is `undefined` for `undefined`, which `format`
-- writes as NULL. A field that is `undefined` is dropped, and an element that is becomes `null`;
-- `BigNumber.toJSON` and `BigMapAbstraction.toJSON` give texts. A `michelson_map` stands for its own
-- document, which is Taquito's to say; neither the parameters that `toTransferParams` gives nor the
-- bodies of requests hold one.
unfoldable mutual
  pub stringify : Value → Option Value
  stringify undef = none
  stringify (big_number z) = some (str (to_string z))
  stringify (big_map id) = some (str id)
  stringify (arr vs) = some (arr (stringify_all vs))
  stringify (obj fs) = some (obj (stringify_fields fs))
  stringify v = some v

  pub stringify_all : Values → Values
  stringify_all nil = nil
  stringify_all (cons v vs) = cons (or_json_null (stringify v)) (stringify_all vs)

  pub stringify_fields : Fields → Fields
  stringify_fields end = end
  stringify_fields (field k v fs) = add_field k (stringify v) (stringify_fields fs)

-- The columns that an insertion lists.
pub record OperationValues : Type 0 where
  pub destination : String
  pub parameters : Option Value
  pub parameters_json : Option Value
  pub amount : Cell
  pub fee : Cell
  pub source : String
  pub storage_limit : Cell
  pub gas_limit : Cell
  pub counter : Cell
  pub branch : Option String
  pub job_id : ℕ
  pub caller_id : Option String
  pub kind : OpKind
  pub public_key : Option String
  pub creation_date : String

-- `mapOperationValues`; `now` is the text of the current date.
unfoldable pub map_operation_values : String → String → ℕ → String → NewOperation → OperationValues
unfolding parsed stringify
map_operation_values now branch job_id caller_id (new_reveal op) = record {
  destination = "";
  parameters = none;
  parameters_json = none;
  amount = null;
  fee = parsed op.fee;
  source = op.source;
  storage_limit = parsed op.storage_limit;
  gas_limit = parsed op.gas_limit;
  counter = parsed op.counter;
  branch = some branch;
  job_id = job_id;
  caller_id = some caller_id;
  kind = reveal;
  public_key = op.public_key;
  creation_date = now;
}
map_operation_values now branch job_id caller_id (new_transaction op json) = record {
  destination = op.destination;
  parameters = stringify op.parameters;
  parameters_json = stringify json;
  amount = parsed op.amount;
  fee = parsed op.fee;
  source = op.source;
  storage_limit = parsed op.storage_limit;
  gas_limit = parsed op.gas_limit;
  counter = parsed op.counter;
  branch = some branch;
  job_id = job_id;
  caller_id = some caller_id;
  kind = transaction;
  public_key = none;
  creation_date = now;
}

-- The type INT of services/postgre.ts: a signed integer of 32 bits.
abbrev pub fits_int : ℤ → Bool
fits_int z = leb_ℤ (negsuc 2147483647) z && leb_ℤ z (pos 2147483647)

-- What an INT column stores of a number; `none` if it takes none.
unfoldable pub column : Cell → Option (Option ℤ)
column null = some none
column nan = none
column (int z) = if fits_int z then some (some z) else none

infixl 5 ◌>>=◌
abbrev ◌>>=◌ : {A B : Type 0} → Option A → (A → Option B) → Option B
none >>= f = none
some a >>= f = f a

unfoldable pub row_of : ℕ → OperationValues → Option Operation
unfolding column
row_of id v = do
  amount ← column v.amount
  fee ← column v.fee
  storage_limit ← column v.storage_limit
  gas_limit ← column v.gas_limit
  counter ← column v.counter
  some (record {
    id = id;
    job_id = v.job_id;
    destination = v.destination;
    source = v.source;
    parameters = v.parameters;
    parameters_json = v.parameters_json;
    amount = amount;
    fee = fee;
    storage_limit = storage_limit;
    gas_limit = gas_limit;
    counter = counter;
    branch = v.branch;
    caller_id = v.caller_id;
    kind = v.kind;
    public_key = v.public_key;
    creation_date = some v.creation_date;
    update_date = none;
  })

-- The rows of one INSERT, numbered from `id`; a value that its column refuses fails them all.
unfoldable pub rows_of : ℕ → List OperationValues → Option (List Operation)
unfolding row_of
rows_of id [] = some []
rows_of id (v ∷ vs) = do row ← row_of id v; rows ← rows_of (suc id) vs; some (row ∷ rows)

-- The foreign key `fk_job`.
unfoldable pub job_exists : ℕ → List Job → Bool
job_exists id [] = false
job_exists id (job ∷ jobs) = if job.id == id then true else job_exists id jobs

unfoldable pub all_exist : List Job → List OperationValues → Bool
all_exist jobs [] = true
all_exist jobs (v ∷ vs) = job_exists v.job_id jobs && all_exist jobs vs

abbrev refused : {A : Type 0} → Store → Result A × Store
refused s = (err (database_error "a value or a key is refused"), s)

-- An INSERT of these rows into `operations`, with ids from the identity column. A statement without
-- rows is a syntax error. The ids that a refused statement skips are left out: nothing reads them.
unfoldable pub insert_rows : List OperationValues → Store → Result (List Operation) × Store
unfolding all_exist job_exists rows_of
insert_rows [] s = refused s
insert_rows (v ∷ vs) s = elim (rows_of s.next_operation (v ∷ vs)) [
  | none ↦ refused s
  | some rows ↦
      if all_exist s.jobs (v ∷ vs)
      then (
        ok rows,
        record s {
          operations = s.operations ++ rows;
          next_operation = s.next_operation + length rows;
        },
      )
      else refused s
]

unfoldable pub insert_operations :
    String → List NewOperation → String → ℕ → String → Action (List Operation)
unfolding map_operation_values insert_rows query
insert_operations now contents branch job_id caller_id =
    query (insert_rows (map (map_operation_values now branch job_id caller_id) contents))

pub record NewTransaction : Type 0 where
  pub destination : String
  pub source : String
  pub parameters_json : Value
  pub amount : ℤ
  pub job_id : ℕ
  pub caller_id : Option String

unfoldable pub transaction_values : String → NewTransaction → OperationValues
unfolding stringify
transaction_values now new = record {
  destination = new.destination;
  parameters = none;
  parameters_json = stringify new.parameters_json;
  amount = int new.amount;
  fee = null;
  source = new.source;
  storage_limit = null;
  gas_limit = null;
  counter = null;
  branch = none;
  job_id = new.job_id;
  caller_id = new.caller_id;
  kind = transaction;
  public_key = none;
  creation_date = now;
}

unfoldable pub insert_transaction : String → NewTransaction → Action (List Operation)
unfolding transaction_values insert_rows query
insert_transaction now new = query (insert_rows (transaction_values now new ∷ []))

-- The rows that satisfy a condition, in the order in which Postgres gives them.
abbrev pub selected : (Operation → Bool) → World → List Operation
selected condition w = arrange (w.place w.store) (keep condition w.store.operations)

-- `SELECT … FROM operations WHERE …`, without ORDER BY.
unfoldable pub select_operation : (Operation → Bool) → Action (List Operation)
unfolding query
select_operation condition w = query (λ s. (ok (selected condition w), s)) w

abbrev pub of_job : ℕ → Operation → Bool
of_job id op = op.job_id == id

unfoldable pub is_operation_a_reveal : Operation → Bool
is_operation_a_reveal op = is_reveal op.kind

abbrev pub dated : String → Operation → Operation
dated now op = record op { update_date = some now }

unfoldable pub date_where : String → ℕ → List Operation → List Operation
date_where now id [] = []
date_where now id (op ∷ ops) = (if of_job id op then dated now op else op) ∷ date_where now id ops

unfoldable pub update_operation_update_date : String → ℕ → Action (List Operation)
unfolding date_where query
update_operation_update_date now id = query λ s. (
  ok (map (dated now) (keep (of_job id) s.operations)),
  record s { operations = date_where now id s.operations },
)
