-- ===== src/Database/Schema.antt =====
-- The tables of services/postgre.ts, with the enumerations of const/, as lists of rows.
use tezos_api_gateway.Base.{ℕ, String, Bool, true, false, Option, List}
use tezos_api_gateway.Base.Int.{ℤ}
use tezos_api_gateway.Value.{Value}

-- const/job-status.ts
pub data JobStatus : Type 0 where
  created published done error : JobStatus

-- The two kinds of Taquito's `OpKind` that the gateway handles.
pub data OpKind : Type 0 where
  reveal transaction : OpKind

abbrev pub is_reveal : OpKind → Bool
is_reveal reveal = true
is_reveal transaction = false

abbrev pub is_published : JobStatus → Bool
is_published published = true
is_published _ = false

-- A row of `jobs`. A nullable column is an `Option`.
pub record Job : Type 0 where
  pub id : ℕ
  pub status : JobStatus
  pub forged_operation : Option String
  pub operation_hash : Option String
  pub error_message : Option String
  pub operation_kind : Option OpKind

-- A row of `operations`. The two JSON columns hold the document that their text spells.
pub record Operation : Type 0 where
  pub id : ℕ
  pub job_id : ℕ
  pub destination : String
  pub source : String
  pub parameters : Option Value
  pub parameters_json : Option Value
  pub amount : Option ℤ
  pub fee : Option ℤ
  pub storage_limit : Option ℤ
  pub gas_limit : Option ℤ
  pub counter : Option ℤ
  pub branch : Option String
  pub caller_id : Option String
  pub kind : OpKind
  pub public_key : Option String
  pub creation_date : Option String
  pub update_date : Option String

-- The tables, and the next values of the two identity columns.
pub record Store : Type 0 where
  pub jobs : List Job
  pub operations : List Operation
  pub next_job : ℕ
  pub next_operation : ℕ
