-- ===== src/Tests/Fixtures.antt =====
-- A contract, a node, an indexer and a database for the tests.
use tezos_api_gateway.Base.{ℕ, String, true, false, none, some, List, [], ◌∷◌, map, arith}
use tezos_api_gateway.Base.Lists.{length-map}
use tezos_api_gateway.Base.Int.{pos}
use tezos_api_gateway.Value.{Value, num, str, arr, obj, field, end, cons, nil, of_values}
use tezos_api_gateway.Exceptions.{ok, err, database_error}
use tezos_api_gateway.Database.Schema.{Job, Store, transaction, created}
use tezos_api_gateway.Database.Effect.{World}
use tezos_api_gateway.Database.Operations.{NewOperation, new_reveal, new_transaction}
use tezos_api_gateway.SmartContracts.Token.{Kind, Token, token, Tokens}
use tezos_api_gateway.SmartContracts.Method.{Contract}
use tezos_api_gateway.Injection.{Node, PatchJobParams}
use tezos_api_gateway.Forge.Node.{TezosService, ForgeOperationParams, TransactionDetails, Estimate}
use tezos_api_gateway.Forge.Counters.{EstimatesReveals}

abbrev pub number : String → Token
number annot = token Kind.other annot "int" Tokens.nil

abbrev pub contract : Contract
contract = record {
  entrypoints = ("mint", number "mint") ∷ ("burn", number "burn") ∷ [];
  schema = obj (field "mint" (str "int") (field "burn" (str "int") end));
  call = λ name arguments. ok (arr (cons (str name) (of_values arguments)));
}

abbrev pub estimate : ℕ → Estimate
estimate n = record {
  suggested_fee_mutez = n;
  minimal_fee_mutez = n;
  consumed_milligas = 1500;
  gas_limit = 1100;
  storage_limit = 7;
  burn_fee_mutez = 0;
}

abbrev pub tezos : TezosService
tezos = record {
  contract = λ use_cache address. ok contract;
  counter = λ address. ok (some "41");
  estimate_reveal = λ signer. ok (some (estimate 300));
  estimate_batch = λ signer list. ok (estimate 374 ∷ map (λ _. estimate 400) list);
  forge = λ contents. ok ("BLock", "6b006c00");
}

abbrev pub mint : TransactionDetails
mint = record {
  contract_address = "KT1mint";
  entry_point = "mint";
  entry_point_params = num (pos 5);
  amount = none;
  fee = none;
}

abbrev pub burn : TransactionDetails
burn = record {
  contract_address = "KT1mint";
  entry_point = "burn";
  entry_point_params = num (pos 2);
  amount = some 9;
  fee = some 500;
}

abbrev pub params : ForgeOperationParams
params = record {
  transactions = mint ∷ burn ∷ [];
  source_address = "tz1alice";
  caller_id = some "wallet";
  public_key = some "edpk";
  use_cache = false;
  reveal = true;
}

pub estimates_reveals : EstimatesReveals tezos params
estimates_reveals list es e = ground (arith, length-map (λ x. estimate 400) list)

abbrev pub empty_store : Store
empty_store = record { jobs = []; operations = []; next_job = 1; next_operation = 1 }

abbrev pub world : World
world = record {
  store = empty_store;
  faults = [];
  sent = [];
  broadcast = [];
  stray = λ text s. (err (database_error "syntax error"), s);
  place = λ s op ops. 1;
}

abbrev pub node : Node
node = record { preapply = λ branch contents signature. ok tt; inject = λ bytes. ok "ooHash" }

abbrev pub patch : PatchJobParams
patch = record { job_id = 1; signed_transaction = "6b006c00ff"; signature = "edsig" }

-- The batch of `params`: the reveal, then the two transactions.
abbrev pub call_json : String → ℕ → Value
call_json name n =
    obj (field "entrypoint" (str name) (field "value" (obj (field name (num (pos n)) end)) end))

abbrev pub reveal_op : NewOperation
reveal_op = new_reveal (record {
  source = "tz1alice";
  fee = "300";
  counter = "42";
  gas_limit = "1100";
  storage_limit = "7";
  public_key = some "edpk";
})

abbrev pub mint_op : NewOperation
mint_op =
    new_transaction
      (record {
        destination = "KT1mint";
        parameters = arr (cons (str "mint") (cons (num (pos 5)) nil));
        amount = "0";
        fee = "400";
        source = "tz1alice";
        storage_limit = "7";
        gas_limit = "1100";
        counter = "43";
      })
      (call_json "mint" 5)

abbrev pub burn_op : NewOperation
burn_op =
    new_transaction
      (record {
        destination = "KT1mint";
        parameters = arr (cons (str "burn") (cons (num (pos 2)) nil));
        amount = "9";
        fee = "500";
        source = "tz1alice";
        storage_limit = "7";
        gas_limit = "1100";
        counter = "44";
      })
      (call_json "burn" 2)

abbrev pub batch : List NewOperation
batch = reveal_op ∷ mint_op ∷ burn_op ∷ []

abbrev pub forged_job : Job
forged_job = record {
  id = 1;
  status = created;
  forged_operation = some "6b006c00";
  operation_hash = none;
  error_message = none;
  operation_kind = some transaction;
}
