-- ===== src/Forge/Node.antt =====
-- What lib/jobs/forge-operation.ts asks of a Tezos node through services/tezos.ts, and its parameters
-- (const/interfaces/forge-operation-params.ts, const/interfaces/send-transactions-params.ts).
use tezos_api_gateway.Base.{
  ℕ, zero, suc, String, Bool, Option, none, some, List, is_empty, if◌then◌else◌,
}
use tezos_api_gateway.Base.Int.{ℤ, pos, ◌+ℤ◌}
use tezos_api_gateway.Base.Decimal.{to_string, parse_int}
use tezos_api_gateway.Value.{Value}
use tezos_api_gateway.Exceptions.{Result, ok, err, address_not_found, ◌>>=◌}
use tezos_api_gateway.Database.Operations.{Contents}
use tezos_api_gateway.SmartContracts.Method.{Contract}

pub record TransactionDetails : Type 0 where
  pub contract_address : String
  pub entry_point : String
  pub entry_point_params : Value
  pub amount : Option ℕ
  pub fee : Option ℕ

pub record ForgeOperationParams : Type 0 where
  pub transactions : List TransactionDetails
  pub source_address : String
  pub caller_id : Option String
  pub public_key : Option String
  pub use_cache : Bool
  pub reveal : Bool

-- Taquito's `Estimate`; the milligas and the fees are whole numbers.
pub record Estimate : Type 0 where
  pub suggested_fee_mutez : ℕ
  pub minimal_fee_mutez : ℕ
  pub consumed_milligas : ℕ
  pub gas_limit : ℕ
  pub storage_limit : ℕ
  pub burn_fee_mutez : ℕ

-- A transaction of Taquito's `ParamsWithKind`.
pub record ParamsWithKind : Type 0 where
  pub to : String
  pub parameter : Value
  pub amount : ℕ

-- The address and the public key of services/signers/fake-signer.ts. It is the state that
-- `setSigner` writes and the estimations read.
pub record FakeSigner : Type 0 where
  pub public_key_hash : String
  pub public_key : Option String

-- The answers of the node and of Taquito: the contract, from the cache or not; the counter of an
-- address; the estimations; the branch and the bytes of a forged batch.
pub record TezosService : Type 0 where
  pub contract : Bool → String → Result Contract
  pub counter : String → Result (Option String)
  pub estimate_reveal : FakeSigner → Result (Option Estimate)
  pub estimate_batch : FakeSigner → List ParamsWithKind → Result (List Estimate)
  pub forge : List Contents → Result (String × String)

-- `parseInt(counterAsString, 10)`, where NaN is `none`.
unfoldable pub counter_of : TezosService → String → Result (Option ℤ)
counter_of tezos address = do
  found ← tezos.counter address
  elim found [
    | none ↦ err (address_not_found address)
    | some text ↦ if is_empty text then err (address_not_found address) else ok (parse_int text)
  ]

-- `counter + 1`
unfoldable pub next : Option ℤ → Option ℤ
next none = none
next (some z) = some (z +ℤ pos 1)

unfoldable pub number_text : Option ℤ → String
number_text none = "NaN"
number_text (some z) = to_string z

-- `n ? `${n}` : other`
unfoldable pub text_or : Option ℕ → String → String
text_or none other = other
text_or (some zero) other = other
text_or (some (suc n)) other = to_string (pos (suc n))
