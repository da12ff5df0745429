-- ===== src/Forge/Reveal.antt =====
-- lib/jobs/forge-reveal-operation.ts, up to the database.
use tezos_api_gateway.Base.{ℕ, String, Option, none, some}
use tezos_api_gateway.Base.Int.{pos}
use tezos_api_gateway.Base.Decimal.{to_string}
use tezos_api_gateway.Exceptions.{
  Result, ok, err, reveal_estimate_error, address_already_revealed, ◌>>=◌,
}
use tezos_api_gateway.Database.Operations.{NewOperation, new_reveal}
use tezos_api_gateway.Forge.Node.{TezosService, Estimate, counter_of, next, number_text, text_or}

abbrev reveal_estimate : String → String → Result (Option Estimate) → Result Estimate
reveal_estimate address key (err _) = err (reveal_estimate_error address key)
reveal_estimate address key (ok none) = err (address_already_revealed address)
reveal_estimate address key (ok (some estimation)) = ok estimation

unfoldable pub estimate_and_build_reveal_operation :
    TezosService → String → String → Option ℕ → Result NewOperation
unfolding counter_of next number_text text_or
estimate_and_build_reveal_operation tezos address key fee = do
  estimation ←
      reveal_estimate address key
        (tezos.estimate_reveal (record { public_key_hash = address; public_key = some key }))
  counter ← counter_of tezos address
  ok (
      new_reveal (record {
        source = address;
        fee = text_or fee (to_string (pos estimation.suggested_fee_mutez));
        counter = number_text (next counter);
        gas_limit = to_string (pos estimation.gas_limit);
        storage_limit = to_string (pos estimation.storage_limit);
        public_key = some key;
      }))
