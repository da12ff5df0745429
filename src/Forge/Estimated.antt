-- ===== src/Forge/Estimated.antt =====
-- lib/jobs/estimate-operation.ts against lib/jobs/forge-operation.ts.
use tezos_api_gateway.Base.{
  ℕ, zero, suc, String, ◌≡◌, refl, ◌&&◌, Option, none, some, List, [], ◌∷◌, arith, inl, inr,
  Bool-cases, ltb,
}
use tezos_api_gateway.Base.Lists.{length}
use tezos_api_gateway.Base.Int.{ℤ, pos}
use tezos_api_gateway.Base.Decimal.{to_string}
use tezos_api_gateway.Value.{Value}
use tezos_api_gateway.Exceptions.{ok, Result-cases, traverse}
use tezos_api_gateway.Database.Operations.{NewOperation, new_transaction}
use tezos_api_gateway.Forge.Node.{
  TezosService, Estimate, ForgeOperationParams, TransactionDetails, counter_of, next, number_text,
  text_or,
}
use tezos_api_gateway.Forge.Batch.{
  batch_signer, number_contents, skip_reveal, transaction_parameters, get_estimation_for_node,
  operation_contents_with_parameters_json, operation_contents, amount_or_zero,
}
use tezos_api_gateway.Forge.Estimation.{
  Estimation, reveal_estimation, transaction_estimation, costs, transaction_estimations,
  estimations_of, estimate_operation,
}

-- A forged transaction and an estimation that are of one call, with the same bounds.
abbrev pub Agrees : NewOperation → Estimation → Type 0
Agrees (new_transaction op json)
      (transaction_estimation destination parameters json' amount source c) =
    (op.destination ≡ destination)
    × (op.parameters ≡ parameters)
    × (json ≡ json')
    × (op.amount ≡ to_string (pos amount))
    × (op.source ≡ source)
    × (op.counter ≡ number_text c.counter)
    × (op.gas_limit ≡ to_string (pos c.gas_limit))
    × (op.storage_limit ≡ to_string (pos c.storage_limit))
Agrees _ _ = ⊥

abbrev pub AllAgree : List NewOperation → List Estimation → Type 0
AllAgree [] [] = Unit
AllAgree (op ∷ ops) (e ∷ es) = Agrees op e × AllAgree ops es
AllAgree _ _ = ⊥

-- The estimations of the transactions: without that of the reveal.
abbrev pub of_transactions : List Estimation → List Estimation
of_transactions (reveal_estimation _ _ _ ∷ es) = es
of_transactions es = es

amount_text : (n : Option ℕ) → text_or n "0" ≡ to_string (pos (amount_or_zero n))
unfolding text_or to_string
amount_text none = refl
amount_text (some zero) = refl
amount_text (some (suc n)) = refl

transaction_estimations-AllAgree :
    (source : String) (counter : Option ℤ) (es : List Estimate)
    (list : List (TransactionDetails × Value)) (ops : List NewOperation) (ests : List Estimation)
    → number_contents source counter es list ≡ ok ops
    → transaction_estimations source counter es list ≡ ok ests
    → AllAgree ops ests × (of_transactions ests ≡ ests)
unfolding number_contents transaction_estimations operation_contents costs
transaction_estimations-AllAgree source counter [] list ops ests e f = ground arith
transaction_estimations-AllAgree source counter (x ∷ es) [] ops ests e f = cc
transaction_estimations-AllAgree source counter (x ∷ es) ((details, parameter) ∷ list) ops ests e
      f =
    elim (Result-cases (number_contents source (next counter) es list)) [
      | inr (y, failed) ↦ ground arith
      | inl (rest, built) ↦
          elim (Result-cases (transaction_estimations source (next counter) es list)) [
            | inr (y, failed) ↦ ground arith
            | inl (more, estimated) ↦
                let ih =
                  transaction_estimations-AllAgree source (next counter) es list rest more built
                    estimated in
                ground (arith, ih, amount_text details.amount)
          ]
    ]

no_contents :
    (source : String) (counter : Option ℤ) (list : List (TransactionDetails × Value))
    → number_contents source counter [] list ≡ ok []
unfolding number_contents
no_contents source counter list = refl

module _ (tezos : TezosService) (params : ForgeOperationParams) where
  estimations_of-AllAgree :
      (counter : Option ℤ) (es : List Estimate) (list : List (TransactionDetails × Value))
      (ops : List NewOperation) (ests : List Estimation)
      → (let (first, rest) = skip_reveal params.reveal (length params.transactions) counter es in
          number_contents params.source_address first rest list)
        ≡ ok ops
      → estimations_of params counter list es ≡ ok ests
      → AllAgree ops (of_transactions ests)
  unfolding skip_reveal estimations_of
  estimations_of-AllAgree counter [] list ops ests e f =
      ground (arith, no_contents params.source_address counter list)
  estimations_of-AllAgree counter (x ∷ es) list ops ests e f =
      let all = transaction_estimations-AllAgree params.source_address counter (x ∷ es) list ops in
      let others =
        transaction_estimations-AllAgree params.source_address (next counter) es list ops in
      elim (Bool-cases (params.reveal && ltb (length params.transactions) (length (x ∷ es)))) [
        | inl skips ↦
            elim (Result-cases
              (transaction_estimations params.source_address (next counter) es list)) [
                | inr (y, failed) ↦ ground arith
                | inl (rest, estimated) ↦
                    let agree = others rest (ground arith) estimated in ground (arith, agree)
              ]
        | inr stays ↦ let agree = all ests (ground arith) (ground arith) in ground (arith, agree)
      ]

  -- The estimation of a batch is that of its forge: where both succeed, the transactions agree one by
  -- one, in their order, on the destination, the parameters, the amount, the source, the
  -- counter, the gas limit and the storage limit.
  pub estimate_operation-AllAgree :
      (ops : List NewOperation) (ests : List Estimation)
      → operation_contents_with_parameters_json tezos params ≡ ok ops
      → estimate_operation tezos params ≡ ok ests
      → AllAgree ops (of_transactions ests)
  unfolding operation_contents_with_parameters_json estimate_operation
  estimate_operation-AllAgree ops ests e f =
      elim (Result-cases (counter_of tezos params.source_address)) [
        | inr (x, failed) ↦ ground arith
        | inl (counter, found) ↦
            elim (Result-cases
              (traverse (transaction_parameters tezos params.use_cache) params.transactions)) [
                | inr (x, failed) ↦ ground arith
                | inl (list, formed) ↦
                    elim (Result-cases (get_estimation_for_node tezos (batch_signer params) list)) [
                      | inr (x, failed) ↦ ground arith
                      | inl (es, estimated) ↦
                          estimations_of-AllAgree counter es list ops ests (ground arith)
                            (ground arith)
                    ]
              ]
      ]
