-- ===== src/Web/Bounds.antt =====
-- The size of a batch that the forge controller accepts.
use tezos_api_gateway.Base.{
  String, ◌≡◌, false, ◌&&◌, Option, none, List, [], ◌∷◌, ◌≤◌, map, arith, inl, inr, Bool-cases,
  Option-cases,
}
use tezos_api_gateway.Base.Lists.{length, length-append}
use tezos_api_gateway.Base.Int.{ℤ}
use tezos_api_gateway.Value.{Value}
use tezos_api_gateway.Exceptions.{Exn, Result, ok, err, Result-cases, traverse, length-traverse}
use tezos_api_gateway.Database.Effect.{World}
use tezos_api_gateway.Database.Operations.{NewOperation}
use tezos_api_gateway.Forge.{contents_of, ForgedJob, forge_operation}
use tezos_api_gateway.Forge.Node.{
  TezosService, ForgeOperationParams, TransactionDetails, Estimate, counter_of, next,
}
use tezos_api_gateway.Forge.Batch.{
  operation_contents_with_parameters_json, number_contents, transaction_parameters, skip_reveal,
  unless_tezos_error, get_estimation_for_node, batch_signer,
}
use tezos_api_gateway.Forge.Reveal.{estimate_and_build_reveal_operation}
use tezos_api_gateway.Forge.Assembly.{
  max_operations, continue_if_revealed, add_reveal_op_if_needed, check_batch, build_batch,
}
use tezos_api_gateway.Web.{json, respond}
use tezos_api_gateway.Web.Errors.{forge_error}
use tezos_api_gateway.Web.Jobs.{check_request, is_missing, forge_operation_and_create_job}

length-number_contents :
    (source : String) (counter : Option ℤ) (es : List Estimate)
    (list : List (TransactionDetails × Value)) (ops : List NewOperation)
    → number_contents source counter es list ≡ ok ops
    → length ops ≤ length list
unfolding number_contents
length-number_contents source counter [] list ops e = ground arith
length-number_contents source counter (x ∷ es) [] ops e = ground arith
length-number_contents source counter (x ∷ es) (item ∷ list) ops e =
    elim (Result-cases (number_contents source (next counter) es list)) [
      | inr (thrown, failed) ↦ ground arith
      | inl (rest, built) ↦
          ground (arith, length-number_contents source (next counter) es list rest built)
    ]

length-contents :
    (tezos : TezosService) (params : ForgeOperationParams) (ops : List NewOperation)
    → operation_contents_with_parameters_json tezos params ≡ ok ops
    → length ops ≤ length params.transactions
unfolding operation_contents_with_parameters_json
length-contents tezos params ops e = elim (Result-cases (counter_of tezos params.source_address)) [
  | inr (thrown, failed) ↦ ground arith
  | inl (counter, found) ↦
      let parameters = transaction_parameters tezos params.use_cache in
      elim (Result-cases (traverse parameters params.transactions)) [
        | inr (thrown, failed) ↦ ground arith
        | inl (list, formatted) ↦
            let estimated =
              unless_tezos_error params.source_address
                (get_estimation_for_node tezos (batch_signer params) list) in
            elim (Result-cases estimated) [
              | inr (thrown, failed) ↦ ground arith
              | inl (es, done) ↦
                  let split = skip_reveal params.reveal (length params.transactions) counter es in
                  let short =
                    length-number_contents params.source_address split.0 split.1 list ops in
                  let same = length-traverse parameters params.transactions list formatted in
                  ground (arith, short, same)
            ]
      ]
]

at_most_one :
    (built : Result NewOperation) (reveals : List NewOperation)
    → continue_if_revealed built ≡ ok reveals
    → length reveals ≤ 1
at_most_one (ok op) reveals e = ground arith
at_most_one (err (Exn.address_already_revealed a)) reveals e = ground arith
at_most_one (err x) reveals e = cc

length-reveals :
    (tezos : TezosService) (params : ForgeOperationParams) (reveals : List NewOperation)
    → add_reveal_op_if_needed tezos params ≡ ok reveals
    → length reveals ≤ 1
unfolding add_reveal_op_if_needed
length-reveals tezos params reveals e = elim (Bool-cases params.reveal) [
  | inr unwanted ↦ ground arith
  | inl wanted ↦ elim (Option-cases params.public_key) [
    | inl missing ↦ ground arith
    | inr (key, present) ↦
        at_most_one (estimate_and_build_reveal_operation tezos params.source_address key none)
          reveals (ground arith)
  ]
]

-- A batch that passes the guards holds at most `max_operations` operations, the reveal included.
length-build_batch :
    (tezos : TezosService) (params : ForgeOperationParams) (ops : List NewOperation)
    → check_request params ≡ ok tt
    → build_batch tezos params ≡ ok ops
    → length ops ≤ max_operations
unfolding build_batch check_request check_batch
length-build_batch tezos params ops guarded e =
    elim (Result-cases (add_reveal_op_if_needed tezos params)) [
      | inr (thrown, failed) ↦ ground arith
      | inl (reveals, added) ↦
          elim (Result-cases (operation_contents_with_parameters_json tezos params)) [
            | inr (thrown, failed) ↦ ground arith
            | inl (contents, built) ↦
                let few = length-reveals tezos params reveals added in
                let short = length-contents tezos params contents built in
                let joined = length-append reveals contents in ground (arith, few, short, joined)
          ]
    ]

module _ (tezos : TezosService) (now : String) (params : ForgeOperationParams) (w w' : World)
    (result : ForgedJob) where
  -- A request to forge that is answered with 201 has had a batch of at most five operations
  -- forged by the node, the reveal included, and where it asks for a reveal it gave a public key.
  pub forge_operation_and_create_job-bound :
      forge_operation_and_create_job tezos now params w ≡ (json 201 result, w')
      → (ops : List NewOperation) × (branch bytes : String) × (build_batch tezos params ≡ ok ops)
        × (tezos.forge (map contents_of ops) ≡ ok (branch, bytes))
        × (length ops ≤ 5)
        × (params.reveal && is_missing params.public_key ≡ false)
  unfolding forge_operation_and_create_job respond forge_error forge_operation check_request
  forge_operation_and_create_job-bound e = elim (Result-cases (check_request params)) [
    | inr (thrown, failed) ↦ ground arith
    | inl (u, guarded) ↦ elim (Result-cases (build_batch tezos params)) [
      | inr (thrown, failed) ↦ ground arith
      | inl (ops, built) ↦ elim (Result-cases (tezos.forge (map contents_of ops))) [
        | inr (thrown, failed) ↦ ground arith
        | inl ((branch, bytes), forged) ↦
            let few = length-build_batch tezos params ops guarded built in
            (ops, branch, bytes, built, forged, ground (arith, few), ground arith)
      ]
    ]
  ]
