-- ===== src/Forge/Decimals.antt =====
-- The texts of the numbers in the batch of lib/jobs/forge-operation.ts: the node's and Taquito's
-- numbers are whole, so they are decimal.
use tezos_api_gateway.Base.{
  ℕ, zero, suc, String, ◌≡◌, refl, Option, none, some, List, [], ◌∷◌, ◌++◌, arith, inl, inr, Bool,
  ◌&&◌, ltb, Bool-cases, Option-cases,
}
use tezos_api_gateway.Base.Lists.{All, All-append, length}
use tezos_api_gateway.Base.Int.{ℤ, pos, ◌+ℤ◌}
use tezos_api_gateway.Base.Decimal.{to_string}
use tezos_api_gateway.Value.{Value}
use tezos_api_gateway.Exceptions.{ok, Result-cases, traverse}
use tezos_api_gateway.Database.Operations.{NewOperation, new_reveal}
use tezos_api_gateway.Injection.Roundtrip.{IsDecimal, IsForged}
use tezos_api_gateway.Forge.Node.{
  TezosService, Estimate, ForgeOperationParams, TransactionDetails, counter_of, next, number_text,
  text_or,
}
use tezos_api_gateway.Forge.Reveal.{estimate_and_build_reveal_operation}
use tezos_api_gateway.Forge.Batch.{
  batch_signer, number_contents, skip_reveal, transaction_parameters, get_estimation_for_node,
  operation_contents_with_parameters_json, operation_contents,
}
use tezos_api_gateway.Forge.Assembly.{add_reveal_op_if_needed, build_batch, check_batch}

text_or-IsDecimal : (n : Option ℕ) (s : String) → IsDecimal s → IsDecimal (text_or n s)
unfolding text_or
text_or-IsDecimal none s h = h
text_or-IsDecimal (some zero) s h = h
text_or-IsDecimal (some (suc n)) s h = (pos (suc n), refl)

zero-IsDecimal : IsDecimal "0"
unfolding to_string
zero-IsDecimal = (pos 0, refl)

operation_contents-IsForged :
    (source : String) (z : ℤ) (x : Estimate) (details : TransactionDetails) (parameter : Value)
    → IsForged (operation_contents source (some z) x (details, parameter))
unfolding operation_contents number_text
operation_contents-IsForged source z x details parameter = (
  text_or-IsDecimal details.amount "0" zero-IsDecimal,
  text_or-IsDecimal details.fee _ (pos x.suggested_fee_mutez, refl),
  (pos x.storage_limit, refl),
  (pos x.gas_limit, refl),
  (z, refl),
)

number_contents-IsForged :
    (source : String) (z : ℤ) (es : List Estimate) (list : List (TransactionDetails × Value))
    (ops : List NewOperation)
    → number_contents source (some z) es list ≡ ok ops
    → All IsForged ops
unfolding number_contents next
number_contents-IsForged source z [] list ops e = let same : ops ≡ [] = ground arith in rw same tt
number_contents-IsForged source z (x ∷ es) [] ops e = cc
number_contents-IsForged source z (x ∷ es) ((details, parameter) ∷ list) ops e =
    elim (Result-cases (number_contents source (some (z +ℤ pos 1)) es list)) [
      | inl (rest, built) ↦
          let op = operation_contents source (some (z +ℤ pos 1)) x (details, parameter) in
          let same : ops ≡ op ∷ rest = ground arith in
          rw same (
            operation_contents-IsForged source (z +ℤ pos 1) x details parameter,
            number_contents-IsForged source (z +ℤ pos 1) es list rest built,
          )
      | inr (x', failed) ↦ ground arith
    ]

skipped-IsForged :
    (reveal : Bool) (count : ℕ) (z : ℤ) (es : List Estimate)
    (list : List (TransactionDetails × Value)) (ops : List NewOperation) (source : String)
    → (let (first, rest) = skip_reveal reveal count (some z) es in
        number_contents source first rest list)
      ≡ ok ops
    → All IsForged ops
unfolding skip_reveal next
skipped-IsForged reveal count z [] list ops source e =
    number_contents-IsForged source z [] list ops e
skipped-IsForged reveal count z (x ∷ es) list ops source e =
    elim (Bool-cases (reveal && ltb count (length (x ∷ es)))) [
      | inl skips ↦ number_contents-IsForged source (z +ℤ pos 1) es list ops (ground arith)
      | inr stays ↦ number_contents-IsForged source z (x ∷ es) list ops (ground arith)
    ]

module _ (tezos : TezosService) (params : ForgeOperationParams) (z : ℤ)
    (at_node : counter_of tezos params.source_address ≡ ok (some z)) where
  pub reveal-IsForged :
      (key : String) (fee : Option ℕ) (op : NewOperation)
      → estimate_and_build_reveal_operation tezos params.source_address key fee ≡ ok op
      → IsForged op
  unfolding estimate_and_build_reveal_operation number_text next
  reveal-IsForged key fee op e =
      elim (Result-cases (
        tezos.estimate_reveal
          (record { public_key_hash = params.source_address; public_key = some key }))) [
            | inl (some x, estimated) ↦
                let same : op
                    ≡ new_reveal (record {
                      source = params.source_address;
                      fee = text_or fee (to_string (pos x.suggested_fee_mutez));
                      counter = to_string (z +ℤ pos 1);
                      gas_limit = to_string (pos x.gas_limit);
                      storage_limit = to_string (pos x.storage_limit);
                      public_key = some key;
                    }) =
                  ground arith in
                rw same (
                  text_or-IsDecimal fee _ (pos x.suggested_fee_mutez, refl),
                  (z +ℤ pos 1, refl),
                  (pos x.gas_limit, refl),
                  (pos x.storage_limit, refl),
                )
            | inl (none, estimated) ↦ ground arith
            | inr (x, failed) ↦ ground arith
          ]

  reveals-IsForged :
      (reveals : List NewOperation)
      → add_reveal_op_if_needed tezos params ≡ ok reveals
      → All IsForged reveals
  unfolding add_reveal_op_if_needed
  reveals-IsForged reveals e = elim (Option-cases params.public_key) [
    | inl missing ↦ let same : reveals ≡ [] = ground arith in rw same tt
    | inr (key, given) ↦
        elim (Result-cases
          (estimate_and_build_reveal_operation tezos params.source_address key none)) [
            | inr (x, failed) ↦ let same : reveals ≡ [] = ground arith in rw same tt
            | inl (op, built) ↦ elim (Bool-cases params.reveal) [
              | inr off ↦ let same : reveals ≡ [] = ground arith in rw same tt
              | inl on ↦
                  let same : reveals ≡ op ∷ [] = ground arith in
                  rw same (reveal-IsForged key none op built, tt)
            ]
          ]
  ]

  transactions-IsForged :
      (ops : List NewOperation)
      → operation_contents_with_parameters_json tezos params ≡ ok ops
      → All IsForged ops
  unfolding operation_contents_with_parameters_json
  transactions-IsForged ops e =
      elim (Result-cases
        (traverse (transaction_parameters tezos params.use_cache) params.transactions)) [
          | inr (x, failed) ↦ ground arith
          | inl (list, formed) ↦
              elim (Result-cases (get_estimation_for_node tezos (batch_signer params) list)) [
                | inr (x, failed) ↦ ground arith
                | inl (es, estimated) ↦
                    skipped-IsForged params.reveal (length params.transactions) z es list ops
                      params.source_address (ground arith)
              ]
        ]

  pub build_batch-IsForged :
      (ops : List NewOperation) → build_batch tezos params ≡ ok ops → All IsForged ops
  unfolding build_batch
  build_batch-IsForged ops e = elim (Result-cases (add_reveal_op_if_needed tezos params)) [
    | inr (x, failed) ↦ ground arith
    | inl (reveals, added) ↦ elim (Result-cases (check_batch params reveals)) [
      | inr (x, failed) ↦ ground arith
      | inl (u, small) ↦
          elim (Result-cases (operation_contents_with_parameters_json tezos params)) [
            | inr (x, failed) ↦ ground arith
            | inl (transactions, built) ↦
                let same : ops ≡ reveals ++ transactions = ground arith in
                rw same (
                  All-append IsForged reveals transactions (reveals-IsForged reveals added)
                    (transactions-IsForged transactions built))
          ]
    ]
  ]
