-- ===== src/Forge/Counters.antt =====
-- The counters of the batch that lib/jobs/forge-operation.ts builds.
use tezos_api_gateway.Base.{
  ℕ, String, ◌≡◌, refl, Bool, true, false, ◌&&◌, none, some, List, [], ◌∷◌, ◌++◌, ◌+◌, map, arith,
  inl, inr, if◌then◌else◌,
}
use tezos_api_gateway.Base.Lists.{length, length-map}
use tezos_api_gateway.Base.Int.{ℤ, pos, ◌+ℤ◌}
use tezos_api_gateway.Base.Decimal.{to_string}
use tezos_api_gateway.Value.{Value}
use tezos_api_gateway.Exceptions.{ok, Result-cases, length-traverse, traverse}
use tezos_api_gateway.Database.Operations.{NewOperation, new_reveal, new_transaction}
use tezos_api_gateway.Forge.Node.{
  TezosService, Estimate, ForgeOperationParams, TransactionDetails, ParamsWithKind, counter_of,
  next, number_text,
}
use tezos_api_gateway.Forge.Reveal.{estimate_and_build_reveal_operation}
use tezos_api_gateway.Forge.Batch.{
  batch_signer, params_with_kind, number_contents, skip_reveal, transaction_parameters,
  get_estimation_for_node, operation_contents_with_parameters_json, operation_contents,
}
use tezos_api_gateway.Forge.Assembly.{add_reveal_op_if_needed, build_batch, check_batch}

abbrev pub counter_text : NewOperation → String
counter_text (new_reveal op) = op.counter
counter_text (new_transaction op _) = op.counter

-- The counters of the operations are z + 1, z + 2 and so on, in this order.
abbrev pub NumberedFrom : ℤ → List NewOperation → Type 0
NumberedFrom z [] = Unit
NumberedFrom z (op ∷ ops) =
    (counter_text op ≡ to_string (z +ℤ pos 1)) × NumberedFrom (z +ℤ pos 1) ops

number_contents-NumberedFrom :
    (source : String) (z : ℤ) (es : List Estimate) (list : List (TransactionDetails × Value))
    (ops : List NewOperation)
    → number_contents source (some z) es list ≡ ok ops
    → NumberedFrom z ops × (length ops ≡ length es)
unfolding number_contents next number_text operation_contents
number_contents-NumberedFrom source z [] list ops e = ground arith
number_contents-NumberedFrom source z (x ∷ es) [] ops e = cc
number_contents-NumberedFrom source z (x ∷ es) (item ∷ list) ops e =
    elim (Result-cases (number_contents source (some (z +ℤ pos 1)) es list)) [
      | inl (rest, built) ↦
          let ih = number_contents-NumberedFrom source (z +ℤ pos 1) es list rest built in
          ground (arith, ih)
      | inr (x, failed) ↦ ground arith
    ]

-- Whether `addRevealOpIfNeeded` puts a reveal in front.
abbrev pub needs_reveal : TezosService → ForgeOperationParams → Bool
needs_reveal tezos params = params.reveal && (elim params.public_key [
  | none ↦ false
  | some key ↦
      elim (tezos.estimate_reveal
        (record { public_key_hash = params.source_address; public_key = some key })) [
          | ok (some _) ↦ true
          | _ ↦ false
        ]
])

abbrev pub count_if : Bool → ℕ
count_if true = 1
count_if false = 0

-- Taquito's `estimate.batch` gives one estimation for each transaction, after that of the reveal
-- where the signer has to reveal its key.
abbrev pub EstimatesReveals : TezosService → ForgeOperationParams → Type 0
EstimatesReveals tezos params =
    (list : List ParamsWithKind) (es : List Estimate)
    → tezos.estimate_batch (batch_signer params) list ≡ ok es
    → length es ≡ length list + count_if (needs_reveal tezos params)

-- Where the transactions are numbered from.
abbrev after : Bool → ℤ → ℤ
after b z = if b then z +ℤ pos 1 else z

skip_reveal-number_contents :
    (b : Bool) (params : ForgeOperationParams) (z : ℤ) (es : List Estimate)
    (list : List (TransactionDetails × Value)) (ops : List NewOperation)
    → (b ≡ true → params.reveal ≡ true)
    → length es ≡ length params.transactions + count_if b
    → (let (first, rest) = skip_reveal params.reveal (length params.transactions) (some z) es in
        number_contents params.source_address first rest list)
      ≡ ok ops
    → NumberedFrom (after b z) ops × (length ops ≡ length params.transactions)
unfolding skip_reveal next
skip_reveal-number_contents true params z [] list ops r l e = ground arith
skip_reveal-number_contents false params z [] list ops r l e =
    let ih = number_contents-NumberedFrom params.source_address z [] list ops e in
    ground (arith, ih)
skip_reveal-number_contents true params z (x ∷ es) list ops r l e =
    let ih = number_contents-NumberedFrom params.source_address (z +ℤ pos 1) es list ops in
    ground (arith, ih, r refl)
skip_reveal-number_contents false params z (x ∷ es) list ops r l e =
    let ih = number_contents-NumberedFrom params.source_address z (x ∷ es) list ops in
    ground (arith, ih)

module _ (tezos : TezosService) (params : ForgeOperationParams) (z : ℤ)
    (at_node : counter_of tezos params.source_address ≡ ok (some z))
    (estimates : EstimatesReveals tezos params) where
  transactions-NumberedFrom :
      (ops : List NewOperation)
      → operation_contents_with_parameters_json tezos params ≡ ok ops
      → NumberedFrom (after (needs_reveal tezos params) z) ops
        × (length ops ≡ length params.transactions)
  unfolding operation_contents_with_parameters_json get_estimation_for_node
  transactions-NumberedFrom ops e =
      elim (Result-cases
        (traverse (transaction_parameters tezos params.use_cache) params.transactions)) [
          | inr (x, failed) ↦ ground arith
          | inl (list, formed) ↦
              elim (Result-cases (get_estimation_for_node tezos (batch_signer params) list)) [
                | inr (x, failed) ↦ ground arith
                | inl (es, estimated) ↦
                    skip_reveal-number_contents (needs_reveal tezos params) params z es list ops
                      (λ h. ground arith)
                      (rw (estimates (map params_with_kind list) es estimated) (
                        omega (
                          arith,
                          length-map params_with_kind list,
                          length-traverse (transaction_parameters tezos params.use_cache)
                              params.transactions list formed,
                        )))
                      (ground arith)
              ]
        ]

  -- The reveal, with the counter that follows the node's, stands in front where it is needed.
  reveals-NumberedFrom :
      (reveals : List NewOperation)
      → add_reveal_op_if_needed tezos params ≡ ok reveals
      → (length reveals ≡ count_if (needs_reveal tezos params)) × NumberedFrom z reveals
  unfolding add_reveal_op_if_needed estimate_and_build_reveal_operation next number_text
  reveals-NumberedFrom reveals e = ground arith

  append-NumberedFrom :
      (b : Bool) (reveals ops : List NewOperation)
      → (length reveals ≡ count_if b) × NumberedFrom z reveals
      → NumberedFrom (after b z) ops
      → NumberedFrom z (reveals ++ ops) × (length (reveals ++ ops) ≡ length ops + count_if b)
  append-NumberedFrom true (r ∷ []) ops (l, n) h = ground arith
  append-NumberedFrom false [] ops (l, n) h = ground arith
  append-NumberedFrom true [] ops (l, n) h = ground arith
  append-NumberedFrom true (r ∷ r' ∷ rs) ops (l, n) h = ground arith
  append-NumberedFrom false (r ∷ rs) ops (l, n) h = ground arith

  -- The batch holds every transaction, after a reveal exactly where the address needs one, and its
  -- counters are those that follow the counter of the node, in order and without a gap. The node's
  -- counter must be a number, and the estimations must hold one of a reveal exactly where the address
  -- needs one.
  pub build_batch-NumberedFrom :
      (ops : List NewOperation)
      → build_batch tezos params ≡ ok ops
      → NumberedFrom z ops
        × (length ops ≡ length params.transactions + count_if (needs_reveal tezos params))
  unfolding build_batch
  build_batch-NumberedFrom ops e = elim (Result-cases (add_reveal_op_if_needed tezos params)) [
    | inr (x, failed) ↦ ground arith
    | inl (reveals, added) ↦ elim (Result-cases (check_batch params reveals)) [
      | inr (x, failed) ↦ ground arith
      | inl (u, small) ↦
          elim (Result-cases (operation_contents_with_parameters_json tezos params)) [
            | inr (x, failed) ↦ ground arith
            | inl (transactions, built) ↦
                let (numbered, count) = transactions-NumberedFrom transactions built in
                let both =
                  append-NumberedFrom (needs_reveal tezos params) reveals transactions
                    (reveals-NumberedFrom reveals added) numbered in
                let same : ops ≡ reveals ++ transactions = ground arith in
                rw same (both.0, omega (arith, both.1, count))
          ]
    ]
  ]
