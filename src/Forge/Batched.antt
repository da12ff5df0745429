-- ===== src/Forge/Batched.antt =====
-- The operations of the batch that lib/jobs/forge-operation.ts builds: what each of them is.
use tezos_api_gateway.Base.{
  ℕ, suc, Option, String, ◌≡◌, subst, refl, sym, Bool, true, false, ◌⊎◌, none, Bool-cases,
  Option-cases, some, List, [], ◌∷◌, ◌++◌, ◌+◌, map, arith, inl, inr,
}
use tezos_api_gateway.Base.Lists.{length, length-map}
use tezos_api_gateway.Base.Int.{ℤ, pos}
use tezos_api_gateway.Base.Decimal.{to_string}
use tezos_api_gateway.Value.{Value}
use tezos_api_gateway.Exceptions.{ok, Result-cases, length-traverse, traverse}
use tezos_api_gateway.Database.Operations.{
  RevealContents, NewOperation, new_reveal, new_transaction,
}
use tezos_api_gateway.SmartContracts.Method.{Contract, get_contract_method}
use tezos_api_gateway.Forge.Node.{
  TezosService, Estimate, ForgeOperationParams, TransactionDetails, counter_of, next, text_or,
  number_text, FakeSigner,
}
use tezos_api_gateway.Forge.Reveal.{estimate_and_build_reveal_operation}
use tezos_api_gateway.Forge.Batch.{
  batch_signer, params_with_kind, number_contents, skip_reveal, transaction_parameters,
  get_estimation_for_node, operation_contents_with_parameters_json, operation_contents,
  create_parameters_json,
}
use tezos_api_gateway.Forge.Assembly.{add_reveal_op_if_needed, build_batch}
use tezos_api_gateway.Forge.Counters.{
  NumberedFrom, needs_reveal, count_if, EstimatesReveals, build_batch-NumberedFrom,
}

module _ (tezos : TezosService) (params : ForgeOperationParams) where
  -- The call of the entry point that a client asks for, with the amount and the fee that it gives.
  abbrev pub IsTransactionOf : TransactionDetails → NewOperation → Type 0
  IsTransactionOf d (new_reveal op) = ⊥
  IsTransactionOf d (new_transaction op json) =
      (op.destination ≡ d.contract_address)
      × ((contract : Contract) × (tezos.contract params.use_cache d.contract_address ≡ ok contract)
          × (get_contract_method contract d.entry_point d.entry_point_params ≡ ok op.parameters))
      × (op.source ≡ params.source_address)
      × (op.amount ≡ text_or d.amount "0")
      × ((n : ℕ) → d.fee ≡ some (suc n) → op.fee ≡ to_string (pos (suc n)))
      × (json ≡ create_parameters_json d)

  -- One operation for each transaction of the request, in its order.
  abbrev pub Holds : List TransactionDetails → List NewOperation → Type 0
  Holds [] [] = Unit
  Holds (d ∷ ds) (op ∷ ops) = IsTransactionOf d op × Holds ds ops
  Holds [] (_ ∷ _) = ⊥
  Holds (_ ∷ _) [] = ⊥

  -- The reveal of the public key of the address, where one is needed.
  abbrev pub IsReveal : List NewOperation → Type 0
  IsReveal reveals =
      ((needs_reveal tezos params ≡ false) × (reveals ≡ []))
      ⊎ ((needs_reveal tezos params ≡ true)
          × ((op : RevealContents) × (reveals ≡ new_reveal op ∷ [])
              × (op.source ≡ params.source_address)
              × (op.public_key ≡ params.public_key)))

  operation_contents-IsTransactionOf :
      (d : TransactionDetails) (item : TransactionDetails × Value) (x : Estimate) (c : Option ℤ)
      → transaction_parameters tezos params.use_cache d ≡ ok item
      → IsTransactionOf d (operation_contents params.source_address c x item)
  unfolding transaction_parameters operation_contents text_or
  operation_contents-IsTransactionOf d item x c e =
      elim (Result-cases (tezos.contract params.use_cache d.contract_address)) [
        | inr (t, failed) ↦ ground arith
        | inl (contract, found) ↦
            elim (Result-cases (get_contract_method contract d.entry_point d.entry_point_params)) [
              | inr (t, failed) ↦ ground arith
              | inl (parameter, formed) ↦ (
                ground arith,
                (contract, found, ground arith),
                ground arith,
                ground arith,
                λ n given. ground arith,
                ground arith,
              )
            ]
      ]

  number_contents-Holds :
      (ds : List TransactionDetails) (c : Option ℤ) (es : List Estimate)
      (list : List (TransactionDetails × Value)) (ops : List NewOperation)
      → traverse (transaction_parameters tezos params.use_cache) ds ≡ ok list
      → length es ≡ length ds
      → number_contents params.source_address c es list ≡ ok ops
      → Holds ds ops
  unfolding number_contents traverse
  number_contents-Holds [] c [] list ops t l e =
      let none_left : ops ≡ [] = ground arith in rw none_left tt
  number_contents-Holds [] c (x ∷ es) list ops t l e = absurd (omega (arith, l))
  number_contents-Holds (d ∷ ds) c [] list ops t l e = absurd (omega (arith, l))
  number_contents-Holds (d ∷ ds) c (x ∷ es) [] ops t l e = cc
  number_contents-Holds (d ∷ ds) c (x ∷ es) (item ∷ list) ops t l e =
      elim (Result-cases (transaction_parameters tezos params.use_cache d)) [
        | inr (y, failed) ↦ ground arith
        | inl (found, formed) ↦
            elim (Result-cases (traverse (transaction_parameters tezos params.use_cache) ds)) [
              | inr (y, failed) ↦ ground arith
              | inl (more, all_formed) ↦
                  elim (Result-cases (number_contents params.source_address (next c) es list)) [
                    | inr (y, failed) ↦ ground arith
                    | inl (rest, built) ↦
                        let same_item : found ≡ item = ground arith in
                        let same_list : more ≡ list = ground arith in
                        let these : transaction_parameters tezos params.use_cache d ≡ ok item =
                          rw (sym same_item) formed in
                        let those : traverse (transaction_parameters tezos params.use_cache) ds
                            ≡ ok list =
                          rw (sym same_list) all_formed in
                        let whole : ops
                            ≡ operation_contents params.source_address (next c) x item ∷ rest =
                          ground arith in
                        let head = operation_contents-IsTransactionOf d item x (next c) these in
                        let tail =
                          number_contents-Holds ds (next c) es list rest those (omega (arith, l))
                            built in
                        subst (λ l. Holds (d ∷ ds) l) (sym whole) (head, tail)
                  ]
            ]
      ]

  -- The estimation of a reveal is left out, where there is one.
  skip_reveal-length :
      (b : Bool) (c : Option ℤ) (es : List Estimate)
      → (b ≡ true → params.reveal ≡ true)
      → length es ≡ length params.transactions + count_if b
      → length (skip_reveal params.reveal (length params.transactions) c es).1
        ≡ length params.transactions
  unfolding skip_reveal
  skip_reveal-length true c [] r l = ground arith
  skip_reveal-length false c [] r l = ground arith
  skip_reveal-length true c (x ∷ es) r l = ground (arith, r refl)
  skip_reveal-length false c (x ∷ es) r l = ground arith

  transactions-Holds :
      (ops : List NewOperation)
      → EstimatesReveals tezos params
      → operation_contents_with_parameters_json tezos params ≡ ok ops
      → Holds params.transactions ops
  unfolding operation_contents_with_parameters_json get_estimation_for_node
  transactions-Holds ops estimates e =
      elim (Result-cases (counter_of tezos params.source_address)) [
        | inr (y, failed) ↦ ground arith
        | inl (c, at_node) ↦
            elim (Result-cases
              (traverse (transaction_parameters tezos params.use_cache) params.transactions)) [
                | inr (y, failed) ↦ ground arith
                | inl (list, formed) ↦
                    elim (Result-cases
                      (tezos.estimate_batch (batch_signer params) (map params_with_kind list))) [
                        | inr (y, failed) ↦ ground arith
                        | inl (es, estimated) ↦
                            let count =
                              length-traverse (transaction_parameters tezos params.use_cache)
                                params.transactions list formed in
                            let enough =
                              skip_reveal-length (needs_reveal tezos params) c es
                                (λ h. ground arith)
                                (omega (
                                  arith,
                                  estimates (map params_with_kind list) es estimated,
                                  length-map params_with_kind list,
                                  count,
                                )) in
                            let kept =
                              skip_reveal params.reveal (length params.transactions) c es in
                            number_contents-Holds params.transactions kept.0 kept.1 list ops formed
                              enough (ground arith)
                      ]
              ]
      ]

  abbrev reveal_op : String → Estimate → Option ℤ → RevealContents
  reveal_op key x c = record {
    source = params.source_address;
    fee = to_string (pos x.suggested_fee_mutez);
    counter = number_text (next c);
    gas_limit = to_string (pos x.gas_limit);
    storage_limit = to_string (pos x.storage_limit);
    public_key = some key;
  }

  reveals-IsReveal :
      (z : ℤ) (reveals : List NewOperation)
      → counter_of tezos params.source_address ≡ ok (some z)
      → add_reveal_op_if_needed tezos params ≡ ok reveals
      → IsReveal reveals
  unfolding add_reveal_op_if_needed estimate_and_build_reveal_operation text_or
  reveals-IsReveal z reveals at_node e = elim (Bool-cases params.reveal) [
    | inr not_asked ↦ inl (ground arith, ground arith)
    | inl asked ↦ elim (Option-cases params.public_key) [
      | inl no_key ↦ inl (ground arith, ground arith)
      | inr (key, given) ↦
          let signer : FakeSigner = record {
            public_key_hash = params.source_address;
            public_key = some key;
          } in
          elim (Result-cases (tezos.estimate_reveal signer)) [
            | inr (y, failed) ↦ ground arith
            | inl (none, revealed) ↦ inl (ground arith, ground arith)
            | inl (some x, estimated) ↦
                inr (ground arith, (reveal_op key x (some z), ground arith, refl, ground arith))
          ]
    ]
  ]

  -- A batch is a reveal of the public key of the address, exactly where the address needs one, and then one
  -- operation for each transaction of the request, in its order: the call that Taquito has formed for
  -- its contract, entry point and parameters, from the source address, with its amount and its fee
  -- where it gives one, and with its parameters as they are stored. The counters follow the counter
  -- of the node, in order and without a gap. That counter must be a number, and the estimations must
  -- hold one of a reveal exactly where the address needs one.
  pub build_batch-Holds :
      (z : ℤ) (ops : List NewOperation)
      → counter_of tezos params.source_address ≡ ok (some z)
      → EstimatesReveals tezos params
      → build_batch tezos params ≡ ok ops
      → (reveals transactions : List NewOperation) × (ops ≡ reveals ++ transactions)
        × IsReveal reveals
        × Holds params.transactions transactions
        × NumberedFrom z ops
  unfolding build_batch
  build_batch-Holds z ops at_node estimates e =
      elim (Result-cases (add_reveal_op_if_needed tezos params)) [
        | inr (y, failed) ↦ ground arith
        | inl (reveals, added) ↦
            elim (Result-cases (operation_contents_with_parameters_json tezos params)) [
              | inr (y, failed) ↦ ground arith
              | inl (transactions, built) ↦ (
                reveals,
                transactions,
                ground arith,
                reveals-IsReveal z reveals at_node added,
                transactions-Holds transactions estimates built,
                (build_batch-NumberedFrom tezos params z at_node estimates ops e).0,
              )
            ]
      ]
