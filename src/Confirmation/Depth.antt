-- ===== src/Confirmation/Depth.antt =====
-- What a confirmation rests on: services/indexer-pool.ts and services/clients/indexer-client.ts.
use tezos_api_gateway.Base.{
  ℕ, zero, suc, String, ◌≡◌, true, false, none, some, arith, eq_iff, ◌<◌, inl, inr, Option-cases,
}
use tezos_api_gateway.Base.Int.{ℤ, ◌-ℤ◌, ◌≤ℤ◌}
use tezos_api_gateway.Base.Lists.{get_elem?}
use tezos_api_gateway.Value.{Value, num, str}
use tezos_api_gateway.Exceptions.{Result, ok, Result-cases}
use tezos_api_gateway.SmartContracts.Format.{index}
use tezos_api_gateway.Confirmation.Indexer.{
  IndexerClient, element, get_operation_by_hash, get_operation_block_level, Surroundings, attempt,
  check_if_operation_is_confirmed, check_by_random_indexer, get_random_indexer, level_of,
}
use Prim.Native.String

-- An indexer holds the operation with its status of success, in a block that lies `depth` levels or more
-- below the head of the node.
pub record IsConfirmed (latest : Result ℤ) (client : IndexerClient) (hash : String) (depth : ℤ)
    : Type 0 where
  pub body : Value
  pub operation : Value
  pub level : ℤ
  pub current : ℤ
  pub called : client.call (String.◌++◌ client.path_to_operation hash) ≡ ok body
  pub found : element body client.key_to_operation ≡ ok operation
  pub succeeded : index operation client.key_to_operation_status ≡ ok (str client.success_status)
  pub included : index operation client.key_to_block_level ≡ ok (num level)
  pub head : latest ≡ ok current
  pub deep : depth ≤ℤ (current -ℤ level)

check_if_operation_is_confirmed-IsConfirmed :
    (latest : Result ℤ) (client : IndexerClient) (hash : String) (depth : ℤ)
    → check_if_operation_is_confirmed latest client hash depth ≡ ok (some true)
    → IsConfirmed latest client hash depth
unfolding check_if_operation_is_confirmed get_operation_block_level get_operation_by_hash level_of
check_if_operation_is_confirmed-IsConfirmed latest client hash depth e =
    elim (Result-cases (client.call (String.◌++◌ client.path_to_operation hash))) [
      | inr (x, failed) ↦ ground arith
      | inl (body, called) ↦ elim (Result-cases (element body client.key_to_operation)) [
        | inr (x, failed) ↦ ground arith
        | inl (operation, found) ↦
            elim (Result-cases (index operation client.key_to_operation_status)) [
              | inr (x, failed) ↦ ground arith
              | inl (str status, has) ↦
                  elim (Result-cases (index operation client.key_to_block_level)) [
                    | inr (x, failed) ↦ ground arith
                    | inl (num level, included) ↦ elim (Result-cases latest) [
                      | inr (x, failed) ↦ ground arith
                      | inl (current, head) ↦ record {
                        body = body;
                        operation = operation;
                        level = level;
                        current = current;
                        called = called;
                        found = found;
                        succeeded = ground (arith, eq_iff status client.success_status);
                        included = included;
                        head = head;
                        deep = ground arith;
                      }
                    ]
                    | inl (_, included) ↦ ground arith
                  ]
              | inl (_, has) ↦ ground arith
            ]
      ]
    ]

module _ (around : Surroundings) (hash : String) (depth : ℤ) where
  -- A positive answer of the pool is that of one of its indexers in one of the tries: it has returned the
  -- operation with the status of success, in a block that the wanted number of levels follow.
  pub check_by_random_indexer-IsConfirmed :
      (n : ℕ)
      → check_by_random_indexer around hash depth n ≡ ok (some true)
      → (i : ℕ) × (i < n)
        × (client : IndexerClient) × (get_elem? (around.indexers (suc i)) (around.random (suc i))
            ≡ some client)
        × IsConfirmed (around.latest (suc i)) client hash depth
  unfolding check_by_random_indexer attempt get_random_indexer
  check_by_random_indexer-IsConfirmed zero e = cc
  check_by_random_indexer-IsConfirmed (suc n) e =
      elim (Option-cases (get_elem? (around.indexers (suc n)) (around.random (suc n)))) [
        | inl missing ↦ ground arith
        | inr (client, picked) ↦
            elim (Result-cases
              (check_if_operation_is_confirmed (around.latest (suc n)) client hash depth)) [
                | inr (x, failed) ↦ ground arith
                | inl (none, unsure) ↦
                    let (i, below, client', picked', sure) =
                      check_by_random_indexer-IsConfirmed n (ground arith) in
                    (i, omega (arith, below), client', picked', sure)
                | inl (some true, sure) ↦ (
                  n,
                  omega arith,
                  client,
                  picked,
                  check_if_operation_is_confirmed-IsConfirmed (around.latest (suc n)) client hash
                      depth sure,
                )
                | inl (some false, sure) ↦ ground arith
              ]
      ]
