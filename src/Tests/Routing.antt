-- ===== src/Tests/Routing.antt =====
-- Tests of services/gateway-pool.ts and of lib/generate-path-object/.
use tezos_api_gateway.Base.{
  ℕ, zero, suc, String, ◌≡◌, ◌≤◌, ◌<◌, ◌+◌, refl, true, false, Option, some, List, [], ◌∷◌, map,
}
use tezos_api_gateway.Base.Lists.{All}
use tezos_api_gateway.Value.{Value, undef, str, Fields, field, end, keys}
use tezos_api_gateway.Exceptions.{Result, ok, err, other_error}
use tezos_api_gateway.GatewayPool.{
  GatewayPool, health_check, get_tezos_service, get_random_node_url, get_tezos_service-terminates,
}
use tezos_api_gateway.PathObject.{
  generate_path_object, generate_path_item_schema, body_schema, generate_schema_object, type_schema,
}
use tezos_api_gateway.PathObject.Paths.{
  path_of, thrice, generate_transaction_details, is_plain,
  generate_transaction_details-generate_path_object,
}

-- The first two draws meet a node that is down.
abbrev hash_at : ℕ → Option String → Result String
hash_at zero url = err (other_error "ECONNREFUSED")
hash_at (suc zero) url = ok ""
hash_at n url = ok "BLock"

abbrev pool : GatewayPool
pool = record {
  tezos_node_urls = "https://a" ∷ "https://b" ∷ [];
  random = λ draw. 1;
  latest_hash = hash_at;
}

second_is_healthy : health_check pool (0 + 2) ≡ true
unfolding health_check
second_is_healthy = refl

get_tezos_service-terminates_example :
    (k : ℕ) × (k ≤ 2)
    × (health_check pool (0 + k) ≡ true)
    × ((i : ℕ) → i < k → health_check pool (0 + i) ≡ false)
    × ((fuel : ℕ)
        → k < fuel
        → get_tezos_service pool fuel 0 ≡ some (get_random_node_url pool (0 + k)))
get_tezos_service-terminates_example = get_tezos_service-terminates pool 2 0 second_is_healthy

abbrev entry_points : Fields
entry_points = field "mint" (str "nat") (field "pause" (str "unit") end)

paths_of_contract : Result (List (String × Value))
paths_of_contract = generate_path_object undef entry_points

abbrev items_in : Result (List (String × Value)) → List (String × Value)
items_in (ok items) = items
items_in (err e) = []

generated : generate_path_object undef entry_points ≡ ok (items_in paths_of_contract)
unfolding paths_of_contract generate_path_object generate_path_item_schema body_schema
    generate_schema_object type_schema
generated = refl

names-plain : All (λ k. is_plain k ≡ true) (keys entry_points)
unfolding is_plain
names-plain = (refl, (refl, tt))

generate_transaction_details-generate_path_object_example :
    map
      (λ item. (generate_transaction_details "KT1mint" (path_of item) undef).entry_point)
      (items_in paths_of_contract)
    ≡ thrice ("mint" ∷ "pause" ∷ [])
generate_transaction_details-generate_path_object_example =
    generate_transaction_details-generate_path_object "KT1mint" undef undef entry_points
      (items_in paths_of_contract) names-plain generated
