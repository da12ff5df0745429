-- ===== src/Confirmation/Indexer.antt =====
-- services/clients/indexer-client.ts and services/indexer-pool.ts, as far as the status of an operation
-- goes.
use Prim.Native.String
use tezos_api_gateway.Base.{
  ℕ, zero, suc, String, Bool, true, false, ◌==◌, Option, none, some, List, str_eq, if◌then◌else◌,
}
use tezos_api_gateway.Base.Int.{ℤ, pos, ◌-ℤ◌, leb_ℤ}
use tezos_api_gateway.Base.Lists.{get_elem?}
use tezos_api_gateway.Base.Decimal.{to_string}
use tezos_api_gateway.Value.{Value, undef, null, num, str, arr, obj, values, get, truthy}
use tezos_api_gateway.Exceptions.{
  Exn, Result, ok, err, ◌>>=◌, operation_not_found, operation_failed, type_error,
}
use tezos_api_gateway.SmartContracts.Format.{index}

-- const/interfaces/indexer.ts, with a position as the key to the operation. `call` is the answer of
-- `superagent.get` to the URL that `url.resolve` makes, in one attempt; an HTTP error is a
-- `client_error` with its status.
pub record IndexerClient : Type 0 where
  pub key_to_operation : ℕ
  pub key_to_block_level : String
  pub key_to_operation_status : String
  pub success_status : String
  pub path_to_operation : String
  pub call : String → Result Value

character : String → ℕ → Value
character String.[] i = undef
character (String.◌∷◌ c s) zero = str (String.◌∷◌ c "")
character (String.◌∷◌ c s) (suc i) = character s i

abbrev or_undef : Option Value → Value
or_undef none = undef
or_undef (some v) = v

-- `v[i]` for a number `i`.
unfoldable pub element : Value → ℕ → Result Value
unfolding get character
element undef i = err (type_error "Cannot read properties of undefined")
element null i = err (type_error "Cannot read properties of null")
element (arr vs) i = ok (or_undef (get_elem? (values vs) i))
element (obj fs) i = ok (or_undef (get (to_string (pos i)) fs))
element (str s) i = ok (character s i)
element _ i = ok undef

abbrev is_missing : Exn → Bool
is_missing (Exn.client_error status _) = status == 404
is_missing _ = false

-- What `catch` makes of an error: a 404 is an operation that is not found, and every other error is
-- logged by `handleError` and gives `undefined`.
abbrev not_found_or_logged : String → Exn → Result Value
not_found_or_logged hash e = if is_missing e then err (operation_not_found hash) else ok undef

-- `getOperationByHash`
unfoldable pub get_operation_by_hash : IndexerClient → String → Result Value
unfolding element
get_operation_by_hash client hash = elim (client.call (String.◌++◌ client.path_to_operation hash)) [
  | err e ↦ not_found_or_logged hash e
  | ok body ↦ elim (element body client.key_to_operation) [
    | err e ↦ not_found_or_logged hash e
    | ok operation ↦ if truthy operation then ok operation else err (operation_not_found hash)
  ]
]

-- `operation[key] !== status`
abbrev is_text : String → Value → Bool
is_text status (str s) = str_eq s status
is_text status _ = false

unfoldable pub level_of : IndexerClient → String → Value → Result Value
unfolding index
level_of client hash operation =
    if truthy operation
    then (do
      status ← index operation client.key_to_operation_status
      (if is_text client.success_status status
          then index operation client.key_to_block_level
          else err (operation_failed hash)))
    else ok undef

-- The two errors that pass through; `handleError` logs the others.
abbrev pub is_about_operation : Exn → Bool
is_about_operation (Exn.operation_not_found _) = true
is_about_operation (Exn.operation_failed _) = true
is_about_operation _ = false

-- `getOperationBlockLevel`
unfoldable pub get_operation_block_level : IndexerClient → String → Result Value
unfolding get_operation_by_hash level_of
get_operation_block_level client hash =
    elim (get_operation_by_hash client hash >>= level_of client hash) [
      | ok level ↦ ok level
      | err e ↦ if is_about_operation e then err e else ok undef
    ]

-- `currentBlock - level >= nbOfConfirmation`. The levels of an indexer are numbers; the others are
-- taken as NaN, which no comparison holds of.
abbrev is_deep : ℤ → ℤ → Value → Bool
is_deep current depth (num level) = leb_ℤ depth (current -ℤ level)
is_deep current depth _ = false

-- `checkIfOperationIsConfirmed`; `none` is `undefined`. `latest` is the level of the node's head.
unfoldable pub check_if_operation_is_confirmed :
    Result ℤ → IndexerClient → String → ℤ → Result (Option Bool)
check_if_operation_is_confirmed latest client hash depth = do
  level ← get_operation_block_level client hash
  (if truthy level
      then latest >>= (λ current. ok (some (is_deep current depth level)))
      else ok none)

-- `getRandomIndexer`, where `n` is what `generateRandomInt` gives.
unfoldable pub get_random_indexer : List IndexerClient → ℕ → Result IndexerClient
get_random_indexer indexers n = elim (get_elem? indexers n) [
  | none ↦ err (type_error "Cannot read properties of undefined (reading 'config')")
  | some client ↦ ok client
]

-- What the loops see while `n` tries are left: the indexers, whose answers may differ between tries, the
-- random number, and the head of the chain.
pub record Surroundings : Type 0 where
  pub indexers : ℕ → List IndexerClient
  pub random : ℕ → ℕ
  pub latest : ℕ → Result ℤ

-- `checkIfOperationIsConfirmedByRandomIndexer`: the retries are the fuel of the source's own loop.
module _ (around : Surroundings) (hash : String) (depth : ℤ) where
  unfoldable pub attempt : ℕ → Result (Option Bool)
  unfolding get_random_indexer
  attempt n = do
    client ← get_random_indexer (around.indexers n) (around.random n)
    check_if_operation_is_confirmed (around.latest n) client hash depth

  unfoldable pub check_by_random_indexer : ℕ → Result (Option Bool)
  check_by_random_indexer zero = ok none
  check_by_random_indexer (suc n) =
      let rest = check_by_random_indexer n in
      elim (attempt (suc n)) [
        | err e ↦ err e
        | ok none ↦ rest
        | ok (some confirmed) ↦ ok (some confirmed)
      ]
