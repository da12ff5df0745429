-- ===== src/Confirmation/Queries.antt =====
-- services/clients/indexer-client.ts and services/indexer-pool.ts: the queries on transactions, token
-- balances and events, and the block level of an operation.
use Prim.Native.String
use tezos_api_gateway.Base.{
  ℕ, zero, suc, String, Option, none, some, str_eq, is_empty, if◌then◌else◌,
}
use tezos_api_gateway.Base.Int.{pos}
use tezos_api_gateway.Base.Decimal.{to_string}
use tezos_api_gateway.Value.{
  Value, undef, null, num, str, arr, obj, Values, nil, cons, field, end, truthy,
}
use tezos_api_gateway.Exceptions.{Exn, unsupported_indexer, Result, ok, err, ◌>>=◌}
use tezos_api_gateway.SmartContracts.Format.{index}
use tezos_api_gateway.Confirmation.Indexer.{
  IndexerClient, Surroundings, get_operation_by_hash, get_operation_block_level, get_random_indexer,
}

infixr 66 ◌&◌
abbrev ◌&◌ : String → String → String
s & t = String.◌++◌ s t

-- `params.limit || other`
abbrev or_number : Option ℕ → ℕ → String
or_number none other = to_string (pos other)
or_number (some zero) other = to_string (pos other)
or_number (some (suc n)) other = to_string (pos (suc n))

-- `text ? `${before}${text}${after}` : ''`
abbrev if_text : Option String → String → String → String
if_text none before past = ""
if_text (some s) before past = if is_empty s then "" else before & s & past

abbrev if_number : Option ℕ → String → String
if_number none before = ""
if_number (some zero) before = ""
if_number (some (suc n)) before = before & to_string (pos (suc n))

pub record Query : Type 0 where
  pub domain_and_path : String
  pub query_params : String

-- const/interfaces/contract/contract-transactions-params.ts
pub record ContractTransactionsParams : Type 0 where
  pub order : Option String
  pub entrypoint : Option String
  pub limit : Option ℕ
  pub offset : Option ℕ
  pub parameter : Option String

-- const/interfaces/user/token-balance/get-user-token-balance-params.ts
pub record TokenBalanceParams : Type 0 where
  pub contract : Option String
  pub order : Option String
  pub standard : Option String
  pub token_id : Option ℕ
  pub balance : Option ℕ
  pub limit : Option ℕ
  pub offset : Option ℕ

-- const/interfaces/contract/events/get-events-query-params.ts
pub record GetEventsQueryParams : Type 0 where
  pub contract : Option String
  pub order : Option String
  pub tag : Option String
  pub block_level : Option ℕ
  pub operation_hash : Option String
  pub limit : Option ℕ
  pub offset : Option ℕ

-- The rest of the configuration of an indexer (const/interfaces/indexer.ts).
pub record QueryPaths : Type 0 where
  pub name : String
  pub api_url : String
  pub path_to_contract_calls : String
  pub path_to_token_balance : String
  pub path_to_events : String

module _ (config : QueryPaths) where
  -- `buildURLForTransactionList`
  unfoldable pub build_url_for_transaction_list : String → ContractTransactionsParams → Result Query
  build_url_for_transaction_list address params =
      if str_eq config.name "tzkt"
      then ok (record {
        domain_and_path = config.api_url & config.path_to_contract_calls;
        query_params =
            "limit="
            & or_number params.limit 20
            & "&offset="
            & or_number params.offset 0
            & "&target.eq="
            & address
            & if_text params.order "&sort." "=id"
            & if_text params.entrypoint "&entrypoint.eq=" ""
            & if_text params.parameter "&parameter.as=" "";
      })
      else err (unsupported_indexer config.name)

  -- `buildURLForTokenBalance`
  unfoldable pub build_url_for_token_balance : String → TokenBalanceParams → Query
  build_url_for_token_balance account params = record {
    domain_and_path = config.api_url & config.path_to_token_balance;
    query_params =
        "account.eq="
        & account
        & "&limit="
        & or_number params.limit 20
        & "&offset="
        & or_number params.offset 0
        & if_text params.order "&sort." "=id"
        & if_number params.token_id "&token.tokenId.eq="
        & if_text params.contract "&token.contract.eq=" ""
        & if_text params.standard "&token.standard.eq=" ""
        & if_number params.balance "&balance.eq=";
  }

  -- `transactionId ? … : ''`
  abbrev if_id : Value → String
  if_id (num (pos (suc n))) = "&transactionId.eq=" & to_string (pos (suc n))
  if_id (str s) = if_text (some s) "&transactionId.eq=" ""
  if_id v = ""

  -- `buildURLForContractEvents`
  unfoldable pub build_url_for_contract_events : GetEventsQueryParams → Value → Query
  build_url_for_contract_events params transaction_id = record {
    domain_and_path = config.api_url & config.path_to_events;
    query_params =
        "limit="
        & or_number params.limit 20
        & "&offset="
        & or_number params.offset 0
        & if_text params.order "&sort." "=id"
        & if_number params.block_level "&level.eq="
        & if_text params.contract "&contract.eq=" ""
        & if_text params.tag "&tag.eq=" ""
        & if_id transaction_id;
  }

-- `v?.[k]`
abbrev maybe_index : Value → String → Result Value
maybe_index undef k = ok undef
maybe_index null k = ok undef
maybe_index v k = index v k

-- `mapTzktContractEvents`
unfoldable pub map_tzkt_contract_events : Value → Result Value
unfolding index
map_tzkt_contract_events event = do
  contract ← index event "contract"
  address ← maybe_index contract "address"
  tag ← index event "tag"
  payload ← index event "payload"
  timestamp ← index event "timestamp"
  ok (
      obj (
        field "indexer" (str "tzkt") (
          field "contract" address
            (field "tag" tag (field "payload" payload (field "timestamp" timestamp end))))))

abbrev both : Result Value → Result Values → Result Values
both (err e) _ = err e
both (ok v) (err e) = err e
both (ok v) (ok vs) = ok (cons v vs)

unfoldable pub map_events : Values → Result Values
unfolding map_tzkt_contract_events
map_events nil = ok nil
map_events (cons v vs) = both (map_tzkt_contract_events v) (map_events vs)

-- `result.map(…)`, and an empty list where that fails.
abbrev events_in : Result Value → Values
events_in (ok (arr vs)) = elim (map_events vs) [ ok events ↦ events | err e ↦ nil ]
events_in _ = nil

-- The operation by which the events are selected: `none` where it does not exist, `undefined` where none
-- is named or the indexer does not answer.
unfoldable pub operation_of : IndexerClient → Option String → Option Value
unfolding get_operation_by_hash
operation_of client none = some undef
operation_of client (some hash) =
    if is_empty hash then some undef else elim (get_operation_by_hash client hash) [
      | ok operation ↦ some operation
      | err (Exn.operation_not_found h) ↦ none
      | err e ↦ some undef
    ]

-- `operation?.id`
abbrev id_in : Value → Value
id_in v = elim (maybe_index v "id") [ ok id ↦ id | err e ↦ undef ]

-- `getContractEvents`, where `call` is the query on the indexer.
unfoldable pub get_contract_events :
    IndexerClient → QueryPaths → (Query → Result Value) → GetEventsQueryParams → Values
unfolding operation_of build_url_for_contract_events map_events
get_contract_events client config call params = elim (operation_of client params.operation_hash) [
  | none ↦ nil
  | some operation ↦
      events_in (call (build_url_for_contract_events config params (id_in operation)))
]

-- `getOperationBlockLevelByRandomIndexer`: the retries are the fuel of the source's own loop.
module _ (around : Surroundings) (hash : String) where
  unfoldable pub level_by : ℕ → Result Value
  unfolding get_random_indexer get_operation_block_level
  level_by n = do
    client ← get_random_indexer (around.indexers n) (around.random n)
    get_operation_block_level client hash

  unfoldable pub get_operation_block_level_by_random_indexer : ℕ → Result Value
  unfolding level_by
  get_operation_block_level_by_random_indexer zero = ok undef
  get_operation_block_level_by_random_indexer (suc n) =
      let rest = get_operation_block_level_by_random_indexer n in
      elim (level_by (suc n)) [ err e ↦ err e | ok level ↦ if truthy level then ok level else rest ]
