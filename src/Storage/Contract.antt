-- ===== src/Storage/Contract.antt =====
-- lib/storage/get-contract-storage.ts and the controller of processes/web/api/storage/ that reads a
-- storage.
use tezos_api_gateway.Base.{ℕ, String, ◌&&◌, Option, none, some, leb, ltb, if◌then◌else◌}
use tezos_api_gateway.Value.{Value}
use tezos_api_gateway.Exceptions.{Exn, client_error, Result, ok, err, message, ◌>>=◌}
use tezos_api_gateway.Storage.Response.{generate_storage_response}
use tezos_api_gateway.Storage.Requested.{DataFields, Libraries, convert_storage}
use tezos_api_gateway.Web.{Reply, json, http_error, next}

-- `err.status >= 400 && err.status < 500`
abbrev pub as_client_error : Option ℕ → Exn → Exn
as_client_error none e = e
as_client_error (some n) e = if leb 400 n && ltb n 500 then client_error n (message e) else e

module _ (lib : Libraries) (get_contract : String → Result (Result Value)) where
  -- `getContractStorageFromTezosNode`. The inner result is that of `contract.storage()`: the promise is
  -- returned as it is, outside the reach of the `catch`.
  unfoldable pub get_contract_storage_from_tezos_node : String → Result Value
  unfolding message
  get_contract_storage_from_tezos_node address = elim (get_contract address) [
    | err e ↦ err (as_client_error (lib.status e) e)
    | ok storage ↦ storage
  ]

  -- `getContractStorageObjectFromTezosNode`
  unfoldable pub get_contract_storage_object_from_tezos_node :
      String → Option DataFields → Result Value
  unfolding get_contract_storage_from_tezos_node convert_storage generate_storage_response
  get_contract_storage_object_from_tezos_node address names = do
    storage ← get_contract_storage_from_tezos_node address
    elim names [
      | none ↦ generate_storage_response lib.instance_response storage
      | some fields ↦ convert_storage lib fields storage
    ]

  -- `retrieveContractStorageFromTezosNode`, where `errors_of` gives the errors of Ajv as a JSON text.
  unfoldable pub retrieve_contract_storage :
      (DataFields → Option String) → String → Option DataFields → Reply Value
  unfolding get_contract_storage_object_from_tezos_node
  retrieve_contract_storage errors_of address names =
      let answer =
        (elim (get_contract_storage_object_from_tezos_node address names) as (λ _. Reply Value) [
          | ok v ↦ json 200 v
          | err e ↦ next e
        ]) in
      elim names [
        | none ↦ answer
        | some fields ↦ elim (errors_of fields) [
          | none ↦ answer
          | some errors ↦ http_error 400 errors
        ]
      ]
