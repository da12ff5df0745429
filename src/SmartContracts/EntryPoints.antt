-- ===== src/SmartContracts/EntryPoints.antt =====
-- lib/entrypoints/get-entrypoint-schema.ts: the schemas of the entry points of a contract.
use tezos_api_gateway.Base.{
  String, Bool, true, false, Option, none, some, List, [], ◌∷◌, str_eq, if◌then◌else◌,
}
use tezos_api_gateway.Value.{Value, undef, Fields, get, keys}
use tezos_api_gateway.Exceptions.{invalid_entry_point, Result, ok, err, ◌>>=◌, traverse}

-- What Taquito knows of a contract: `ExtractSchema()` of its parameter, and its entry points in Michelson.
pub record ContractSchema : Type 0 where
  pub schema : Fields
  pub michelson : String → Value

pub record EntryPointSchema : Type 0 where
  pub entry_point : String
  pub schema : Value
  pub michelson : Value

pub record SchemaAnswer : Type 0 where
  pub schemas : List EntryPointSchema
  pub contract_entry_points_list : List String

abbrev or_undefined : Option Value → Value
or_undefined none = undef
or_undefined (some v) = v

-- `entryPointList.includes(entryPoint)`
unfoldable pub includes_name : List String → String → Bool
includes_name [] name = false
includes_name (n ∷ names) name =
    let later = includes_name names name in if str_eq n name then true else later

-- `_.isEmpty(entryPoints) ? entryPointList : entryPoints`
abbrev pub requested : Option (List String) → List String → List String
requested none all = all
requested (some []) all = all
requested (some (n ∷ ns)) all = n ∷ ns

module _ (contract_of : Bool → String → Result ContractSchema) where
  unfoldable pub entry_point_schema : ContractSchema → String → Result EntryPointSchema
  unfolding includes_name get
  entry_point_schema contract name =
      if includes_name (keys contract.schema) name
      then ok (record {
        entry_point = name;
        schema = or_undefined (get name contract.schema);
        michelson = contract.michelson name;
      })
      else err (invalid_entry_point (keys contract.schema) name)

  -- `getEntryPointSchemaFromTezosNode`
  unfoldable pub get_entry_point_schema : String → Bool → Option (List String) → Result SchemaAnswer
  unfolding entry_point_schema traverse
  get_entry_point_schema address use_cache names = do
    contract ← contract_of use_cache address
    let all = keys contract.schema in
        traverse (entry_point_schema contract) (requested names all) >>= λ schemas.
        ok (record { schemas = schemas; contract_entry_points_list = all })
