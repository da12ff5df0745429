-- ===== src/Value.antt =====
-- JavaScript values as far as the gateway looks into them: JSON documents, `undefined`, and the
-- objects of Taquito that it tests with `instanceof`. A `michelson_map` is the sequence of calls of
-- `MichelsonMap.set` that filled it, first call first; a `big_map` is known by its `toString()`.
-- An object is the list of its own keys in the order of `Object.keys`.
use tezos_api_gateway.Base.{String, Bool, true, false, not, Option, none, some, List, [], ◌∷◌}
use tezos_api_gateway.Base.{str_eq, is_empty, if◌then◌else◌, zero}
use tezos_api_gateway.Base.Int.{ℤ, pos}

mutual
  pub data Value : Type 0 where
    undef null : Value
    bool : Bool → Value
    num : ℤ → Value
    str : String → Value
    arr : Values → Value
    obj : Fields → Value
    michelson_map : Entries → Value
    big_map : String → Value
    big_number : ℤ → Value

  pub data Values : Type 0 where
    nil : Values
    cons : Value → Values → Values

  pub data Fields : Type 0 where
    end : Fields
    field : String → Value → Fields → Fields

  pub data Entries : Type 0 where
    unset : Entries
    entry : Value → Value → Entries → Entries

abbrev pub values : Values → List Value
values nil = []
values (cons v vs) = v ∷ values vs

abbrev pub of_values : List Value → Values
of_values [] = nil
of_values (v ∷ vs) = cons v (of_values vs)

-- `Object.keys(o)`
abbrev pub keys : Fields → List String
keys end = []
keys (field k v fs) = k ∷ keys fs

-- `o[k]`, where a missing key is `none`.
unfoldable pub get : String → Fields → Option Value
get k end = none
get k (field j v fs) = if str_eq j k then some v else get k fs

-- `v ? … : …`
abbrev pub truthy : Value → Bool
truthy undef = false
truthy null = false
truthy (bool b) = b
truthy (num (pos zero)) = false
truthy (str s) = not (is_empty s)
truthy _ = true
