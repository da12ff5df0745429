-- ===== src/SmartContracts/Order.antt =====
-- The arguments of an entry point outside a list: their order, and what a map entry keeps of them.
use tezos_api_gateway.Base.{
  String, ◌≡◌, refl, ◌≢◌, Bool, Bool-cases, false, none, some, List, [], ◌∷◌, arith, inl, inr,
  Option-cases, str_eq,
}
use mathlib.Core.Option
use tezos_api_gateway.Base.Lists.{All}
use tezos_api_gateway.Value.{Value, obj, Fields, keys, get}
use tezos_api_gateway.Exceptions.{ok, >>=-ext, >>=-returns}
use tezos_api_gateway.SmartContracts.Token.{Kind, pair, token, Tokens, find_child}
use tezos_api_gateway.SmartContracts.Format.{
  ChildFormat, own_property, format_argument, format_arguments, format_record_parameter,
  object_keys, format_entry_point_parameters, child_format, unless_primitive, index,
}

-- Two objects with the same property for each name.
abbrev pub SameProperties : Fields → Fields → Type 0
SameProperties fs gs = (name : String) → get name fs ≡ get name gs

module _ (child : ChildFormat) (fs gs : Fields) (same : SameProperties fs gs) where
  own_property-same : (name : String) → own_property (obj fs) name ≡ own_property (obj gs) name
  unfolding own_property
  own_property-same name = ground (arith, same name)

  format_arguments-same :
      (schema : Value) (names : List String)
      → format_arguments child (obj fs) schema names ≡ format_arguments child (obj gs) schema names
  unfolding format_arguments
  format_arguments-same schema [] = refl
  format_arguments-same schema (name ∷ names) =
      simp (own_property-same name, format_arguments-same schema names)

  format_record_parameter-same :
      (schema : Value)
      → format_record_parameter child (obj fs) false schema
        ≡ format_record_parameter child (obj gs) false schema
  unfolding format_record_parameter
  format_record_parameter-same schema =
      >>=-ext (object_keys schema) _ _ (format_arguments-same schema)

-- Outside a list the arguments made of a record do not depend on the order in which its fields are
-- written.
pub record_order :
    (annot text : String) (args : Tokens) (fs gs : Fields) (schema : Value)
    → SameProperties fs gs
    → format_entry_point_parameters (token pair annot text args) (obj fs) false schema
      ≡ format_entry_point_parameters (token pair annot text args) (obj gs) false schema
unfolding format_entry_point_parameters unless_primitive
record_order annot text args fs gs schema same = format_record_parameter-same _ fs gs same schema

module _ (child : ChildFormat) (fs : Fields) where
  own_property-present :
      (name : String) (v : Value) → own_property (obj fs) name ≡ ok v → get name fs ≡ some v
  unfolding own_property
  own_property-present name v e = ground arith

  format_arguments-present :
      (schema : Value) (names : List String) (vs : List Value)
      → format_arguments child (obj fs) schema names ≡ ok vs
      → All (λ name. get name fs ≢ none) names
  unfolding format_arguments
  format_arguments-present schema [] vs e = tt
  format_arguments-present schema (name ∷ names) vs e =
      let (v, present, e₁) = >>=-returns _ _ (own_property (obj fs) name) e in
      let (inner, _, e₂) = >>=-returns _ _ (index schema name) e₁ in
      let (here, _, e₃) = >>=-returns _ _ (format_argument (child name) v inner) e₂ in
      let (rest, later, _) = >>=-returns _ _ (format_arguments child (obj fs) schema names) e₃ in
      (cc (own_property-present name v present), format_arguments-present schema names rest later)

-- Outside a list a record is accepted only if it has every field of the schema.
pub record_complete :
    (annot text : String) (args : Tokens) (fs schema : Fields) (vs : List Value)
    → format_entry_point_parameters (token pair annot text args) (obj fs) false (obj schema) ≡ ok vs
    → All (λ name. get name fs ≢ none) (keys schema)
unfolding format_entry_point_parameters unless_primitive format_record_parameter object_keys
record_complete annot text args fs schema vs e =
    format_arguments-present _ fs (obj schema) (keys schema) vs e

-- `child_format` is the formatter of the token that `findChildTokenByAnnotation` finds.
child_format-find_child :
    (name : String) (wanted : Kind → Bool) (args : Tokens)
    → child_format name wanted args
      ≡ Option.map format_entry_point_parameters (find_child name wanted args)
unfolding format_entry_point_parameters find_child
child_format-find_child name wanted Tokens.nil = refl
child_format-find_child name wanted (Tokens.cons (token kind annot text args) rest) =
    elim (Bool-cases (str_eq annot name)) [
      | inl hit ↦ ground arith
      | inr miss ↦ elim (Bool-cases (wanted kind)) [
        | inl inside ↦
            let below = child_format-find_child name wanted args in
            let after = child_format-find_child name wanted rest in
            elim (Option-cases (find_child name wanted args)) [
              | inl no_child ↦ ground (arith, below, after)
              | inr (t, found) ↦ ground (arith, below)
            ]
        | inr outside ↦ ground (arith, child_format-find_child name wanted rest)
      ]
    ]
