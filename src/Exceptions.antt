-- ===== src/Exceptions.antt =====
-- The exceptions that the gateway throws or catches, by class (const/errors/ and those of Taquito
-- and of Node), and synchronous code that may throw.
use tezos_api_gateway.Base.{ℕ, String, ◌≡◌, refl, Bool, true, false, List, [], ◌∷◌, ◌⊎◌, inl, inr}
use Prim.Native.String
use tezos_api_gateway.Base.{arith}
use tezos_api_gateway.Base.Lists.{length}
use tezos_api_gateway.Base.Int.{pos}
use tezos_api_gateway.Base.Decimal.{to_string}
use tezos_api_gateway.Value.{
  Value, undef, null, bool, num, str, arr, obj, michelson_map, big_map, big_number, Values, nil,
  cons,
}

pub data Exn : Type 0 where
  job_id_not_found : String → Exn
  preapply_failure : String → Exn
  tezos_operation_error : String → Exn
  operation_not_found operation_failed : String → Exn
  address_not_found address_not_revealed address_already_revealed : String → Exn
  reveal_estimate_error : String → String → Exn
  max_operations_per_batch public_key_undefined missing_message_validation_schema : Exn
  invalid_map_structure_params : Exn
  invalid_parameter_name missing_parameter : String → Exn
  unsupported_parameter_schema : String → Exn
  invalid_boolean_parameter : Value → Exn
  invalid_variant_object : ℕ → Exn
  invalid_parameter : String → String → Exn
  validation_error : String → Exn
  undefined_public_key undefined_user_id unsupported_indexer : String → Exn
  invalid_entry_point : List String → String → Exn
  client_error : ℕ → String → Exn
  type_error : String → Exn
  database_error : String → Exn
  other_error : String → Exn

pub data Result {ℓ} (A : Type ℓ) : Type ℓ where
  ok : A → Result A
  err : Exn → Result A

-- A statement that may throw, and the rest of its block.
infixl 5 ◌>>=◌
abbrev pub ◌>>=◌ {ℓ κ} : {A : Type ℓ} {B : Type κ} → Result A → (A → Result B) → Result B
r >>= rest = elim r [ err thrown ↦ err thrown | ok value ↦ rest value ]

infixl 5 ◌>>◌
abbrev pub ◌>>◌ {ℓ κ} : {A : Type ℓ} {B : Type κ} → Result A → Result B → Result B
r >> rest = r >>= λ _. rest

-- A block that returns: its first statement does, and so does the rest.
module _ {ℓ κ} {A : Type ℓ} {B : Type κ} (rest : A → Result B) (y : B) where
  pub >>=-returns : (r : Result A) → (r >>= rest) ≡ ok y → (x : A) × (r ≡ ok x) × (rest x ≡ ok y)
  >>=-returns (err thrown) e = cc
  >>=-returns (ok x) e = (x, refl, e)

-- Two continuations that agree.
pub >>=-ext {ℓ κ} :
    {A : Type ℓ} {B : Type κ} (m : Result A) (f g : A → Result B)
    → ((a : A) → f a ≡ g a)
    → (m >>= f) ≡ (m >>= g)
>>=-ext (ok a) f g h = h a
>>=-ext (err e) f g h = refl

pub Result-cases {ℓ} :
    {A : Type ℓ} (r : Result A) → ((a : A) × (r ≡ ok a)) ⊎ ((e : Exn) × (r ≡ err e))
Result-cases (ok a) = inl (a, refl)
Result-cases (err e) = inr (e, refl)

-- `xs.map(f)` with a function that may throw.
module _ {ℓ κ} {A : Type ℓ} {B : Type κ} where
  unfoldable pub traverse : (A → Result B) → List A → Result (List B)
  traverse f [] = ok []
  traverse f (x ∷ xs) = do y ← f x; ys ← traverse f xs; ok (y ∷ ys)

  pub length-traverse :
      (f : A → Result B) (xs : List A) (ys : List B) → traverse f xs ≡ ok ys → length ys ≡ length xs
  unfolding traverse
  length-traverse f [] ys e = ground arith
  length-traverse f (x ∷ xs) ys e = elim (Result-cases (traverse f xs)) [
    | inl (zs, done) ↦ ground (arith, length-traverse f xs zs done)
    | inr (x', failed) ↦ ground arith
  ]

-- `err instanceof JobIdNotFoundError`, and likewise for two other classes.
abbrev pub is_job_id_not_found : Exn → Bool
is_job_id_not_found (job_id_not_found _) = true
is_job_id_not_found _ = false

abbrev pub is_tezos_operation_error : Exn → Bool
is_tezos_operation_error (tezos_operation_error _) = true
is_tezos_operation_error _ = false

abbrev pub is_client_error : Exn → Bool
is_client_error (client_error _ _) = true
is_client_error _ = false

-- An item of a joined array, by its text: `null` and `undefined` leave nothing.
abbrev item : Value → String → String
item undef _ = ""
item null _ = ""
item _ s = s

mutual
  -- `String(v)`
  text_of_value : Value → String
  text_of_value undef = "undefined"
  text_of_value null = "null"
  text_of_value (bool true) = "true"
  text_of_value (bool false) = "false"
  text_of_value (num z) = to_string z
  text_of_value (str s) = s
  text_of_value (arr vs) = text_of_values vs
  text_of_value (obj fs) = "[object Object]"
  text_of_value (michelson_map es) = "[object Object]"
  text_of_value (big_map s) = s
  text_of_value (big_number z) = to_string z

  text_of_values : Values → String
  text_of_values nil = ""
  text_of_values (cons v nil) = item v (text_of_value v)
  text_of_values (cons v (cons w vs)) =
      String.◌++◌ (item v (text_of_value v)) (String.◌++◌ "," (text_of_values (cons w vs)))

infixr 66 ◌&◌
abbrev ◌&◌ : String → String → String
s & t = String.◌++◌ s t

-- `${names}` of a list of texts
abbrev commas : List String → String
commas [] = ""
commas (n ∷ []) = n
commas (n ∷ m ∷ names) = n & "," & commas (m ∷ names)

-- `err.message`
unfoldable pub message : Exn → String
unfolding text_of_value to_string
message (job_id_not_found m) = m
message (preapply_failure m) = m
message (tezos_operation_error m) = m
message (operation_not_found hash) = "Could not find an operation with this hash: " & hash
message (operation_failed hash) = "The operation \"" & hash & "\" failed"
message (address_not_found address) = "Could not find the adress: " & address
message (address_not_revealed address) = "Address " & address & " is not revealed"
message (address_already_revealed address) = "Address " & address & " is already revealed"
message (reveal_estimate_error address key) =
    "Ensure that the address " & address & " is activated and is related to the public key " & key
message max_operations_per_batch = "Exceeded maximum number of operations per batch authorized (5)"
message public_key_undefined = "publicKey should be defined when reveal is true"
message missing_message_validation_schema = "Missing the validation schema"
message (validation_error m) = m
message (invalid_entry_point names name) =
    "The given entryPoint "
    & name
    & " does not exist in the contract entryPoint list: "
    & commas names
message (unsupported_indexer name) = "Could not use the indexer " & name & " for this action"
message (undefined_public_key name) = "Public key regarding this key " & name & " is undefined"
message (undefined_user_id address) = "User id regarding this address " & address & " is undefined"
message invalid_map_structure_params =
    "Invalid map structure, map have to respect the type: {\"key\": <key>, \"value\": <value>}[]"
message (invalid_parameter_name name) =
    "Invalid parameter name, No child object has the name \"" & name & "\""
message (missing_parameter name) =
    "Missing parameter name, No child object has the name \"" & name & "\""
message (unsupported_parameter_schema schema) = "Unknown parameter type \"" & schema & "\""
message (invalid_boolean_parameter v) =
    "Invalid boolean parameter, expected boolean or a boolean string, but got " & text_of_value v
message (invalid_variant_object count) =
    "Invalid variant object, expected 1 item but got " & to_string (pos count)
message (invalid_parameter given expected) =
    "Invalid parameter , Expected an " & expected & ", but got an " & given
message (client_error status m) = m
message (type_error m) = m
message (database_error m) = m
message (other_error m) = m
