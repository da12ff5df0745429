-- ===== src/Vault.antt =====
-- services/clients/vault-client.ts: the requests to the vault of keys and secrets, and what becomes of their
-- answers.
pub mod Users
pub mod Saved
use Prim.Native.String
use tezos_api_gateway.Base.{
  ℕ, zero, suc, String, Bool, true, false, ◌&&◌, not, Option, none, some, List, [], ◌∷◌, ◌++◌, ltb,
  leb, ◌==◌, if◌then◌else◌,
}
use tezos_api_gateway.Value.{Value, undef, null, str, obj, Values, nil, cons, Fields, end, field}
use tezos_api_gateway.Exceptions.{
  Exn, client_error, type_error, other_error, Result, ok, err, message,
}
use tezos_api_gateway.SmartContracts.Format.{index}

pub data Verb : Type 0 where
  post read list delete : Verb

-- A request by its verb, its path below the base URL and its body. The token stands in each.
pub record Request : Type 0 where
  pub verb : Verb
  pub path : String
  pub body : Value

-- A failure of Superagent: `err.status`, the body of the response if there is one, and the message.
pub record HttpFailure : Type 0 where
  pub status : Option ℕ
  pub response : Option Value
  pub message : String

pub data Answer : Type 0 where
  replied : Value → Answer
  failed : HttpFailure → Answer

abbrev pub History : Type 0
History = List (Request × Answer)

-- The vault answers by what it was asked before. `json_text` is `JSON.stringify` of a body that may be
-- missing.
pub record VaultServer : Type 0 where
  pub answers : History → Request → Answer
  pub json_text : Option Value → String

-- What the client has thrown inside its `try`: a failure of the request, or an exception of its own.
pub data Thrown : Type 0 where
  http : HttpFailure → Thrown
  exception : Exn → Thrown

abbrev pub Outcome : Type 0 → Type 0
Outcome A = Result A × History

-- `${a}/${b}`
infixr 40 ◌slash◌
abbrev pub ◌slash◌ : String → String → String
a slash b = String.◌++◌ a (String.◌++◌ "/" b)

abbrev pub own_status : Thrown → Option ℕ
own_status (http failure) = failure.status
own_status (exception e) = none

abbrev is_client : Option ℕ → Bool
is_client none = false
is_client (some n) = leb 400 n && ltb n 500

abbrev is_not_found : Option ℕ → Bool
is_not_found none = false
is_not_found (some n) = n == 404

abbrev status_or_zero : Option ℕ → ℕ
status_or_zero none = 0
status_or_zero (some n) = n

abbrev response_of : Thrown → Option Value
response_of (http failure) = failure.response
response_of (exception e) = none

abbrev thrown_message : Thrown → String
thrown_message (http failure) = failure.message
thrown_message (exception e) = message e

-- `throw err`
abbrev rethrown : Thrown → Exn
rethrown (http failure) = other_error failure.message
rethrown (exception e) = e

abbrev pub read_reply : {A : Type 0} → (Value → Result A) → Value → (Thrown → Result A) → Result A
read_reply use_body body caught = elim (use_body body) [
  | ok a ↦ ok a
  | err e ↦ caught (exception e)
]

abbrev pub settle : {A : Type 0} → Answer → (Value → Result A) → (Thrown → Result A) → Result A
settle (replied body) use_body caught = read_reply use_body body caught
settle (failed failure) use_body caught = caught (http failure)

-- `text.substring(n)`
unfoldable pub substring : ℕ → String → String
substring zero s = s
substring (suc n) String.[] = String.[]
substring (suc n) (String.◌∷◌ c s) = substring n s

abbrev last_value : Fields → Value
last_value end = undef
last_value (field k v end) = v
last_value (field k v (field j u fs)) = last_value (field j u fs)

infixl 5 ◌then◌
abbrev ◌then◌ : {A B : Type 0} → Result A → (A → Result B) → Result B
r then f = elim r [ ok a ↦ f a | err e ↦ err e ]

-- `result.data!.data![name]`, and `(result.data.signature as string).substring(9)`.
unfoldable pub secret_in : String → Value → Result Value
unfolding index
secret_in name body = index body "data" then λ d. index d "data" then λ inner. index inner name

abbrev as_text : Value → Result String
as_text (str s) = ok s
as_text _ = err (type_error "signature.substring is not a function")

unfoldable pub signature_in : Value → Result String
unfolding index substring
signature_in body =
    index body "data" then λ d. index d "signature" then λ v. as_text v then λ s. ok (substring 9 s)

abbrev last_of : Value → Result Value
last_of (obj fs) = ok (last_value fs)
last_of null = err (type_error "Cannot convert undefined or null to object")
last_of _ = ok undef

-- `public_key` of the last of `Object.values(result.data.keys)`.
unfoldable pub public_key_in : Value → Result Value
unfolding index
public_key_in body = index body "data" then λ d.
    index d "keys" then λ ks. last_of ks then λ last. index last "public_key"

-- A text, or `undefined`.
abbrev pub text_of_secret : Value → Option String
text_of_secret (str s) = some s
text_of_secret _ = none

module _ (server : VaultServer) where
  -- `try { … } catch (err) { … }` around one request.
  unfoldable pub ask :
      {A : Type 0} → Request → (Value → Result A) → (Thrown → Result A) → History → Outcome A
  ask request use_body caught history =
      let answer = server.answers history request in
      (settle answer use_body caught, history ++ (request, answer) ∷ [])

  -- The error of a client, from 400 up to 499; otherwise what the `catch` block does then.
  unfoldable pub on_client_error : {A : Type 0} → (Thrown → Result A) → Thrown → Result A
  on_client_error otherwise thrown =
      if is_client (own_status thrown)
      then err (
          client_error (status_or_zero (own_status thrown)) (server.json_text (response_of thrown)))
      else otherwise thrown

  abbrev nothing : {A : Type 0} → A → Thrown → Result A
  nothing a thrown = ok a

  abbrev again : {A : Type 0} → Thrown → Result A
  again thrown = err (rethrown thrown)

  -- `createKey`
  unfoldable pub create_key : String → History → Outcome (Unit {0})
  unfolding ask on_client_error
  create_key key =
      ask
        (record {
          verb = post;
          path = "transit/keys" slash key;
          body = obj (field "type" (str "ed25519") end);
        })
        (λ body. ok tt) (on_client_error (nothing tt))

  -- `saveSecret`
  unfoldable pub save_secret : String → String → String → History → Outcome (Unit {0})
  unfolding ask on_client_error
  save_secret path key value =
      ask
        (record {
          verb = post;
          path = "secret/data" slash path slash key;
          body = obj (field "data" (obj (field "userId" (str value) end)) end);
        })
        (λ body. ok tt) (on_client_error (nothing tt))

  -- `sign`
  unfoldable pub sign : String → String → History → Outcome (Option String)
  unfolding ask signature_in
  sign forged_operation_hash key =
      ask
        (record {
          verb = post;
          path = "transit/sign" slash key;
          body = obj (field "input" (str forged_operation_hash) end);
        })
        (λ body. signature_in body then λ s. ok (some s)) (nothing none)

  -- `getSecret`
  unfoldable pub get_secret : String → String → String → History → Outcome (Option String)
  unfolding ask secret_in
  get_secret path key name =
      ask (record { verb = read; path = "secret/data" slash path slash key; body = undef })
        (λ body. secret_in name body then λ v. ok (text_of_secret v))
        λ thrown.
          if is_not_found (own_status thrown)
          then err (
              client_error 404
                (String.◌++◌ "Not found : secret " (String.◌++◌ key " doesn't exist in Vault")))
          else if is_client (own_status thrown)
          then err (client_error (status_or_zero (own_status thrown)) (thrown_message thrown))
          else ok none

  -- `getPublicKey`
  unfoldable pub get_public_key : String → History → Outcome (Option String)
  unfolding ask public_key_in on_client_error
  get_public_key key =
      ask (record { verb = read; path = "transit/keys" slash key; body = undef })
        (λ body. public_key_in body then λ v. ok (text_of_secret v))
        (on_client_error (nothing none))

  -- `setSecret`
  unfoldable pub set_secret : String → String → String → String → History → Outcome (Unit {0})
  unfolding ask on_client_error
  set_secret path ref key value =
      ask
        (record {
          verb = post;
          path = "secret/data" slash path slash ref;
          body = obj (field "data" (obj (field key (str value) end)) end);
        })
        (λ body. index body "data" then λ d. ok tt) (on_client_error (nothing tt))

  -- `getSecretMetadataList`
  unfoldable pub get_secret_metadata_list : String → History → Outcome Value
  unfolding ask on_client_error
  get_secret_metadata_list path =
      ask (record { verb = list; path = "secret/metadata" slash path; body = undef })
        (λ body. index body "data" then λ d. index d "keys") (on_client_error again)

  -- `getAllTransitNames`
  unfoldable pub get_all_transit_names : History → Outcome Value
  unfolding ask on_client_error
  get_all_transit_names =
      ask (record { verb = list; path = "transit/keys"; body = undef })
        (λ body. index body "data" then λ d. index d "keys") (on_client_error again)

  -- `getTransitByName`
  unfoldable pub get_transit_by_name : String → History → Outcome Value
  unfolding ask on_client_error
  get_transit_by_name name =
      ask (record { verb = read; path = "transit/keys" slash name; body = undef })
        (λ body. index body "data")
        λ thrown.
          if is_not_found (own_status thrown)
          then err (
              client_error 404
                (String.◌++◌ "Not found : " (String.◌++◌ name " doesn't exist in Vault")))
          else on_client_error again thrown

  -- `rotateKeys`
  unfoldable pub rotate_keys : String → History → Outcome (Unit {0})
  unfolding ask on_client_error
  rotate_keys name =
      ask (record { verb = post; path = "transit/keys" slash name slash "rotate"; body = undef })
        (λ body. ok tt) (on_client_error (nothing tt))

  -- `deleteSecret`
  unfoldable pub delete_secret : String → String → History → Outcome (Unit {0})
  unfolding ask on_client_error
  delete_secret path ref =
      ask (record { verb = delete; path = "secret/metadata" slash path slash ref; body = undef })
        (λ body. index body "data" then λ d. ok tt) (on_client_error (nothing tt))
