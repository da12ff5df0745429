-- ===== src/Tests/Storing.antt =====
-- Tests of lib/storage/ and of lib/user/.
use tezos_api_gateway.Base.{
  ℕ, zero, suc, ◌≡◌, ◌⊎◌, ◌≤◌, ◌<◌, ◌+◌, refl, true, false, Option, none, some, [], ◌∷◌, ◌++◌,
  arith, str_eq, if◌then◌else◌,
}
use tezos_api_gateway.Base.Int.{pos}
use tezos_api_gateway.Value.{Value, undef, num, str, obj, field, end, Fields, keys, big_number, get}
use tezos_api_gateway.Exceptions.{Exn, Result, ok, err, client_error}
use tezos_api_gateway.SmartContracts.Format.{index}
use tezos_api_gateway.Storage.Attempts.{is_bad_gateway, try_get_from_map, try_get_from_map-bound}
use tezos_api_gateway.Storage.Response.{generate_storage_response}
use tezos_api_gateway.Storage.Requested.{Libraries, convert_storage}
use tezos_api_gateway.Storage.Whole.{names_of, convert_storage-names}
use tezos_api_gateway.Vault.{VaultServer, Answer, replied, failed, read}
use tezos_api_gateway.Vault.Users.{CreateUserResult, save_user, get_user_by_address}
use tezos_api_gateway.Vault.Saved.{stored, KeepsSecrets, get_user_by_address-save_user}

abbrev status : Exn → Option ℕ
status (client_error n m) = some n
status e = none

-- Two answers of 502, and then a value.
abbrev flaky : ℕ → Result Value
flaky zero = err (client_error 502 "Bad Gateway")
flaky (suc zero) = err (client_error 502 "Bad Gateway")
flaky n = ok (num (pos 7))

try_get_from_map-bound_example :
    (last : ℕ) × ((try_get_from_map status flaky 3 0).1 ≡ last + 1)
    × (last ≤ 3)
    × ((try_get_from_map status flaky 3 0).0 ≡ flaky (0 + last))
    × ((i : ℕ) → i < last → is_bad_gateway status (flaky (0 + i)) ≡ true)
    × ((last ≡ 3) ⊎ (is_bad_gateway status (flaky (0 + last)) ≡ false))
try_get_from_map-bound_example = try_get_from_map-bound status flaky 3 0

abbrev storage : Fields
storage = field "admin" (str "tz1alice") (field "supply" (big_number (pos 100)) end)

abbrev libraries : Libraries
libraries = record {
  has = λ v name. true;
  path = λ v name. if str_eq name "admin" then str "tz1alice" else big_number (pos 100);
  lookup = λ es key. undef;
  ask = λ text key n. ok undef;
  status = status;
  instance_response = λ v. ok (obj end);
}

convert_storage-names_example :
    convert_storage libraries (names_of (keys storage)) (obj storage)
    ≡ generate_storage_response libraries.instance_response (obj storage)
convert_storage-names_example =
    convert_storage-names libraries storage (refl, (refl, tt))
      (refl, refl, refl, (refl, refl, refl, tt))

-- A vault that answers with what is stored.
abbrev answer_for : Option Value → Answer
answer_for none = failed (record { status = some 404; response = none; message = "Not Found" })
answer_for (some v) = replied (obj (field "data" v end))

abbrev server : VaultServer
server = record {
  answers = λ h request. elim request.verb [
    | read ↦ answer_for (stored request.path none h)
    | _ ↦ replied (obj end)
  ];
  json_text = λ body. "";
}

server-KeepsSecrets : KeepsSecrets server
unfolding index get
server-KeepsSecrets h path v e = (obj (field "data" v end), v, ground (arith, e), refl, refl)

abbrev alice : CreateUserResult
alice = record { user_id = "alice"; account = "tz1alice" }

get_user_by_address-save_user_example :
    ((save_user server (λ key. key) alice []).0 ≡ ok tt)
    × ((get_user_by_address server
          (λ key. key)
          ("tz1alice" ∷ [])
          ((save_user server (λ key. key) alice []).1 ++ [])).0
        ≡ ok (record { user_id = some "alice"; account = some "tz1alice" } ∷ []))
get_user_by_address-save_user_example =
    get_user_by_address-save_user server (λ key. key) alice [] [] (obj end) server-KeepsSecrets refl
      refl tt
