-- ===== src/Vault/Saved.antt =====
-- A user that is saved in the vault, and the answer about its address later.
use tezos_api_gateway.Base.{
  String, ◌≡◌, ◌∙◌, refl, ap, Bool, true, false, Option, none, some, [], ◌∷◌, ◌++◌, arith, is_empty,
  str_eq, eq_refl, if◌then◌else◌,
}
use tezos_api_gateway.Base.Lists.{All}
use tezos_api_gateway.Value.{Value, undef, str, obj, field, end, get}
use tezos_api_gateway.Exceptions.{ok}
use tezos_api_gateway.SmartContracts.Format.{index}
use tezos_api_gateway.Vault.{
  post, read, delete, Request, Answer, replied, failed, History, VaultServer, ask, save_secret,
  get_secret, secret_in, ◌slash◌,
}
use tezos_api_gateway.Vault.Users.{CreateUserResult, each, save_user, user_of, get_user_by_address}

-- Whether a request may change what is stored at a path.
abbrev pub touches : String → Request → Bool
touches path request = elim request.verb [
  | post ↦ str_eq request.path path
  | delete ↦ true
  | _ ↦ false
]

-- The body that an accepted request has left at a path, by the requests in their order.
abbrev left_by : String → Option Value → Request × Answer → Option Value
left_by path before (request, failed f) = before
left_by path before (request, replied b) =
    if touches path request
    then (elim request.verb [ post ↦ some request.body | _ ↦ none ])
    else before

unfoldable pub stored : String → Option Value → History → Option Value
stored path before [] = before
stored path before (entry ∷ more) = stored path (left_by path before entry) more

abbrev pub secret_path : String → String
secret_path address = "secret/data" slash "accounts" slash address

-- A vault whose secrets engine gives back the data of the last accepted request for an account. Of the
-- other paths of the vault nothing is asked.
abbrev pub KeepsSecrets : VaultServer → Type 0
KeepsSecrets server =
    (h : History) (address : String) (v : Value)
    → stored (secret_path address) none h ≡ some v
    → (body held : Value) × (server.answers h
          (record { verb = read; path = secret_path address; body = undef })
        ≡ replied body)
      × (index body "data" ≡ ok held)
      × (index held "data" ≡ index v "data")

stored-append :
    (path : String) (before : Option Value) (xs ys : History)
    → stored path before (xs ++ ys) ≡ stored path (stored path before xs) ys
unfolding stored
stored-append path before [] ys = refl
stored-append path before (x ∷ xs) ys = stored-append path (left_by path before x) xs ys

abbrev pub entry_touches : String → Request × Answer → Bool
entry_touches path (request, answer) = touches path request

stored-untouched :
    (path : String) (before : Option Value) (h : History)
    → All (λ entry. entry_touches path entry ≡ false) h
    → stored path before h ≡ before
unfolding stored
stored-untouched path before [] all = refl
stored-untouched path before ((request, failed f) ∷ h) (this, rest) =
    stored-untouched path before h rest
stored-untouched path before ((request, replied b) ∷ h) (this, rest) =
    ground (arith, this, stored-untouched path before h rest)

module _ (server : VaultServer) (hash_of_key : String → String) (user : CreateUserResult)
    (h more : History) (b : Value) where
  abbrev secret_body : Value
  secret_body = obj (field "data" (obj (field "userId" (str user.user_id) end)) end)

  abbrev secret_request : Request
  secret_request = record { verb = post; path = secret_path user.account; body = secret_body }

  abbrev after_save : History
  after_save = h ++ (secret_request, replied b) ∷ []

  stored_here :
      (before : Option Value)
      → stored (secret_path user.account) before ((secret_request, replied b) ∷ [])
        ≡ some secret_body
  unfolding stored
  stored_here before = ground (arith, eq_refl (secret_path user.account))

  still_stored :
      All (λ entry. entry_touches (secret_path user.account) entry ≡ false) more
      → stored (secret_path user.account) none (after_save ++ more) ≡ some secret_body
  still_stored untouched =
      let path = secret_path user.account in
      stored-append path none after_save more
      ∙ (ap (λ v. stored path v more)
            (stored-append path none h ((secret_request, replied b) ∷ [])
              ∙ stored_here (stored path none h))
          ∙ stored-untouched path (some secret_body) more untouched)

  -- A user that was saved under its address, by a request that the vault has accepted, is the user
  -- that a later question for that address is answered with, whatever other requests were made between
  -- them, as long as none writes to its path and none deletes. The vault must keep the secrets of accounts,
  -- and the id of the user must not be empty.
  pub get_user_by_address-save_user :
      KeepsSecrets server
      → is_empty user.user_id ≡ false
      → server.answers h secret_request ≡ replied b
      → All (λ entry. entry_touches (secret_path user.account) entry ≡ false) more
      → let (saved, h₁) = save_user server hash_of_key user h in
        (saved ≡ ok tt)
        × ((get_user_by_address server hash_of_key (user.account ∷ []) (h₁ ++ more)).0
            ≡ ok (record { user_id = some user.user_id; account = some user.account } ∷ []))
  unfolding get_user_by_address each user_of get_secret save_user save_secret ask secret_in index
      get
  get_user_by_address-save_user keeps named accepted untouched =
      let (body, held, answered, outer, inner) =
        keeps (after_save ++ more) user.account secret_body (still_stored untouched) in
      (ground (arith, accepted), ground (arith, accepted, answered, outer, inner, named))
