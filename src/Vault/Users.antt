-- ===== src/Vault/Users.antt =====
-- lib/user/ over the vault: creating users, and finding their accounts. The hash of a public key is the work of
-- libsodium and of Taquito, and a parameter (services/signers/vault.ts).
use tezos_api_gateway.Base.{
  String, Bool, true, false, Option, none, some, List, [], ◌∷◌, is_empty, str_eq, if◌then◌else◌,
}
use tezos_api_gateway.Value.{Value, str, arr, Values, nil, cons}
use tezos_api_gateway.Exceptions.{
  Exn, undefined_public_key, undefined_user_id, type_error, Result, ok, err, is_client_error,
}
use tezos_api_gateway.Vault.{
  VaultServer, History, Outcome, create_key, save_secret, get_secret, get_public_key,
  get_secret_metadata_list,
}

-- `Promise.all(xs.map(f))` over the vault: every request is made, and the first error is thrown.
abbrev both : {B : Type 0} → Result B → Result (List B) → Result (List B)
both (err e) _ = err e
both (ok b) (err e) = err e
both (ok b) (ok bs) = ok (b ∷ bs)

unfoldable pub each :
    {A B : Type 0} → (A → History → Outcome B) → List A → History → Outcome (List B)
each f [] h = (ok [], h)
each f (x ∷ xs) h = let (r, h₁) = f x h in let (rs, h₂) = each f xs h₁ in (both r rs, h₂)

infixl 5 ◌>>=◌
abbrev ◌>>=◌ :
    {A B : Type 0} → (History → Outcome A) → (A → History → Outcome B) → History → Outcome B
◌>>=◌ m f h = let (r, h₁) = m h in elim r [ ok a ↦ f a h₁ | err e ↦ (err e, h₁) ]

abbrev answer_with : {A : Type 0} → Result A → History → Outcome A
answer_with r h = (r, h)

-- A user and an account, each of which may be null.
pub record GetUserResult : Type 0 where
  pub user_id : Option String
  pub account : Option String

pub record CreateUserResult : Type 0 where
  pub user_id : String
  pub account : String

abbrev present : (String → Exn) → String → Option String → Result String
present missing name none = err (missing name)
present missing name (some s) = if is_empty s then err (missing name) else ok s

module _ (server : VaultServer) (hash_of_key : String → String) where
  -- `publicKeyHash` of the signer of a key
  unfoldable pub public_key_hash : String → History → Outcome String
  unfolding get_public_key
  public_key_hash name = do
    key ← get_public_key server name
    answer_with (elim (present undefined_public_key name key) as (λ _. Result String) [
      | ok k ↦ ok (hash_of_key k)
      | err e ↦ err e
    ])

  unfoldable pub create_user : String → History → Outcome CreateUserResult
  unfolding public_key_hash
  create_user user = do
    account ← public_key_hash user
    answer_with (ok (record { user_id = user; account = account }))

  unfoldable pub save_user : CreateUserResult → History → Outcome (Unit {0})
  unfolding save_secret
  save_user user = save_secret server "accounts" user.account user.user_id

  -- `createAccounts`, with `createVaultKeys` and `saveUserIdByAddresses`
  unfoldable pub create_accounts : List String → History → Outcome (List CreateUserResult)
  unfolding each create_key create_user save_user
  create_accounts users = do
    keys ← each (create_key server) users
    accounts ← each create_user users
    saved ← each save_user accounts
    answer_with (ok accounts)

  -- The `catch` around the key of a user: a `ClientError` gives no account, another error no key.
  unfoldable pub account_of : String → Result (Option String) → Result GetUserResult
  account_of user (err e) =
      if is_client_error e
      then ok (record { user_id = some user; account = none })
      else err (undefined_public_key user)
  account_of user (ok key) =
      elim (present undefined_public_key user key) as (λ _. Result GetUserResult) [
        | ok k ↦ ok (record { user_id = some user; account = some (hash_of_key k) })
        | err e ↦ err e
      ]

  -- `getUserAccounts`
  unfoldable pub get_user_accounts : List String → History → Outcome (List GetUserResult)
  unfolding each account_of get_public_key
  get_user_accounts =
      each λ user h. let (r, h₁) = get_public_key server user h in (account_of user r, h₁)

  -- `list.includes(text)`, which throws where `list` is no array or text.
  abbrev holds : String → Values → Bool
  holds s nil = false
  holds s (cons (str t) vs) = if str_eq t s then true else holds s vs
  holds s (cons v vs) = holds s vs

  abbrev listed : Value → String → Result Bool
  listed (arr vs) user = ok (holds user vs)
  listed _ user = err (type_error "userIdFromVault.includes is not a function")

  abbrev known_key : String → Option String → Result GetUserResult
  known_key user none = err (undefined_public_key user)
  known_key user (some key) = ok (record { user_id = some user; account = some key })

  abbrev self_managed : Value → String → History → Outcome GetUserResult
  self_managed all user h = elim (listed all user) [
    | err e ↦ (err e, h)
    | ok false ↦ (ok (record { user_id = some user; account = none }), h)
    | ok true ↦
        let (r, h₁) = get_secret server "self-managed" user "publicKey" h in
        elim r [ err e ↦ (err e, h₁) | ok key ↦ (known_key user key, h₁) ]
  ]

  -- `getSelfManagedUserAccounts`
  unfoldable pub get_self_managed_user_accounts :
      List String → History → Outcome (List GetUserResult)
  unfolding each get_secret get_secret_metadata_list
  get_self_managed_user_accounts users = do
    all ← get_secret_metadata_list server "self-managed"
    each (self_managed all) users

  unfoldable pub user_of : String → Result (Option String) → Result GetUserResult
  user_of address (err e) =
      if is_client_error e
      then ok (record { user_id = none; account = some address })
      else err (undefined_user_id address)
  user_of address (ok id) =
      elim (present undefined_user_id address id) as (λ _. Result GetUserResult) [
        | ok user ↦ ok (record { user_id = some user; account = some address })
        | err e ↦ err e
      ]

  -- `getUserByAddress`
  unfoldable pub get_user_by_address : List String → History → Outcome (List GetUserResult)
  unfolding each user_of get_secret
  get_user_by_address = each λ address h.
      let (r, h₁) = get_secret server "accounts" address "userId" h in (user_of address r, h₁)
