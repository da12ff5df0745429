-- ===== src/Web/Users.antt =====
-- The controllers of processes/web/api/user/ over the vault. An error goes to the error handler.
use tezos_api_gateway.Base.{ℕ, String, Bool, Option, none, some, List, is_empty, if◌then◌else◌}
use tezos_api_gateway.Value.{Value, str, arr, Values, nil, cons}
use tezos_api_gateway.Exceptions.{undefined_user_id, type_error, Result, ok, err}
use tezos_api_gateway.Database.Schema.{Job}
use tezos_api_gateway.Database.Effect.{lift, ◌>>=◌, ◌>>◌}
use tezos_api_gateway.Database.Jobs.{insert_job}
use tezos_api_gateway.Sending.Transfers.{Transfer, TransferSender, send_transfer_transactions}
use tezos_api_gateway.Vault.{
  VaultServer, History, Outcome, get_transit_by_name, set_secret, get_secret, delete_secret,
  get_all_transit_names, rotate_keys,
}
use tezos_api_gateway.Vault.Users.{
  GetUserResult, CreateUserResult, create_accounts, get_user_accounts,
  get_self_managed_user_accounts, get_user_by_address,
}
use tezos_api_gateway.Web.{Reply, json, next, Controller, respond}
use tezos_api_gateway.Web.Injecting.{sending_job}

-- `return res.status(…).json(…)`, or `next(err)`.
unfoldable pub settled : {A : Type 0} → ℕ → Outcome A → Reply A × History
settled status (ok a, h) = (json status a, h)
settled status (err e, h) = (next e, h)

abbrev after : {A B : Type 0} → Outcome A → (A → History → Outcome B) → Outcome B
after (err e, h) f = (err e, h)
after (ok a, h) f = f a h

abbrev done_with : {A : Type 0} → A → History → Outcome A
done_with a h = (ok a, h)

module _ (server : VaultServer) where
  -- `createUpdateUserMetadata`
  unfoldable pub create_update_user_metadata :
      String → String → History → Reply (String × String) × History
  unfolding settled get_transit_by_name set_secret
  create_update_user_metadata user_id text h = settled 201 (
      after (get_transit_by_name server user_id h) λ key h₁.
        after (set_secret server "metadata" user_id "metadata" text h₁)
          λ _. done_with (user_id, text))

  -- `getUserMetadata`
  unfoldable pub get_user_metadata : String → History → Reply (Option String) × History
  unfolding settled get_secret
  get_user_metadata user_id h = settled 200 (get_secret server "metadata" user_id "metadata" h)

  -- `deleteUserMetadata`
  unfoldable pub delete_user_metadata : String → History → Reply (Unit {0}) × History
  unfolding settled delete_secret
  delete_user_metadata user_id h = settled 200 (delete_secret server "metadata" user_id h)

  -- `selfManaged`, which answers without a body.
  abbrev known : String → Option String → Result (Unit {0})
  known user_id none = err (undefined_user_id user_id)
  known user_id (some key) = if is_empty key then err (undefined_user_id user_id) else ok tt

  unfoldable pub update_self_managed : String → String → History → Reply (Unit {0}) × History
  unfolding settled get_secret set_secret
  update_self_managed user_id public_key h = settled 204 (
      after (get_secret server "self-managed" user_id "publicKey" h) λ key h₁.
        after (known user_id key, h₁)
          λ _. set_secret server "self-managed" user_id "publicKey" public_key)

  -- `for (const name of names) { … }`, one key after the other. The vault lists its keys as an array of
  -- texts.
  abbrev name_of : Value → String
  name_of (str s) = s
  name_of _ = ""

  unfoldable pub rotate_each : Values → History → Outcome (Unit {0})
  unfolding rotate_keys
  rotate_each nil h = (ok tt, h)
  rotate_each (cons name names) h =
      let (r, h₁) = rotate_keys server (name_of name) h in
      let rest = rotate_each names h₁ in elim r [ ok u ↦ rest | err e ↦ (err e, h₁) ]

  abbrev rotate_all : Value → History → Outcome (Unit {0})
  rotate_all (arr names) h = rotate_each names h
  rotate_all _ h = (err (type_error "names is not iterable"), h)

  -- `delegated`
  unfoldable pub rotate_delegated : History → Reply (Unit {0}) × History
  unfolding settled get_all_transit_names rotate_each
  rotate_delegated h = settled 204 (after (get_all_transit_names server h) rotate_all)

  -- `addUserWithPublicKeyHash`
  unfoldable pub add_user_with_public_key_hash :
      String → String → History → Reply (String × String) × History
  unfolding settled set_secret
  add_user_with_public_key_hash user_id public_key_hash h = settled 201 (
      after (set_secret server "self-managed" user_id "publicKey" public_key_hash h)
        λ _. done_with (user_id, public_key_hash))

  module _ (hash_of_key : String → String) where
    -- `createUser`, where the accounts are not activated.
    unfoldable pub create_user_accounts :
        List String → History → Reply (List CreateUserResult) × History
    unfolding settled create_accounts
    create_user_accounts user_ids h = settled 201 (create_accounts server hash_of_key user_ids h)

    -- `getUser` of user-controller.ts
    unfoldable pub get_user : Bool → List String → History → Reply (List GetUserResult) × History
    unfolding settled get_user_accounts get_self_managed_user_accounts
    get_user is_delegated users h = settled 200 (
        if is_delegated
        then get_user_accounts server hash_of_key users h
        else get_self_managed_user_accounts server hash_of_key users h)

    -- `getUser` of get-user-by-address-controller.ts
    unfoldable pub get_user_of_addresses :
        List String → History → Reply (List GetUserResult) × History
    unfolding settled get_user_by_address
    get_user_of_addresses addresses h =
        settled 200 (get_user_by_address server hash_of_key addresses h)

-- `transferTokens`. `exists` is what `getTransitByName` gives for the user.
unfoldable pub transfer_tokens :
    Result Value → TransferSender → String → List Transfer → Option String → Controller (Option Job)
unfolding respond insert_job send_transfer_transactions
transfer_tokens exists sender now transactions caller_id = respond 201 next (do
  lift exists
  lift sender.public_key_hash
  job ← insert_job sending_job
  send_transfer_transactions sender now
      (record { transactions = transactions; job_id = job.id; caller_id = caller_id }))
