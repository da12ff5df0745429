-- ===== src/Gateway/Runs.antt =====
-- Code whose every run is a sequence of the steps of `Gateway.Steps`, whatever the queries are answered.
use tezos_api_gateway.Base.{
  ℕ, String, ◌≡◌, Bool, true, false, Option, none, some, List, [], ◌∷◌, map,
}
use tezos_api_gateway.Base.Lists.{All}
use tezos_api_gateway.Exceptions.{Exn, Result, ok, err}
use tezos_api_gateway.Database.Schema.{created, published, done, error, Job, Operation, Store}
use tezos_api_gateway.Database.Effect.{
  World, Action, Message, lift, try_catch, ◌>>=◌, map_all, query, answer, send, hand_over,
}
use tezos_api_gateway.Database.Jobs.{
  NewJob, insert_job, select_jobs, set_where, has_quote, quoting, update_where, with_hash,
  update_operation_hash, update_job_status, update_job_status_and_operation_hash,
  update_job_status_and_error_message,
}
use tezos_api_gateway.Database.Operations.{
  NewOperation, NewTransaction, map_operation_values, transaction_values, OperationValues,
  insert_rows, insert_operations, insert_transaction, select_operation,
  update_operation_update_date,
}
use tezos_api_gateway.Gateway.Steps.{
  State, Step, Reach, here, Reach-trans, Reach-weaken, Reach-step, member,
}

abbrev pub at : List ℕ → Store → State
at seen store = record { store = store; seen = seen }

-- No text is an attack: what Postgres makes of a statement in which a text ends its own quotes is a
-- syntax error, which leaves the tables alone, or some sequence of steps that inserts no rows of
-- operations, such as a statement whose text has lost one of two adjacent quotes.
abbrev pub IsTame : World → Type 0
IsTame w =
    (seen : List ℕ) (text : String) (s : Store)
    → Reach (λ id. ⊥) (at seen s) (at seen (w.stray text s).1)

-- From the first store to the second by steps that see no new job.
abbrev pub Moves : (ℕ → Type 0) → List ℕ → Store → Store → Type 0
Moves Allowed seen s t = Reach Allowed (at seen s) (at seen t)

abbrev pub Runs : (ℕ → Type 0) → List ℕ → {A : Type 0} → Action A → Type 0
Runs Allowed seen m =
    (w : World) → IsTame w → Moves Allowed seen w.store (m w).1.store × IsTame (m w).1

module _ {Allowed : ℕ → Type 0} {seen : List ℕ} where
  pub lift-Runs : {A : Type 0} (r : Result A) → Runs Allowed seen (lift r)
  lift-Runs r w tame = (here, tame)

  pub >>=-Runs :
      {A B : Type 0} (m : Action A) (f : A → Action B)
      → Runs Allowed seen m
      → ((a : A) → Runs Allowed seen (f a))
      → Runs Allowed seen (m >>= f)
  >>=-Runs m f hm hf w tame = go (m w).0 (m w).1 (hm w tame)
    where
      go :
          (r : Result _) (v : World)
          → Moves Allowed seen w.store v.store × IsTame v
          → Moves Allowed seen w.store (((λ u. (r, v)) >>= f) w).1.store
            × IsTame (((λ u. (r, v)) >>= f) w).1
      go (ok a) v (first, still) = let (more, end) = hf a v still in (Reach-trans first more, end)
      go (err x) v h = h

  pub try_catch-Runs :
      {A : Type 0} (m : Action A) (handler : Exn → Action A)
      → Runs Allowed seen m
      → ((x : Exn) → Runs Allowed seen (handler x))
      → Runs Allowed seen (try_catch m handler)
  try_catch-Runs m handler hm hh w tame = go (m w).0 (m w).1 (hm w tame)
    where
      go :
          (r : Result _) (v : World)
          → Moves Allowed seen w.store v.store × IsTame v
          → Moves Allowed seen w.store (try_catch (λ u. (r, v)) handler w).1.store
            × IsTame (try_catch (λ u. (r, v)) handler w).1
      go (ok a) v h = h
      go (err x) v (first, still) = let (more, end) = hh x v still in (Reach-trans first more, end)

  pub map_all-Runs :
      {A B : Type 0} (f : A → Action B) (xs : List A)
      → All (λ x. Runs Allowed seen (f x)) xs
      → Runs Allowed seen (map_all f xs)
  unfolding map_all
  map_all-Runs f [] h w tame = (here, tame)
  map_all-Runs f (x ∷ xs) (h, hs) w tame =
      let (first, still) = h w tame in
      let (more, end) = map_all-Runs f xs hs (f x w).1 still in (Reach-trans first more, end)

  pub send-Runs : (message : Message) → Runs Allowed seen (send message)
  unfolding send
  send-Runs message w tame = (here, tame)

  pub hand_over-Runs : (text : String) (r : Result String) → Runs Allowed seen (hand_over text r)
  unfolding hand_over
  hand_over-Runs text (ok hash) w tame = (here, tame)
  hand_over-Runs text (err x) w tame = (here, tame)

  -- A query is rejected, or its statement is a step.
  query-Moves :
      {A : Type 0} (statement : Store → Result A × Store) (w : World)
      → Moves Allowed seen w.store (statement w.store).1
      → IsTame w
      → Moves Allowed seen w.store (query statement w).1.store × IsTame (query statement w).1
  unfolding query answer
  query-Moves statement w step tame = go w.faults
    where
      go :
          (faults : List (Option String))
          → Moves Allowed seen w.store (answer faults statement w).1.store
            × IsTame (answer faults statement w).1
      go [] = (step, tame)
      go (none ∷ rest) = (step, tame)
      go (some m ∷ rest) = (here, tame)

  quoting-Runs :
      (text : String) (id : ℕ) (change : Job → Job)
      → ((s : Store) → Moves Allowed seen s (record s { jobs = set_where id change s.jobs }))
      → Runs Allowed seen (quoting text (update_where id change))
  quoting-Runs text id change step w tame = go (has_quote text)
    where
      go :
          (quoted : Bool)
          → let m = (elim quoted as (λ x. Result (List Job) × World) [
            | true ↦ query (w.stray text) w
            | false ↦ update_where id change w
          ]) in
            Moves Allowed seen w.store m.1.store × IsTame m.1
      go true =
          query-Moves (w.stray text) w (Reach-weaken (λ id. absurd) (tame seen text w.store)) tame
      go false = query-Moves _ w (step w.store) tame

  pub insert_job-Runs :
      (new : NewJob)
      → new.status ≡ created
      → new.operation_hash ≡ none
      → Runs Allowed seen (insert_job new)
  unfolding insert_job
  insert_job-Runs new is_created no_hash w tame =
      query-Moves _ w (Reach-step (Step.create (at seen w.store) new is_created no_hash)) tame

  pub select_jobs-Runs : (condition : Job → Bool) → Runs Allowed seen (select_jobs condition)
  unfolding select_jobs
  select_jobs-Runs condition w tame = query-Moves _ w here tame

  pub select_operation-Runs :
      (condition : Operation → Bool) → Runs Allowed seen (select_operation condition)
  unfolding select_operation
  select_operation-Runs condition w tame = query-Moves _ w here tame

  pub update_operation_hash-Runs :
      (hash : String) (id : ℕ) → Runs Allowed seen (update_operation_hash hash id)
  unfolding update_operation_hash
  update_operation_hash-Runs hash id =
      quoting-Runs hash id (with_hash hash) λ s. Reach-step (Step.publish (at seen s) id hash)

  pub update_job_status_and_operation_hash-Runs :
      (hash : String) (id : ℕ)
      → Runs Allowed seen (update_job_status_and_operation_hash published hash id)
  unfolding update_job_status_and_operation_hash
  update_job_status_and_operation_hash-Runs hash id =
      quoting-Runs hash id _ λ s. Reach-step (Step.publish_sent (at seen s) id hash)

  pub update_job_status_and_error_message-Runs :
      (message : String) (id : ℕ)
      → Runs Allowed seen (update_job_status_and_error_message error message id)
  unfolding update_job_status_and_error_message
  update_job_status_and_error_message-Runs message id =
      quoting-Runs message id _ λ s. Reach-step (Step.mark (at seen s) id message)

  pub finish-Runs : (id : ℕ) → member id seen ≡ true → Runs Allowed seen (update_job_status done id)
  unfolding update_job_status
  finish-Runs id known w tame =
      query-Moves _ w (Reach-step (Step.finish (at seen w.store) id known)) tame

  pub give_up-Runs : (id : ℕ) → Runs Allowed seen (update_job_status error id)
  unfolding update_job_status
  give_up-Runs id w tame = query-Moves _ w (Reach-step (Step.give_up (at seen w.store) id)) tame

  pub update_operation_update_date-Runs :
      (now : String) (id : ℕ) → Runs Allowed seen (update_operation_update_date now id)
  unfolding update_operation_update_date
  update_operation_update_date-Runs now id w tame =
      query-Moves _ w (Reach-step (Step.date (at seen w.store) now id)) tame

  add-Moves :
      (vs : List OperationValues) (w : World)
      → All (λ v. Allowed v.job_id) vs
      → Moves Allowed seen w.store (insert_rows vs w.store).1
  add-Moves vs w allowed = Reach-step (Step.add (at seen w.store) vs allowed)

  pub insert_operations-Runs :
      (now : String) (contents : List NewOperation) (branch : String) (id : ℕ) (caller : String)
      → Allowed id
      → Runs Allowed seen (insert_operations now contents branch id caller)
  unfolding insert_operations map_operation_values
  insert_operations-Runs now contents branch id caller allowed w tame =
      query-Moves _ w (add-Moves _ w (each contents)) tame
    where
      each :
          (list : List NewOperation)
          → All (λ v. Allowed v.job_id) (map (map_operation_values now branch id caller) list)
      each [] = tt
      each (NewOperation.new_reveal op ∷ list) = (allowed, each list)
      each (NewOperation.new_transaction op json ∷ list) = (allowed, each list)

  pub insert_transaction-Runs :
      (now : String) (new : NewTransaction)
      → Allowed new.job_id
      → Runs Allowed seen (insert_transaction now new)
  unfolding insert_transaction transaction_values
  insert_transaction-Runs now new allowed w tame =
      query-Moves _ w (add-Moves (transaction_values now new ∷ []) w (allowed, tt)) tame
