-- ===== src/Gateway/Handlers.antt =====
-- The operations of lib/jobs/ and the confirmation worker as runs of `Gateway.Steps`.
use tezos_api_gateway.Base.{
  ℕ, String, ◌≡◌, refl, sym, subst, Bool, true, false, Option, none, some, List, [], ◌∷◌, map,
  arith, or_blank,
}
use tezos_api_gateway.Exceptions.{Exn, Result, ok, err, message, is_job_id_not_found}
use tezos_api_gateway.Database.Schema.{OpKind, Job, Operation, created, error}
use tezos_api_gateway.Database.Effect.{World, Action, pure, throw, lift, ◌>>=◌, hand_over}
use tezos_api_gateway.Database.Jobs.{
  NewJob, insert_job, update_operation_hash, new_row, update_job_status_and_error_message,
}
use tezos_api_gateway.Database.Answers.{insert_job-Answers}
use tezos_api_gateway.Database.Operations.{
  NewOperation, insert_operations, select_operation, of_job,
}
use tezos_api_gateway.Forge.{
  contents_of, ForgedJob, store_batch, total_fee, total_gas, forge_operation,
  forge_reveal_operation, fee_of, gas_limit_of, add_text,
}
use tezos_api_gateway.Forge.Node.{TezosService, ForgeOperationParams}
use tezos_api_gateway.Base.Int.{pos}
use tezos_api_gateway.Base.Decimal.{parse_int}
use tezos_api_gateway.Forge.Reveal.{estimate_and_build_reveal_operation}
use tezos_api_gateway.Forge.Stored.{new_job}
use tezos_api_gateway.Forge.Assembly.{build_batch}
use tezos_api_gateway.Injection.{
  Node, PatchJobParams, no_job, no_parameters, inject_rows, inject_operation,
}
use tezos_api_gateway.Injection
use tezos_api_gateway.Injection.Mapping.{map_operations}
use tezos_api_gateway.Gateway.Steps.{here, Reach-trans}
use tezos_api_gateway.Gateway.Runs.{
  IsTame, Moves, Runs, lift-Runs, >>=-Runs, try_catch-Runs, hand_over-Runs, insert_job-Runs,
  select_operation-Runs, update_operation_hash-Runs, update_job_status_and_error_message-Runs,
  insert_operations-Runs,
}

-- One run, from one world.
abbrev pub Moved : (ℕ → Type 0) → List ℕ → World → {A : Type 0} → Action A → Type 0
Moved Allowed seen w m = Moves Allowed seen w.store (m w).1.store × IsTame (m w).1

new_id :
    (new : NewJob) (w : World) (job : Job)
    → (insert_job new w).0 ≡ ok job
    → job.id ≡ w.store.next_job
unfolding new_row
new_id new w job e = ground (arith, insert_job-Answers new w)

module _ {Allowed : ℕ → Type 0} {seen : List ℕ} where
  >>=-Moved :
      {A B : Type 0} (m : Action A) (f : A → Action B) (w : World)
      → Moved Allowed seen w m
      → ((a : A) → (m w).0 ≡ ok a → Runs Allowed seen (f a))
      → Moved Allowed seen w (m >>= f)
  >>=-Moved m f w hm hf = go (m w).0 (m w).1 (λ a e. hf a e) hm
    where
      go :
          (r : Result _) (v : World)
          → ((a : _) → r ≡ ok a → Runs Allowed seen (f a))
          → Moves Allowed seen w.store v.store × IsTame v
          → Moves Allowed seen w.store (((λ u. (r, v)) >>= f) w).1.store
            × IsTame (((λ u. (r, v)) >>= f) w).1
      go (ok a) v k (first, still) =
          let (more, end) = k a refl v still in (Reach-trans first more, end)
      go (err x) v k h = h

  -- The job of a new id, and the rows that are inserted for it.
  store_new-Moved :
      {B : Type 0} (new : NewJob) (now branch caller : String) (ops : List NewOperation)
      (f : Job → List Operation → B) (w : World)
      → new.status ≡ created
      → new.operation_hash ≡ none
      → Allowed w.store.next_job
      → IsTame w
      → Moved Allowed seen w (
          insert_job new >>= λ job.
          insert_operations now ops branch job.id caller >>= λ rows. pure (f job rows))
  store_new-Moved new now branch caller ops f w is_created no_hash allowed tame =
      >>=-Moved (insert_job new)
        (λ job. insert_operations now ops branch job.id caller >>= λ rows. pure (f job rows)) w
        (insert_job-Runs new is_created no_hash w tame)
        λ job e.
          >>=-Runs (insert_operations now ops branch job.id caller) (λ rows. pure (f job rows))
            (insert_operations-Runs now ops branch job.id caller
              (subst Allowed (sym (new_id new w job e)) allowed))
            λ rows. lift-Runs (ok (f job rows))

  lift-Moved :
      {A B : Type 0} (r : Result A) (f : A → Action B) (w : World)
      → IsTame w
      → ((a : A) → Moved Allowed seen w (f a))
      → Moved Allowed seen w (lift r >>= f)
  lift-Moved (ok a) f w tame h = h a
  lift-Moved (err x) f w tame h = (here, tame)

  pub forge_operation-Moved :
      (tezos : TezosService) (now : String) (params : ForgeOperationParams) (w : World)
      → Allowed w.store.next_job
      → IsTame w
      → Moved Allowed seen w (forge_operation tezos now params)
  unfolding forge_operation store_batch
  forge_operation-Moved tezos now params w allowed tame =
      let stored =
        λ (ops : List NewOperation) (forged : String × String). store_batch now params ops forged in
      lift-Moved (build_batch tezos params)
        (λ ops. lift (tezos.forge (map contents_of ops)) >>= stored ops) w tame
        λ ops. lift-Moved (tezos.forge (map contents_of ops)) (stored ops) w tame λ (branch, bytes).
          store_new-Moved (new_job bytes) now branch (or_blank params.caller_id) ops
            (λ job rows. record { job = job; fee = total_fee ops; gas = total_gas ops }) w refl refl
            allowed tame

  pub forge_reveal_operation-Moved :
      (tezos : TezosService) (now address key : String) (caller : Option String) (fee : Option ℕ)
      (w : World)
      → Allowed w.store.next_job
      → IsTame w
      → Moved Allowed seen w (forge_reveal_operation tezos now address key caller fee)
  unfolding forge_reveal_operation
  forge_reveal_operation-Moved tezos now address key caller fee w allowed tame =
      let row : String × String → NewJob = λ forged. record {
        status = created;
        forged_operation = some forged.1;
        operation_hash = none;
        operation_kind = some OpKind.reveal;
      } in
      let answer : NewOperation → Job → List Operation → ForgedJob = λ op job rows. record {
        job = job;
        fee = parse_int (fee_of op);
        gas = add_text (some (pos 0)) (gas_limit_of op) (pos 100);
      } in
      let stored = λ (op : NewOperation) (forged : String × String).
        insert_job (row forged) >>= λ job.
        insert_operations now (op ∷ []) forged.0 job.id (or_blank caller) >>= λ rows.
        pure (answer op job rows) in
      lift-Moved (estimate_and_build_reveal_operation tezos address key fee)
        (λ op. lift (tezos.forge (contents_of op ∷ [])) >>= stored op) w tame
        λ op. lift-Moved (tezos.forge (contents_of op ∷ [])) (stored op) w tame λ forged.
          store_new-Moved (row forged) now forged.0 (or_blank caller) (op ∷ []) (answer op) w refl
            refl allowed tame

  updated-Runs :
      (params : PatchJobParams) (jobs : List Job)
      → Runs Allowed seen (elim jobs as (λ _. Action (Unit {0})) [
        | [] ↦ throw (no_job params.job_id)
        | _ ↦ pure tt
      ])
  updated-Runs params [] = lift-Runs {A = Unit {0}} (err (no_job params.job_id))
  updated-Runs params (_ ∷ _) = lift-Runs {A = Unit {0}} (ok tt)

  inject_rows-Runs :
      (node : Node) (params : PatchJobParams) (rows : List Operation)
      → Runs Allowed seen (inject_rows node params rows)
  unfolding inject_rows
  inject_rows-Runs node params [] = lift-Runs {A = Unit {0}} (err (no_parameters params.job_id))
  inject_rows-Runs node params (first ∷ rest) =
      let record_hash : List Job → Action (Unit {0}) =
        λ jobs. elim jobs [ [] ↦ throw (no_job params.job_id) | _ ↦ pure tt ] in
      let injected = node.inject params.signed_transaction in
      let injection : Action (Unit {0}) = hand_over params.signed_transaction injected >>= λ hash.
      update_operation_hash hash params.job_id >>= record_hash in
      >>=-Runs (lift (map_operations (first ∷ rest)))
        (λ contents. lift (node.preapply first.branch contents params.signature) >>= λ _. injection)
        (lift-Runs (map_operations (first ∷ rest)))
        λ contents.
          >>=-Runs (lift (node.preapply first.branch contents params.signature)) (λ _. injection)
            (lift-Runs (node.preapply first.branch contents params.signature))
            λ _.
              >>=-Runs (hand_over params.signed_transaction injected)
                (λ hash. update_operation_hash hash params.job_id >>= record_hash)
                (hand_over-Runs params.signed_transaction injected)
                λ hash.
                  >>=-Runs (update_operation_hash hash params.job_id) record_hash
                    (update_operation_hash-Runs hash params.job_id) (updated-Runs params)

  pub failure-Runs :
      (A : Type 0) (id : ℕ) (e : Exn)
      → Runs Allowed seen (elim (is_job_id_not_found e) as (λ _. Action A) [
        | true ↦ throw e
        | false ↦ update_job_status_and_error_message error (message e) id >>= λ _. throw e
      ])
  failure-Runs A id e = go (is_job_id_not_found e)
    where
      go :
          (known : Bool)
          → Runs Allowed seen (elim known as (λ _. Action A) [
            | true ↦ throw e
            | false ↦ update_job_status_and_error_message error (message e) id >>= λ _. throw e
          ])
      go true = lift-Runs {A = A} (err e)
      go false =
          >>=-Runs {B = A} (update_job_status_and_error_message error (message e) id) (λ _. throw e)
            (update_job_status_and_error_message-Runs (message e) id) λ _. lift-Runs {A = A} (err e)

  pub inject_operation-Runs :
      (node : Node) (params : PatchJobParams) → Runs Allowed seen (inject_operation node params)
  unfolding inject_operation Injection.attempt Injection.record_failure
  inject_operation-Runs node params =
      try_catch-Runs (Injection.attempt node params) (Injection.record_failure node params)
        (>>=-Runs (select_operation (of_job params.job_id)) (inject_rows node params)
          (select_operation-Runs (of_job params.job_id)) (inject_rows-Runs node params))
        (failure-Runs (Unit {0}) params.job_id)
