-- ===== src/Database/Keeps.antt =====
-- Code that leaves the rows of one job alone, whatever the queries are answered.
use tezos_api_gateway.Base.{ℕ, String, ◌≡◌, refl, ◌∙◌, Bool, false, List, [], ◌∷◌, arith, ◌==◌}
use tezos_api_gateway.Base.Lists.{keep, All}
use tezos_api_gateway.Exceptions.{Exn, Result, ok, err}
use tezos_api_gateway.Database.Schema.{Job, JobStatus, Operation}
use tezos_api_gateway.Database.Effect.{World, Action, Message, try_catch, ◌>>=◌, map_all, send}
use tezos_api_gateway.Database.Jobs.{
  has_id, has_quote, set_where, update_job_status, with_status, with_status_and_error,
  update_job_status_and_error_message,
}
use tezos_api_gateway.Database.Operations.{select_operation, update_operation_update_date}
use tezos_api_gateway.Database.Answers.{
  update_job_status-Answers, update_job_status_and_error_message-Answers, select_operation-Answers,
  update_operation_update_date-Answers,
}

-- The row of the job `k` is the same before and after.
abbrev pub KeepsJob : {A : Type 0} → ℕ → Action A → Type 0
KeepsJob k m = (w : World) → keep (has_id k) (m w).1.store.jobs ≡ keep (has_id k) w.store.jobs

module _ (k : ℕ) where
  pub >>=-KeepsJob :
      {A B : Type 0} (m : Action A) (f : A → Action B)
      → KeepsJob k m
      → ((a : A) → KeepsJob k (f a))
      → KeepsJob k (m >>= f)
  >>=-KeepsJob m f hm hf w = go (m w).0 (m w).1 (hm w)
    where
      go :
          (r : Result _) (v : World)
          → keep (has_id k) v.store.jobs ≡ keep (has_id k) w.store.jobs
          → keep (has_id k) (((λ u. (r, v)) >>= f) w).1.store.jobs ≡ keep (has_id k) w.store.jobs
      go (ok a) v h = hf a v ∙ h
      go (err x) v h = h

  pub try_catch-KeepsJob :
      {A : Type 0} (m : Action A) (handler : Exn → Action A)
      → KeepsJob k m
      → ((x : Exn) → KeepsJob k (handler x))
      → KeepsJob k (try_catch m handler)
  try_catch-KeepsJob m handler hm hh w = go (m w).0 (m w).1 (hm w)
    where
      go :
          (r : Result _) (v : World)
          → keep (has_id k) v.store.jobs ≡ keep (has_id k) w.store.jobs
          → keep (has_id k) (try_catch (λ u. (r, v)) handler w).1.store.jobs
            ≡ keep (has_id k) w.store.jobs
      go (ok a) v h = h
      go (err x) v h = hh x v ∙ h

  pub map_all-KeepsJob :
      {A B : Type 0} (f : A → Action B) (xs : List A)
      → All (λ x. KeepsJob k (f x)) xs
      → KeepsJob k (map_all f xs)
  unfolding map_all
  map_all-KeepsJob f [] h w = refl
  map_all-KeepsJob f (x ∷ xs) (h, hs) w = map_all-KeepsJob f xs hs (f x w).1 ∙ h w

  pub send-KeepsJob : (message : Message) → KeepsJob k (send message)
  unfolding send
  send-KeepsJob message w = refl

  keep-set_where :
      (id : ℕ) (change : Job → Job) (jobs : List Job)
      → (id == k) ≡ false
      → ((j : Job) → (change j).id ≡ j.id)
      → keep (has_id k) (set_where id change jobs) ≡ keep (has_id k) jobs
  unfolding set_where
  keep-set_where id change [] other same = refl
  keep-set_where id change (j ∷ jobs) other same =
      ground (arith, keep-set_where id change jobs other same, same j)

  pub update_job_status-KeepsJob :
      (status : JobStatus) (id : ℕ) → (id == k) ≡ false → KeepsJob k (update_job_status status id)
  update_job_status-KeepsJob status id other w =
      let a = update_job_status-Answers status id w in
      let b = keep-set_where id (with_status status) w.store.jobs other (λ j. refl) in
      ground (arith, a, b)

  pub update_job_status_and_error_message-KeepsJob :
      (status : JobStatus) (message : String) (id : ℕ)
      → has_quote message ≡ false
      → (id == k) ≡ false
      → KeepsJob k (update_job_status_and_error_message status message id)
  update_job_status_and_error_message-KeepsJob status message id plain other w =
      let a = update_job_status_and_error_message-Answers status message id w plain in
      let b =
        keep-set_where id (with_status_and_error status message) w.store.jobs other (λ j. refl) in
      ground (arith, a, b)

  pub select_operation-KeepsJob :
      (condition : Operation → Bool) → KeepsJob k (select_operation condition)
  select_operation-KeepsJob condition w =
      let a = select_operation-Answers condition w in ground (arith, a)

  pub update_operation_update_date-KeepsJob :
      (now : String) (id : ℕ) → KeepsJob k (update_operation_update_date now id)
  update_operation_update_date-KeepsJob now id w =
      let a = update_operation_update_date-Answers now id w in ground (arith, a)
