-- ===== src/Gateway/Invariant.antt =====
-- What holds of the two tables after any sequence of the steps of `Gateway.Steps`.
pub mod Lists
use tezos_api_gateway.Base.{
  ℕ, String, ◌≡◌, ◌≢◌, refl, sym, subst, Bool, true, false, not, ◌||◌, Option, none, some, List, [],
  ◌∷◌, ◌++◌, ◌+◌, ◌<◌, map, arith, inl, inr, Bool-cases, ◌==◌,
}
use tezos_api_gateway.Base.Lists.{keep, All}
use tezos_api_gateway.Database.Schema.{
  JobStatus, created, published, done, error, Job, Operation, Store,
}
use tezos_api_gateway.Gateway.Steps.{State, Step, Reach, here, next, member, id_of}

abbrev pub is_sent : JobStatus → Bool
is_sent published = true
is_sent done = true
is_sent _ = false

abbrev pub has_hash : Job → Bool
has_hash job = elim job.operation_hash [ none ↦ false | some _ ↦ true ]

abbrev pub IsDistinct : List ℕ → Type 0
IsDistinct [] = Unit
IsDistinct (i ∷ ids) = (member i ids ≡ false) × IsDistinct ids

abbrev pub job_of : Operation → ℕ
job_of op = op.job_id

-- Every row with this id has a hash.
abbrev pub HashOf : ℕ → List Job → Type 0
HashOf k jobs = All (λ job. (not (job.id == k) || has_hash job) ≡ true) jobs

pub record IsSound (s : State) : Type 0 where
  pub below : All (λ i. i < s.store.next_job) (map id_of s.store.jobs)
  pub distinct : IsDistinct (map id_of s.store.jobs)
  pub owned : All (λ op. member (job_of op) (map id_of s.store.jobs) ≡ true) s.store.operations
  pub sent : All (λ job. (not (is_sent job.status) || has_hash job) ≡ true) s.store.jobs
  pub watched : (k : ℕ) → member k s.seen ≡ true → HashOf k s.store.jobs × (k < s.store.next_job)
