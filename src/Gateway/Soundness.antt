-- ===== src/Gateway/Soundness.antt =====
-- Every step of `Gateway.Steps` keeps what `Gateway.Invariant` says of the two tables.
use tezos_api_gateway.Base.{
  ℕ, String, ◌≡◌, ◌⊎◌, refl, sym, subst, true, not, ◌||◌, some, List, [], ◌∷◌, ◌++◌, ◌+◌, ◌<◌, map,
  arith, inl, inr, Bool-cases, Option-cases, ◌==◌,
}
use tezos_api_gateway.Base.Lists.{keep, length, All, All-append}
use tezos_api_gateway.Database.Schema.{created, published, done, error, Job, Operation, Store}
use tezos_api_gateway.Database.Jobs.{
  NewJob, new_row, set_where, with_hash, with_status, with_status_and_hash, with_status_and_error,
  awaits_confirmation,
}
use tezos_api_gateway.Database.Operations.{
  OperationValues, insert_rows, rows_of, all_exist, date_where,
}
use tezos_api_gateway.Gateway.Steps.{
  State, Step, Reach, create, add, publish, publish_sent, observe, finish, give_up, mark, date,
  here, next, with_jobs, member, id_of,
}
use tezos_api_gateway.Gateway.Invariant.{is_sent, has_hash, IsDistinct, job_of, HashOf, IsSound}
use tezos_api_gateway.Gateway.Invariant.Lists.{
  member-append, member-below, below-suc, IsDistinct-snoc, map-snoc, ids-set_where, All-set_where,
  All-weaken, All-every, HashOf-observed, member-keep, rows_of-owned,
}

abbrev Sent : Job → Type 0
Sent job = (not (is_sent job.status) || has_hash job) ≡ true

abbrev HasAt : ℕ → Job → Type 0
HasAt k job = (not (job.id == k) || has_hash job) ≡ true

-- An UPDATE that keeps the ids, loses no hash, and sends no job without one.
set_where-IsSound :
    (s : State) (id : ℕ) (change : Job → Job)
    → ((j : Job) → (change j).id ≡ j.id)
    → ((j : Job) → has_hash j ≡ true → has_hash (change j) ≡ true)
    → All (λ j. (j.id == id) ≡ true → Sent (change j)) s.store.jobs
    → IsSound s
    → IsSound (with_jobs s (set_where id change s.store.jobs))
set_where-IsSound s id change same hashed sends h =
    let ids = sym (ids-set_where id change same s.store.jobs) in
    record {
      below = subst (λ is. All (λ i. i < s.store.next_job) is) ids h.below;
      distinct = subst IsDistinct ids h.distinct;
      owned = subst (λ is. All (λ op. member (job_of op) is ≡ true) s.store.operations) ids h.owned;
      sent = All-set_where Sent id change s.store.jobs h.sent sends;
      watched = λ k seen.
          let (hash, small) = h.watched k seen in
          let kept =
            All-weaken (HasAt k) (λ j. (j.id == id) ≡ true → HasAt k (change j)) s.store.jobs
              (λ j has e. keeps k j has) hash in
          (All-set_where (HasAt k) id change s.store.jobs hash kept, small);
    }
  where
    keeps : (k : ℕ) (j : Job) → HasAt k j → HasAt k (change j)
    keeps k j has = ground (arith, same j, hashed j)

pub add-cases :
    (vs : List OperationValues) (s : Store)
    → ((insert_rows vs s).1 ≡ s)
      ⊎ ((rows : List Operation) × (rows_of s.next_operation vs ≡ some rows)
          × (all_exist s.jobs vs ≡ true)
          × ((insert_rows vs s).1 ≡ record s {
            operations = s.operations ++ rows;
            next_operation = s.next_operation + length rows;
          }))
unfolding insert_rows
add-cases [] s = inl refl
add-cases (v ∷ vs) s = elim (Option-cases (rows_of s.next_operation (v ∷ vs))) [
  | inl bad ↦ inl (ground arith)
  | inr (rows, good) ↦ elim (Bool-cases (all_exist s.jobs (v ∷ vs))) [
    | inl there ↦ inr (rows, good, there, ground arith)
    | inr missing ↦ inl (ground arith)
  ]
]

create-IsSound :
    (s : State) (new : NewJob)
    → new.status ≡ created
    → IsSound s
    → IsSound (record s {
      store = record s.store {
        jobs = s.store.jobs ++ new_row s.store.next_job new ∷ [];
        next_job = s.store.next_job + 1;
      };
    })
unfolding new_row
create-IsSound s new is_created h =
    let row = new_row s.store.next_job new in
    let n = s.store.next_job in
    let ids = sym (map-snoc s.store.jobs row) in
    record {
      below = subst (λ is. All (λ i. i < n + 1) is) ids (below-suc n _ h.below);
      distinct = subst IsDistinct ids (IsDistinct-snoc n _ h.below h.distinct);
      owned =
          subst (λ is. All (λ op. member (job_of op) is ≡ true) s.store.operations) ids
            (All-weaken (λ op. member (job_of op) (map id_of s.store.jobs) ≡ true)
              (λ op. member (job_of op) (map id_of s.store.jobs ++ n ∷ []) ≡ true)
              s.store.operations (λ op. member-append (job_of op) (map id_of s.store.jobs) (n ∷ []))
              h.owned);
      sent = All-append Sent s.store.jobs (row ∷ []) h.sent (idle, tt);
      watched = λ k seen.
          let (hash, small) = h.watched k seen in
          (
            All-append (HasAt k) s.store.jobs (row ∷ []) hash (fresh k small, tt),
            omega (arith, small),
          );
    }
  where
    idle : Sent (new_row s.store.next_job new)
    idle = ground (arith, is_created)

    fresh : (k : ℕ) → k < s.store.next_job → HasAt k (new_row s.store.next_job new)
    fresh k small = ground (arith, small)

add-IsSound :
    (s : State) (vs : List OperationValues)
    → IsSound s
    → IsSound (record s { store = (insert_rows vs s.store).1 })
add-IsSound s vs h = elim (add-cases vs s.store) [
  | inl nothing ↦ subst (λ t. IsSound (record s { store = t })) (sym nothing) h
  | inr (rows, good, there, added) ↦
      subst (λ t. IsSound (record s { store = t })) (sym added)
        (record {
          below = h.below;
          distinct = h.distinct;
          owned =
              All-append (λ op. member (job_of op) (map id_of s.store.jobs) ≡ true)
                s.store.operations rows h.owned
                (rows_of-owned s.store.jobs s.store.next_operation vs rows good there);
          sent = h.sent;
          watched = h.watched;
        })
]

date-owned :
    (is : List ℕ) (now : String) (id : ℕ) (ops : List Operation)
    → All (λ op. member (job_of op) is ≡ true) ops
    → All (λ op. member (job_of op) is ≡ true) (date_where now id ops)
unfolding date_where
date-owned is now id [] h = tt
date-owned is now id (op ∷ ops) (h, hs) = (ground (arith, h), date-owned is now id ops hs)

observe-watched :
    (s : State)
    → IsSound s
    → (k : ℕ) (is : List ℕ)
    → ((member k is ≡ true) → member k (map id_of (keep awaits_confirmation s.store.jobs)) ≡ true)
    → member k (is ++ s.seen) ≡ true
    → HashOf k s.store.jobs × (k < s.store.next_job)
observe-watched s h k [] known m = h.watched k m
observe-watched s h k (i ∷ is) known m = elim (Bool-cases (member k (i ∷ is))) [
  | inl new ↦ (
    HashOf-observed k s.store.jobs h.distinct (known new),
    member-below s.store.next_job (map id_of s.store.jobs) h.below k
        (member-keep k awaits_confirmation s.store.jobs (known new)),
  )
  | inr old ↦ observe-watched s h k is (ground (arith, old)) (ground (arith, old, m))
]

module _ {Allowed : ℕ → Type 0} where
  pub Step-IsSound : {s t : State} → Step Allowed s t → IsSound s → IsSound t
  Step-IsSound (create s new is_created no_hash) h = create-IsSound s new is_created h
  Step-IsSound (add s vs allowed) h = add-IsSound s vs h
  Step-IsSound (publish s id hash) h =
      set_where-IsSound s id (with_hash hash) (λ j. refl) (λ j e. refl)
        (All-every (λ j. (j.id == id) ≡ true → Sent (with_hash hash j)) s.store.jobs
          λ j e. ground arith)
        h
  Step-IsSound (publish_sent s id hash) h =
      set_where-IsSound s id (with_status_and_hash published hash) (λ j. refl) (λ j e. refl)
        (All-every (λ j. (j.id == id) ≡ true → Sent (with_status_and_hash published hash j))
          s.store.jobs λ j e. refl)
        h
  Step-IsSound (observe s) h = record {
    below = h.below;
    distinct = h.distinct;
    owned = h.owned;
    sent = h.sent;
    watched =
        λ k m. observe-watched s h k (map id_of (keep awaits_confirmation s.store.jobs)) (λ e. e) m;
  }
  Step-IsSound (finish s id known) h =
      let (hash, small) = h.watched id known in
      set_where-IsSound s id (with_status done) (λ j. refl) (λ j e. e)
        (All-weaken (HasAt id) (λ j. (j.id == id) ≡ true → Sent (with_status done j)) s.store.jobs
          (λ j has e. ground arith) hash)
        h
  Step-IsSound (give_up s id) h =
      set_where-IsSound s id (with_status error) (λ j. refl) (λ j e. e)
        (All-every (λ j. (j.id == id) ≡ true → Sent (with_status error j)) s.store.jobs λ j e. refl)
        h
  Step-IsSound (mark s id message) h =
      set_where-IsSound s id (with_status_and_error error message) (λ j. refl) (λ j e. e)
        (All-every (λ j. (j.id == id) ≡ true → Sent (with_status_and_error error message j))
          s.store.jobs λ j e. refl)
        h
  Step-IsSound (date s now id) h = record {
    below = h.below;
    distinct = h.distinct;
    owned = date-owned (map id_of s.store.jobs) now id s.store.operations h.owned;
    sent = h.sent;
    watched = h.watched;
  }

  -- From a sound state, any sequence of steps leads to a sound state: the ids of the jobs are distinct
  -- and below the next id, every row of an operation belongs to a job, every job that is published or
  -- done has an operation hash, and so has every job that a worker has read as waiting.
  pub Reach-IsSound : {s t : State} → Reach Allowed s t → IsSound s → IsSound t
  Reach-IsSound here h = h
  Reach-IsSound (next r step) h = Step-IsSound step (Reach-IsSound r h)
