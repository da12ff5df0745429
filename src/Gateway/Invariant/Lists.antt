-- ===== src/Gateway/Invariant/Lists.antt =====
-- The lists of ids under the queries.
use tezos_api_gateway.Base.{
  ℕ, suc, ◌≡◌, refl, subst, Bool, true, false, some, List, [], ◌∷◌, ◌++◌, ◌+◌, ◌<◌, map, arith, inl,
  inr, Bool-cases, Option-cases, ◌==◌, ap, if◌then◌else◌,
}
use tezos_api_gateway.Base.Lists.{keep, All}
use tezos_api_gateway.Database.Schema.{Job, Operation}
use tezos_api_gateway.Database.Jobs.{set_where, awaits_confirmation}
use tezos_api_gateway.Database.Operations.{OperationValues, row_of, rows_of, all_exist, job_exists}
use tezos_api_gateway.Gateway.Steps.{member, id_of}
use tezos_api_gateway.Gateway.Invariant.{IsDistinct, HashOf, has_hash, job_of}

pub member-append : (k : ℕ) (is js : List ℕ) → member k is ≡ true → member k (is ++ js) ≡ true
member-append k [] js h = cc
member-append k (i ∷ is) js h = ground (arith, member-append k is js)

pub member-below :
    (n : ℕ) (is : List ℕ) → All (λ i. i < n) is → (k : ℕ) → member k is ≡ true → k < n
member-below n [] h k m = cc
member-below n (i ∷ is) (h, hs) k m = ground (arith, member-below n is hs k)

pub below-suc : (n : ℕ) (is : List ℕ) → All (λ i. i < n) is → All (λ i. i < n + 1) (is ++ n ∷ [])
below-suc n [] h = (omega arith, tt)
below-suc n (i ∷ is) (h, hs) = (omega (arith, h), below-suc n is hs)

member-snoc :
    (k n : ℕ) (is : List ℕ)
    → member k is ≡ false
    → (n == k) ≡ false
    → member k (is ++ n ∷ []) ≡ false
member-snoc k n [] h d = ground arith
member-snoc k n (i ∷ is) h d = ground (arith, member-snoc k n is)

pub IsDistinct-snoc :
    (n : ℕ) (is : List ℕ) → All (λ i. i < n) is → IsDistinct is → IsDistinct (is ++ n ∷ [])
IsDistinct-snoc n [] h d = (refl, tt)
IsDistinct-snoc n (i ∷ is) (h, hs) (new, d) =
    (member-snoc i n is new (ground arith), IsDistinct-snoc n is hs d)

pub map-snoc :
    (jobs : List Job) (job : Job) → map id_of (jobs ++ job ∷ []) ≡ map id_of jobs ++ job.id ∷ []
map-snoc [] job = refl
map-snoc (j ∷ jobs) job = ap (λ is. j.id ∷ is) (map-snoc jobs job)

-- An UPDATE that leaves the ids alone.
module _ (id : ℕ) (change : Job → Job) (same : (j : Job) → (change j).id ≡ j.id) where
  pub ids-set_where : (jobs : List Job) → map id_of (set_where id change jobs) ≡ map id_of jobs
  unfolding set_where
  ids-set_where [] = refl
  ids-set_where (j ∷ jobs) = ground (arith, ids-set_where jobs, same j)

-- A predicate that the change keeps on the rows that it meets.
pub All-set_where :
    (P : Job → Type 0) (id : ℕ) (change : Job → Job) (jobs : List Job)
    → All (λ j. P j) jobs
    → All (λ j. (j.id == id) ≡ true → P (change j)) jobs
    → All P (set_where id change jobs)
unfolding set_where
All-set_where P id change [] h c = tt
All-set_where P id change (j ∷ jobs) (h, hs) (c, cs) =
    (go (j.id == id) refl, All-set_where P id change jobs hs cs)
  where
    go : (b : Bool) → (j.id == id) ≡ b → P (if b then change j else j)
    go true e = c e
    go false e = h

pub All-weaken :
    {A : Type 0} (P Q : A → Type 0) (xs : List A) → ((x : A) → P x → Q x) → All P xs → All Q xs
All-weaken P Q [] f h = tt
All-weaken P Q (x ∷ xs) f (h, hs) = (f x h, All-weaken P Q xs f hs)

pub All-every : {A : Type 0} (P : A → Type 0) (xs : List A) → ((x : A) → P x) → All P xs
All-every P [] f = tt
All-every P (x ∷ xs) f = (f x, All-every P xs f)

-- What a worker has read: a row with this id, a status and a hash. By the distinct ids it is the one row.
HashOf-absent : (k : ℕ) (jobs : List Job) → member k (map id_of jobs) ≡ false → HashOf k jobs
HashOf-absent k [] h = tt
HashOf-absent k (j ∷ jobs) h = ground (arith, HashOf-absent k jobs)

pub member-keep :
    (k : ℕ) (p : Job → Bool) (jobs : List Job)
    → member k (map id_of (keep p jobs)) ≡ true
    → member k (map id_of jobs) ≡ true
member-keep k p [] h = cc
member-keep k p (j ∷ jobs) h = ground (arith, member-keep k p jobs)

eq_of : (i k : ℕ) → (i == k) ≡ true → i ≡ k
eq_of i k h = ground arith

awaits-has_hash : (j : Job) → awaits_confirmation j ≡ true → has_hash j ≡ true
awaits-has_hash j h = ground arith

pub HashOf-observed :
    (k : ℕ) (jobs : List Job)
    → IsDistinct (map id_of jobs)
    → member k (map id_of (keep awaits_confirmation jobs)) ≡ true
    → HashOf k jobs
HashOf-observed k [] d m = cc
HashOf-observed k (j ∷ jobs) (new, d) m =
    let absent = HashOf-absent k jobs in
    let rest = HashOf-observed k jobs d in
    let there = member-keep k awaits_confirmation jobs in
    elim (Bool-cases (j.id == k)) [
      | inl hit ↦
          let others =
            absent (subst (λ i. member i (map id_of jobs) ≡ false) (eq_of j.id k hit) new) in
          elim (Bool-cases (awaits_confirmation j)) [
            | inl waits ↦ (ground (arith, awaits-has_hash j waits), others)
            | inr idle ↦
                let gone = subst (λ i. member i (map id_of jobs) ≡ false) (eq_of j.id k hit) new in
                ground (arith, there, gone)
          ]
      | inr miss ↦ ground (arith, rest)
    ]

pub job_exists-member : (id : ℕ) (jobs : List Job) → job_exists id jobs ≡ member id (map id_of jobs)
unfolding job_exists
job_exists-member id [] = refl
job_exists-member id (j ∷ jobs) = ground (arith, job_exists-member id jobs)

pub rows_of-owned :
    (jobs : List Job) (n : ℕ) (vs : List OperationValues) (rows : List Operation)
    → rows_of n vs ≡ some rows
    → all_exist jobs vs ≡ true
    → All (λ op. member (job_of op) (map id_of jobs) ≡ true) rows
unfolding rows_of row_of all_exist
rows_of-owned jobs n [] rows e h = ground arith
rows_of-owned jobs n (v ∷ vs) rows e h = elim (Option-cases (rows_of (suc n) vs)) [
  | inl refused ↦ ground arith
  | inr (more, stored) ↦
      let ih = rows_of-owned jobs (suc n) vs more stored in
      ground (arith, ih, job_exists-member v.job_id jobs)
]
