-- ===== src/Gateway/Interleaved.antt =====
-- A job between its forge and its injection, while every process of the gateway goes on.
use tezos_api_gateway.Base.{
  ℕ, suc, String, ◌≡◌, ◌∙◌, refl, sym, subst, ap, true, false, Option, none, some, List, [], ◌∷◌,
  ◌++◌, map, arith, inl, inr, Option-cases, ◌==◌,
}
use tezos_api_gateway.Base.Lists.{keep, All, keep-append, append_nil}
use tezos_api_gateway.Base.Int.{ℤ}
use mathlib.Core.List.{Perm}
use tezos_api_gateway.Exceptions.{ok, traverse}
use tezos_api_gateway.Database.Schema.{OpKind, reveal, transaction, Operation}
use tezos_api_gateway.Database.Effect.{World}
use tezos_api_gateway.Database.Jobs.{has_quote, set_where, with_hash}
use tezos_api_gateway.Database.Operations.{
  Contents, selected, NewOperation, OperationValues, of_job, rows_of, row_of, date_where,
}
use tezos_api_gateway.Injection.{Node, PatchJobParams, inject_operation}
use tezos_api_gateway.Injection.Mapping.{map_operations, map_kind}
use tezos_api_gateway.Injection.Laws.{inject_operation-IsInjected}
use tezos_api_gateway.Injection.Roundtrip.{forged, selected-All, map_operations-selected}
use tezos_api_gateway.Forge.{contents_of, ForgedJob, forge_operation}
use tezos_api_gateway.Forge.Node.{TezosService, ForgeOperationParams, counter_of}
use tezos_api_gateway.Forge.Stored.{forge_operation-IsStored}
use tezos_api_gateway.Gateway.Steps.{
  State, Step, Reach, create, add, publish, publish_sent, observe, finish, give_up, mark, date,
  here, next, member, id_of,
}
use tezos_api_gateway.Gateway.Runs.{at}
use tezos_api_gateway.Gateway.Invariant.{IsSound, job_of}
use tezos_api_gateway.Gateway.Invariant.Lists.{member-below}
use tezos_api_gateway.Gateway.Soundness.{add-cases}

-- A row without the date that the confirmation worker sets.
abbrev pub undated : Operation → Operation
undated op = record op { update_date = none }

abbrev pub rows_for : ℕ → State → List Operation
rows_for id s = keep (of_job id) s.store.operations

-- Rows are inserted for other jobs alone.
abbrev pub Other : ℕ → ℕ → Type 0
Other id k = (k == id) ≡ false

unused :
    (n : ℕ) (ids : List ℕ) (ops : List Operation)
    → ((k : ℕ) → member k ids ≡ true → (k == n) ≡ false)
    → All (λ op. member (job_of op) ids ≡ true) ops
    → keep (of_job n) ops ≡ []
unused n ids [] below h = refl
unused n ids (op ∷ ops) below (h, hs) = ground (arith, below op.job_id h, unused n ids ops below hs)

pub fresh : (s : State) → IsSound s → rows_for s.store.next_job s ≡ []
fresh s h =
    unused s.store.next_job (map id_of s.store.jobs) s.store.operations
      (λ k m. ground (arith, member-below s.store.next_job (map id_of s.store.jobs) h.below k m))
      h.owned

rows_of-others :
    (id n : ℕ) (vs : List OperationValues) (rows : List Operation)
    → All (λ v. Other id v.job_id) vs
    → rows_of n vs ≡ some rows
    → keep (of_job id) rows ≡ []
unfolding rows_of row_of
rows_of-others id n [] rows h e = ground arith
rows_of-others id n (v ∷ vs) rows (h, hs) e = elim (Option-cases (rows_of (suc n) vs)) [
  | inl refused ↦ ground arith
  | inr (more, stored) ↦
      let ih = rows_of-others id (suc n) vs more hs stored in ground (arith, ih, h)
]

date_where-undated :
    (now : String) (k id : ℕ) (ops : List Operation)
    → map undated (keep (of_job id) (date_where now k ops)) ≡ map undated (keep (of_job id) ops)
unfolding date_where
date_where-undated now k id [] = refl
date_where-undated now k id (op ∷ ops) = ground (arith, date_where-undated now k id ops)

Step-keeps :
    (id : ℕ) {s t : State}
    → Step (Other id) s t
    → map undated (rows_for id t) ≡ map undated (rows_for id s)
Step-keeps id (create s new is_created no_hash) = refl
Step-keeps id (add s vs others) = elim (add-cases vs s.store) [
  | inl nothing ↦ ap (λ t. map undated (keep (of_job id) t.operations)) nothing
  | inr (rows, good, there, added) ↦
      let none_new = rows_of-others id s.store.next_operation vs rows others good in
      let old = keep (of_job id) s.store.operations in
      ap (λ t. map undated (keep (of_job id) t.operations)) added
      ∙ ap (map undated) (
          keep-append (of_job id) s.store.operations rows
          ∙ (ap (λ r. old ++ r) none_new ∙ append_nil old))
]
Step-keeps id (publish s k hash) = refl
Step-keeps id (publish_sent s k hash) = refl
Step-keeps id (observe s) = refl
Step-keeps id (finish s k known) = refl
Step-keeps id (give_up s k) = refl
Step-keeps id (mark s k message) = refl
Step-keeps id (date s now k) = date_where-undated now k id s.store.operations

-- Whatever the processes do, the rows of a job, in the order of insertion, keep all their columns but
-- the date, as long as no row is inserted for that job.
pub Reach-keeps :
    (id : ℕ) {s t : State}
    → Reach (Other id) s t
    → map undated (rows_for id t) ≡ map undated (rows_for id s)
Reach-keeps id here = refl
Reach-keeps id (next r step) = Step-keeps id step ∙ Reach-keeps id r

map_kind-undated : (kind : OpKind) (op : Operation) → map_kind kind (undated op) ≡ map_kind kind op
unfolding map_kind
map_kind-undated reveal op = refl
map_kind-undated transaction op = refl

map_operations-undated :
    (ops : List Operation) → map_operations (map undated ops) ≡ map_operations ops
unfolding map_operations traverse
map_operations-undated [] = refl
map_operations-undated (op ∷ ops) =
    ground (arith, map_kind-undated op.kind op, map_operations-undated ops)

branches-undated :
    (b : Option String) (ops : List Operation)
    → All (λ op. op.branch ≡ b) ops
    → All (λ op. op.branch ≡ b) (map undated ops)
branches-undated b [] h = tt
branches-undated b (op ∷ ops) (h, hs) = (h, branches-undated b ops hs)

undated-branches :
    (b : Option String) (ops : List Operation)
    → All (λ op. op.branch ≡ b) (map undated ops)
    → All (λ op. op.branch ≡ b) ops
undated-branches b [] h = tt
undated-branches b (op ∷ ops) (h, hs) = (h, undated-branches b ops hs)

module _ (tezos : TezosService) (node : Node) (now : String) (params : ForgeOperationParams)
    (patch : PatchJobParams) (w v u w' : World) (z : ℤ) (result : ForgedJob)
    (before after : List ℕ) where
  -- The operations that a client signs are those that are preapplied, whatever the other processes do in
  -- between. The tables are sound, a forge returns, then any sequence of steps follows that inserts no
  -- row for the new job, and then an injection of this job returns: the operations that were forged
  -- are, on their branch and with their parameters as JSON keeps them, those that are preapplied
  -- with the signature, in the order in which the database gives the rows, and the job gets the hash
  -- of the injection. The counter of the node must be a number and the hash must hold no quote.
  pub inject_operation-Reach-forge_operation :
      counter_of tezos params.source_address ≡ ok (some z)
      → IsSound (at before w.store)
      → ((hash : String) → node.inject patch.signed_transaction ≡ ok hash → has_quote hash ≡ false)
      → patch.job_id ≡ result.job.id
      → forge_operation tezos now params w ≡ (ok result, v)
      → Reach (Other result.job.id) (at before v.store) (at after u.store)
      → inject_operation node patch u ≡ (ok tt, w')
      → (ops : List NewOperation) × (contents : List Contents) × (branch bytes hash : String)
        × (tezos.forge (map contents_of ops) ≡ ok (branch, bytes))
        × Perm contents (map forged ops)
        × (node.preapply (some branch) contents patch.signature ≡ ok tt)
        × (node.inject patch.signed_transaction ≡ ok hash)
        × (w'.store.jobs ≡ set_where result.job.id (with_hash hash) u.store.jobs)
  inject_operation-Reach-forge_operation at_node sound plain same forging steps injecting =
      let id = result.job.id in
      let empty = fresh (at before w.store) sound in
      let stored = forge_operation-IsStored tezos now params w v z result at_node empty forging in
      let injected = inject_operation-IsInjected node patch u w' plain injecting in
      let old = keep (of_job id) v.store.operations in
      let now_there = keep (of_job id) u.store.operations in
      let rows : map undated old ≡ map undated now_there = sym (Reach-keeps id steps) in
      let mapped : map_operations now_there ≡ ok (map forged stored.ops) =
        sym (map_operations-undated now_there)
        ∙ (ap map_operations (sym rows) ∙ (map_operations-undated old ∙ stored.mapped)) in
      let branches : All (λ op. op.branch ≡ some stored.branch) now_there =
        undated-branches (some stored.branch) now_there (
          subst (λ rs. All (λ op. op.branch ≡ some stored.branch) rs) rows
            (branches-undated (some stored.branch) old stored.branches)) in
      let found : selected (of_job id) u ≡ injected.first ∷ injected.rest =
        rw (sym same) injected.found in
      let branch : injected.first.branch ≡ some stored.branch =
        (subst (λ rs. All (λ op. op.branch ≡ some stored.branch) rs) found
          (selected-All _ (of_job id) u branches)).0 in
      let (contents, read, perm) = map_operations-selected (of_job id) u mapped in
      let shown : injected.contents ≡ contents =
        ground (arith, ap map_operations found, read, injected.mapped) in
      (
        stored.ops,
        contents,
        stored.branch,
        stored.bytes,
        injected.hash,
        stored.forged_by_node,
        perm,
        rw (sym branch, sym shown) injected.preapplied,
        injected.injected,
        rw (sym same) injected.jobs,
      )
