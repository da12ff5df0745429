-- ===== src/Injection/Roundtrip.antt =====
-- From `insertOperations` of models/operations.ts to `mapOperations` of lib/jobs/inject-operation.ts:
-- what was forged is what is preapplied.
use tezos_api_gateway.Base.{
  ℕ, suc, String, ◌≡◌, ◌≢◌, ap, Option, none, some, List, [], ◌∷◌, ◌++◌, map, arith, ◌⊎◌, inl, inr,
  Bool, Bool-cases, Option-cases, true,
}
use tezos_api_gateway.Base.Lists.{keep, All, keep-append, keep_every}
use tezos_api_gateway.Base.Int.{ℤ}
use tezos_api_gateway.Base.Decimal.{to_string, parse_int-to_string}
use tezos_api_gateway.Exceptions.{ok, traverse}
use tezos_api_gateway.Database.Schema.{Operation, Store}
use tezos_api_gateway.Database.Effect.{World}
use mathlib.Core.List.{Perm}
use tezos_api_gateway.Database.Order.{arrange, arrange-All, traverse-arrange}
use tezos_api_gateway.Database.Operations.{
  selected, Contents, reveal_contents, transaction_contents, NewOperation, new_reveal,
  new_transaction, parsed, column, stringify, OperationValues, fits_int, map_operation_values,
  row_of, rows_of, insert_rows, insert_operations, of_job,
}
use tezos_api_gateway.Database.Answers.{insert_operations-eq-ok}
use tezos_api_gateway.Injection.Mapping.{parse_json, text_of, map_kind, map_operations}

-- The text of an integer, as JavaScript writes it.
abbrev pub IsDecimal : String → Type 0
IsDecimal s = (z : ℤ) × (s ≡ to_string z)

abbrev pub IsForged : NewOperation → Type 0
IsForged (new_reveal op) =
    IsDecimal op.fee × IsDecimal op.counter × IsDecimal op.gas_limit × IsDecimal op.storage_limit
IsForged (new_transaction op json) =
    IsDecimal op.amount
    × IsDecimal op.fee
    × IsDecimal op.storage_limit
    × IsDecimal op.gas_limit
    × IsDecimal op.counter

-- The contents that were forged, with the parameters as they come back from their JSON text.
abbrev pub forged : NewOperation → Contents
forged (new_reveal op) = reveal_contents op
forged (new_transaction op json) =
    transaction_contents (record op { parameters = parse_json (stringify op.parameters) })

-- A decimal text is stored as a number that is written back as the same text, or not stored.
stored :
    (s : String)
    → IsDecimal s
    → ((c : Option ℤ) × (column (parsed s) ≡ some c) × (text_of c ≡ ok s))
      ⊎ (column (parsed s) ≡ none)
unfolding column parsed text_of
stored s (z, e) = elim (Bool-cases (fits_int z)) [
  | inl fits ↦ inl (some z, ground (arith, parse_int-to_string z), ground arith)
  | inr wide ↦ inr (ground (arith, parse_int-to_string z))
]

-- What all rows have that satisfy a condition, the selected rows have.
pub selected-All :
    (P : Operation → Type 0) (condition : Operation → Bool) (w : World)
    → All P (keep condition w.store.operations)
    → All P (selected condition w)
selected-All P condition w h = arrange-All P (w.place w.store) (keep condition w.store.operations) h

pub selected_some :
    (condition : Operation → Bool) (w : World) {first : Operation} {rest : List Operation}
    → selected condition w ≡ first ∷ rest
    → keep condition w.store.operations ≢ []
unfolding arrange
selected_some condition w e nothing = ground (arith, e, ap (arrange (w.place w.store)) nothing)

pub map_operations-selected :
    (condition : Operation → Bool) (w : World) {known : List Contents}
    → map_operations (keep condition w.store.operations) ≡ ok known
    → (contents : List Contents) × (map_operations (selected condition w) ≡ ok contents)
      × Perm contents known
unfolding map_operations
map_operations-selected condition w {known} e =
    traverse-arrange (λ op. map_kind op.kind op) (w.place w.store)
      (keep condition w.store.operations) known e

module _ (now branch : String) (job_id : ℕ) (caller_id : String) where
  abbrev pub IsRowOf : NewOperation → Operation → Type 0
  IsRowOf new row =
      (map_kind row.kind row ≡ ok (forged new)) × (row.job_id ≡ job_id) × (row.branch ≡ some branch)

  row_of-IsRowOf :
      (id : ℕ) (new : NewOperation) (row : Operation)
      → IsForged new
      → row_of id (map_operation_values now branch job_id caller_id new) ≡ some row
      → IsRowOf new row
  unfolding row_of map_operation_values map_kind
  row_of-IsRowOf id (new_reveal op) row (fee, counter, gas, storage) e =
      let f = stored op.fee fee in
      let n = stored op.counter counter in
      let g = stored op.gas_limit gas in
      let t = stored op.storage_limit storage in
      (ground (arith, f, n, g, t), ground (arith, f, n, g, t), ground (arith, f, n, g, t))
  row_of-IsRowOf id (new_transaction op json) row (amount, fee, storage, gas, counter) e =
      let a = stored op.amount amount in
      let f = stored op.fee fee in
      let t = stored op.storage_limit storage in
      let g = stored op.gas_limit gas in
      let n = stored op.counter counter in
      (ground (arith, a, f, t, g, n), ground (arith, a, f, t, g, n), ground (arith, a, f, t, g, n))

  rows_of-IsRowOf :
      (id : ℕ) (news : List NewOperation) (rows : List Operation)
      → All IsForged news
      → rows_of id (map (map_operation_values now branch job_id caller_id) news) ≡ some rows
      → (map_operations rows ≡ ok (map forged news))
        × All (λ row. of_job job_id row ≡ true) rows
        × All (λ row. row.branch ≡ some branch) rows
  unfolding rows_of map_operations traverse
  rows_of-IsRowOf id [] rows h e = ground arith
  rows_of-IsRowOf id (new ∷ news) rows (h, hs) e =
      elim (Option-cases (row_of id (map_operation_values now branch job_id caller_id new))) [
        | inl refused ↦ ground arith
        | inr (row, stored_row) ↦
            elim (Option-cases
              (rows_of (suc id) (map (map_operation_values now branch job_id caller_id) news))) [
                | inl refused ↦ ground arith
                | inr (more, stored_rows) ↦
                    let is_row = row_of-IsRowOf id new row h stored_row in
                    let ih = rows_of-IsRowOf (suc id) news more hs stored_rows in
                    let same : rows ≡ row ∷ more = ground arith in
                    rw same (
                      ground (arith, is_row, ih),
                      ground (arith, is_row, ih),
                      ground (arith, is_row, ih),
                    )
              ]
      ]

  insert_rows-stored :
      (vs : List OperationValues) (s : Store) (rows : List Operation)
      → (insert_rows vs s).0 ≡ ok rows
      → (rows_of s.next_operation vs ≡ some rows)
        × ((insert_rows vs s).1.operations ≡ s.operations ++ rows)
  unfolding insert_rows
  insert_rows-stored [] s rows e = cc
  insert_rows-stored (v ∷ vs) s rows e = elim (Option-cases (rows_of s.next_operation (v ∷ vs))) [
    | inl refused ↦ ground arith
    | inr (found, stored_rows) ↦ (ground arith, ground arith)
  ]

  -- The rows of a job, in the order of their insertion, stand for the contents that were inserted.
  pub map_operations-stored :
      (news : List NewOperation) (w w' : World) (rows : List Operation)
      → All IsForged news
      → keep (of_job job_id) w.store.operations ≡ []
      → insert_operations now news branch job_id caller_id w ≡ (ok rows, w')
      → (map_operations (keep (of_job job_id) w'.store.operations) ≡ ok (map forged news))
        × All (λ row. row.branch ≡ some branch) (keep (of_job job_id) w'.store.operations)
  map_operations-stored news w w' rows h fresh e =
      let vs = map (map_operation_values now branch job_id caller_id) news in
      let done = insert_operations-eq-ok now news branch job_id caller_id w e in
      let (found, kept) = insert_rows-stored vs w.store rows done.0 in
      let (mapped, mine, branches) = rows_of-IsRowOf w.store.next_operation news rows h found in
      let all_mine : keep (of_job job_id) w'.store.operations ≡ rows =
        rw (done.1, kept, keep-append (of_job job_id) w.store.operations rows, fresh)
          (keep_every (of_job job_id) rows mine) in
      rw all_mine (mapped, branches)

  -- Contents with decimal numbers, inserted for a job that has no rows yet, are read back for that
  -- job in the order in which the database gives the rows: these stand for a permutation of the
  -- contents, with their parameters as JSON keeps them, and carry the branch that they were forged on.
  pub map_operations-insert_operations :
      (news : List NewOperation) (w w' : World) (rows : List Operation)
      → All IsForged news
      → keep (of_job job_id) w.store.operations ≡ []
      → insert_operations now news branch job_id caller_id w ≡ (ok rows, w')
      → (contents : List Contents) × (map_operations (selected (of_job job_id) w') ≡ ok contents)
        × Perm contents (map forged news)
        × All (λ row. row.branch ≡ some branch) (selected (of_job job_id) w')
  map_operations-insert_operations news w w' rows h fresh e =
      let (mapped, branches) = map_operations-stored news w w' rows h fresh e in
      let (contents, read, same) = map_operations-selected (of_job job_id) w' mapped in
      (contents, read, same, selected-All _ (of_job job_id) w' branches)
