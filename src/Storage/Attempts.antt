-- ===== src/Storage/Attempts.antt =====
-- `tryGetFromMap` of lib/storage/convert-storage.ts: a map of the chain is asked again after a 502.
use tezos_api_gateway.Base.{
  ℕ, zero, suc, ◌≡◌, ◌⊎◌, ◌+◌, ◌≤◌, ◌<◌, refl, Bool, true, false, ◌==◌, Option, none, some, arith,
  inl, inr, Bool-cases, ap, subst,
}
use tezos_api_gateway.Value.{Value}
use tezos_api_gateway.Exceptions.{Exn, Result, ok, err}

-- `err.status === 502`
abbrev pub is_bad_gateway : (Exn → Option ℕ) → Result Value → Bool
is_bad_gateway status (ok v) = false
is_bad_gateway status (err e) = elim (status e) [ none ↦ false | some n ↦ n == 502 ]

-- The calls of `map.get(key)` are numbered from `n`; the second component counts those that are made.
unfoldable pub try_get_from_map :
    (Exn → Option ℕ) → (ℕ → Result Value) → (remaining n : ℕ) → Result Value × ℕ
try_get_from_map status get zero n = (get n, 1)
try_get_from_map status get (suc remaining) n =
    let again = try_get_from_map status get remaining (suc n) in
    elim (is_bad_gateway status (get n)) [ true ↦ (again.0, again.1 + 1) | false ↦ (get n, 1) ]

module _ (status : Exn → Option ℕ) (get : ℕ → Result Value) where
  at_start : (n : ℕ) → n ≡ n + 0
  at_start n = omega arith

  shift : (n last : ℕ) → suc n + last ≡ n + (last + 1)
  shift n last = omega arith

  shift_suc : (n i : ℕ) → suc n + i ≡ n + suc i
  shift_suc n i = omega arith

  earlier :
      (n last : ℕ)
      → is_bad_gateway status (get n) ≡ true
      → ((i : ℕ) → i < last → is_bad_gateway status (get (suc n + i)) ≡ true)
      → (i : ℕ) → i < last + 1
      → is_bad_gateway status (get (n + i)) ≡ true
  earlier n last bad failed zero small =
      subst (λ k. is_bad_gateway status (get k) ≡ true) (at_start n) bad
  earlier n last bad failed (suc i) small =
      subst (λ k. is_bad_gateway status (get k) ≡ true) (shift_suc n i)
        (failed i (omega (arith, small)))

  at_end :
      (n remaining last : ℕ)
      → ((last ≡ remaining) ⊎ (is_bad_gateway status (get (suc n + last)) ≡ false))
      → ((last + 1 ≡ suc remaining) ⊎ (is_bad_gateway status (get (n + (last + 1))) ≡ false))
  at_end n remaining last (inl spent) = inl (omega (arith, spent))
  at_end n remaining last (inr final) =
      inr (subst (λ k. is_bad_gateway status (get k) ≡ false) (shift n last) final)

  -- A key of a map of the chain is asked for at least once and at most once more than the attempts that
  -- remain. The answer is that of the last call; each call before has ended in a 502, and so
  -- has the last one only where no attempt remained.
  pub try_get_from_map-bound :
      (remaining n : ℕ)
      → let (answer, calls) = try_get_from_map status get remaining n in
        (last : ℕ) × (calls ≡ last + 1)
        × (last ≤ remaining)
        × (answer ≡ get (n + last))
        × ((i : ℕ) → i < last → is_bad_gateway status (get (n + i)) ≡ true)
        × ((last ≡ remaining) ⊎ (is_bad_gateway status (get (n + last)) ≡ false))
  unfolding try_get_from_map
  try_get_from_map-bound zero n =
      (0, refl, omega arith, ap get (at_start n), λ i few. absurd (omega (arith, few)), inl refl)
  try_get_from_map-bound (suc remaining) n = elim (Bool-cases (is_bad_gateway status (get n))) [
    | inr final ↦ (
      0,
      ground (arith, final),
      omega arith,
      ground (arith, final, ap get (at_start n)),
      λ i few. absurd (omega (arith, few)),
      inr (subst (λ k. is_bad_gateway status (get k) ≡ false) (at_start n) final),
    )
    | inl bad ↦
        let (last, calls, few, answer, failed, end) = try_get_from_map-bound remaining (suc n) in
        (
          last + 1,
          ground (arith, bad, calls),
          omega (arith, few),
          ground (arith, bad, answer, ap get (shift n last)),
          λ i small. earlier n last bad failed i small,
          at_end n remaining last end,
        )
  ]
