-- ===== src/GatewayPool.antt =====
-- services/gateway-pool.ts: the choice of a Tezos node that answers.
use tezos_api_gateway.Base.{
  ℕ, zero, suc, String, ◌≡◌, ◌≤◌, ◌<◌, ◌+◌, Bool, true, false, not, Option, none, some, List,
  is_empty, arith, inl, inr, Bool-cases, ap, sym, ◌∙◌,
}
use tezos_api_gateway.Base.Lists.{get_elem?}
use tezos_api_gateway.Exceptions.{Result, ok, err}

-- The nodes; the numbers that `generateRandomInt` draws, by the draw; and the hash of the latest
-- block, as the node that is drawn answers then. An index past the list gives a service without a URL.
pub record GatewayPool : Type 0 where
  pub tezos_node_urls : List String
  pub random : ℕ → ℕ
  pub latest_hash : ℕ → Option String → Result String

-- `getRandomNodeURL`
unfoldable pub get_random_node_url : GatewayPool → ℕ → Option String
get_random_node_url pool draw = get_elem? pool.tezos_node_urls (pool.random draw)

-- `healthCheck` of the service that is drawn.
unfoldable pub health_check : GatewayPool → ℕ → Bool
unfolding get_random_node_url
health_check pool draw = elim (pool.latest_hash draw (get_random_node_url pool draw)) [
  | ok hash ↦ not (is_empty hash)
  | err e ↦ false
]

-- `getTezosService`, from a draw on, for at most so many draws; `none` where they are spent.
unfoldable pub get_tezos_service : GatewayPool → (fuel draw : ℕ) → Option (Option String)
unfolding health_check get_random_node_url
get_tezos_service pool zero draw = none
get_tezos_service pool (suc fuel) draw =
    let rest = get_tezos_service pool fuel (suc draw) in
    elim (health_check pool draw) [ true ↦ some (get_random_node_url pool draw) | false ↦ rest ]

module _ (pool : GatewayPool) where
  shift : (draw k : ℕ) → suc draw + k ≡ draw + suc k
  shift draw k = omega arith

  at_start : (draw : ℕ) → draw + 0 ≡ draw
  at_start draw = omega arith

  earlier :
      (draw k : ℕ)
      → health_check pool draw ≡ false
      → ((i : ℕ) → i < k → health_check pool (suc draw + i) ≡ false)
      → (i : ℕ) → i < suc k
      → health_check pool (draw + i) ≡ false
  earlier draw k ill before zero small = ap (health_check pool) (at_start draw) ∙ ill
  earlier draw k ill before (suc i) small =
      ap (health_check pool) (sym (shift draw i)) ∙ before i (omega (arith, small))

  found_at_once :
      (draw : ℕ)
      → health_check pool draw ≡ true
      → (fuel : ℕ) → 0 < fuel
      → get_tezos_service pool fuel draw ≡ some (get_random_node_url pool (draw + 0))
  unfolding get_tezos_service
  found_at_once draw well zero more = absurd (omega (arith, more))
  found_at_once draw well (suc fuel) more =
      let same = ap (λ d. some (get_random_node_url pool d)) (at_start draw) in
      ground (arith, well) ∙ sym same

  found_later :
      (draw k : ℕ)
      → health_check pool draw ≡ false
      → ((fuel : ℕ)
          → k < fuel
          → get_tezos_service pool fuel (suc draw) ≡ some (get_random_node_url pool (suc draw + k)))
      → (fuel : ℕ) → suc k < fuel
      → get_tezos_service pool fuel draw ≡ some (get_random_node_url pool (draw + suc k))
  unfolding get_tezos_service
  found_later draw k ill rest zero more = absurd (omega (arith, more))
  found_later draw k ill rest (suc fuel) more =
      let same = ap (λ d. some (get_random_node_url pool d)) (shift draw k) in
      ground (arith, ill) ∙ (rest fuel (omega (arith, more)) ∙ same)

  -- The choice of a node ends as soon as some draw is answered by a healthy node: with fuel for
  -- more draws than the first healthy one, it gives the node of that draw, and every draw before
  -- has met a node that failed or had no block.
  pub get_tezos_service-terminates :
      (m draw : ℕ)
      → health_check pool (draw + m) ≡ true
      → (k : ℕ) × (k ≤ m)
        × (health_check pool (draw + k) ≡ true)
        × ((i : ℕ) → i < k → health_check pool (draw + i) ≡ false)
        × ((fuel : ℕ)
            → k < fuel
            → get_tezos_service pool fuel draw ≡ some (get_random_node_url pool (draw + k)))
  get_tezos_service-terminates zero draw h = (
    0,
    omega arith,
    h,
    λ i few. absurd (omega (arith, few)),
    found_at_once draw (ap (health_check pool) (sym (at_start draw)) ∙ h),
  )
  get_tezos_service-terminates (suc m) draw h = elim (Bool-cases (health_check pool draw)) [
    | inl well ↦ (
      0,
      omega arith,
      ap (health_check pool) (at_start draw) ∙ well,
      λ i few. absurd (omega (arith, few)),
      found_at_once draw well,
    )
    | inr ill ↦
        let (k, small, well, before, found) =
          get_tezos_service-terminates m (suc draw) (ap (health_check pool) (shift draw m) ∙ h) in
        (
          suc k,
          omega (arith, small),
          ap (health_check pool) (sym (shift draw k)) ∙ well,
          earlier draw k ill before,
          found_later draw k ill found,
        )
  ]
