-- ===== src/Broker/Laws.antt =====
-- What `message_handler` does with the deliveries of a queue.
use tezos_api_gateway.Base.{
  ℕ, ◌≡◌, ◌⊎◌, Bool, true, false, none, some, List, [], ◌∷◌, ◌++◌, map, arith, inl, inr, Bool-cases,
  Option-cases,
}
use tezos_api_gateway.Base.Lists.{append_nil, append_assoc}
use tezos_api_gateway.Value.{Value, truthy}
use tezos_api_gateway.Exceptions.{ok, err, Result-cases}
use tezos_api_gateway.Database.Effect.{Action}
use tezos_api_gateway.Broker.{
  Delivery, Channel, Consumer, validate_message, handle_content, message_handler, consume_all,
}

abbrev pub tag_of : Delivery → ℕ
tag_of msg = msg.tag

abbrev pub parses : Consumer → Delivery → Bool
parses consumer msg = elim (consumer.parse msg.content) [ ok _ ↦ true | err _ ↦ false ]

-- The deliveries before the first that fails the test.
abbrev pub before_failure : (Delivery → Bool) → List Delivery → List Delivery
before_failure p [] = []
before_failure p (msg ∷ msgs) = elim (p msg) [ true ↦ msg ∷ before_failure p msgs | false ↦ [] ]

module _ (consumer : Consumer) (handler : Value → Action (Unit {0})) where
  handle_content-acked :
      (value : Value) (msg : Delivery) (c : Channel)
      → (handle_content consumer handler value msg c).acked ≡ c.acked ++ msg.tag ∷ []
  unfolding handle_content
  handle_content-acked value msg c = elim (Result-cases (validate_message consumer value)) [
    | inr (e, failed) ↦ ground arith
    | inl (none, invalid) ↦ ground arith
    | inl (some v, valid) ↦ ground arith
  ]

  -- Of the messages of a queue, those before the first that is not JSON are acknowledged, each once and
  -- in their order, whether they are valid or not and whatever the handler throws. From that one
  -- on none is: the channel waits for its acknowledgement.
  pub consume_all-acked :
      (msgs : List Delivery) (c : Channel)
      → (consume_all consumer handler msgs c).acked
        ≡ c.acked ++ map tag_of (before_failure (parses consumer) msgs)
  unfolding consume_all message_handler
  consume_all-acked [] c = ground (arith, append_nil c.acked)
  consume_all-acked (msg ∷ msgs) c = elim (Result-cases (consumer.parse msg.content)) [
    | inr (e, failed) ↦ ground (arith, append_nil c.acked)
    | inl (value, parsed) ↦
        let c₁ = handle_content consumer handler value msg c in
        let here = handle_content-acked value msg c in
        let rest = consume_all-acked msgs c₁ in
        ground (
          arith,
          here,
          rest,
          append_assoc c.acked (msg.tag ∷ []) (map tag_of (before_failure (parses consumer) msgs)),
        )
  ]

  validated : (v u : Value) → validate_message consumer v ≡ ok (some u) → u ≡ v
  unfolding validate_message
  validated v u e = elim (Option-cases consumer.schema) [
    | inl missing ↦ ground arith
    | inr (schema, set) ↦ elim (Result-cases (consumer.compile schema)) [
      | inr (x, failed) ↦ ground arith
      | inl (check, compiled) ↦ ground arith
    ]
  ]

  -- A message reaches the handler exactly where it parses, validates against the schema of the
  -- service and is truthy; otherwise the world stays as it is.
  pub message_handler-world :
      (msg : Delivery) (c : Channel)
      → let end = (message_handler consumer handler (some msg) c).1.world in
        ((v : Value) × (consumer.parse msg.content ≡ ok v)
          × (validate_message consumer v ≡ ok (some v))
          × (truthy v ≡ true)
          × (end ≡ (handler v c.world).1))
        ⊎ ((end ≡ c.world)
            × ((v : Value)
                → consumer.parse msg.content ≡ ok v
                → (validate_message consumer v ≡ ok (some v))
                → truthy v ≡ false))
  unfolding message_handler handle_content validate_message
  message_handler-world msg c = elim (Result-cases (consumer.parse msg.content)) [
    | inr (e, failed) ↦ inr (ground arith, λ v p valid. ground arith)
    | inl (v, parsed) ↦ elim (Result-cases (validate_message consumer v)) [
      | inr (e, failed) ↦ inr (ground arith, λ u p valid. ground arith)
      | inl (none, invalid) ↦ inr (ground arith, λ u p valid. ground arith)
      | inl (some u, valid) ↦
          let same : u ≡ v = validated v u valid in
          elim (Bool-cases (truthy v)) [
            | inl solid ↦ inl (v, parsed, ground (arith, same), solid, ground (arith, same))
            | inr empty ↦ inr (ground (arith, same), λ u p again. ground arith)
          ]
    ]
  ]
