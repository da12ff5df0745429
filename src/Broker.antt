-- ===== src/Broker.antt =====
-- services/amqp.ts: what becomes of a message of a queue, and the handlers of the two workers that
-- consume (processes/workers/injection/ and processes/workers/send-transactions/).
pub mod Laws
pub mod Handlers
use tezos_api_gateway.Base.{
  ℕ, String, Bool, true, false, Option, none, some, List, [], ◌∷◌, ◌++◌, is_empty, if◌then◌else◌,
}
use tezos_api_gateway.Base.Int.{ℤ, pos}
use tezos_api_gateway.Value.{Value, undef, bool, num, str, arr, obj, get, values, truthy, Fields}
use tezos_api_gateway.Exceptions.{Exn, missing_message_validation_schema, Result, ok, err, ◌>>=◌}
use tezos_api_gateway.Database.Effect.{World, Action}
use tezos_api_gateway.Injection.{Node, PatchJobParams, inject_operation}

-- `ConsumeMessage`
pub record Delivery : Type 0 where
  pub tag : ℕ
  pub content : String

-- The world, and the deliveries that the channel has acknowledged.
pub record Channel : Type 0 where
  pub world : World
  pub acked : List ℕ

-- The schema of the service; `JSON.parse`; and what Ajv says of a value, or that it cannot compile the schema.
pub record Consumer : Type 0 where
  pub schema : Option Value
  pub parse : String → Result Value
  pub compile : Value → Result (Value → Bool)

abbrev pub ack : Delivery → Channel → Channel
ack msg c = record c { acked = c.acked ++ msg.tag ∷ [] }

module _ (consumer : Consumer) where
  -- `validateMessage`, where `null` is `none`.
  unfoldable pub validate_message : Value → Result (Option Value)
  validate_message value = elim consumer.schema [
    | none ↦ err missing_message_validation_schema
    | some schema ↦ do
      valid ← consumer.compile schema
      ok (if valid value then some value else none)
  ]

  abbrev run_handler : (Value → Action (Unit {0})) → Value → Delivery → Channel → Channel
  run_handler handler value msg c = ack msg (record c { world = (handler value c.world).1 })

  -- From the parsed content to the end: the exceptions of the validation and of the handler are logged.
  unfoldable pub handle_content : (Value → Action (Unit {0})) → Value → Delivery → Channel → Channel
  unfolding validate_message
  handle_content handler value msg c = elim (validate_message value) [
    | err e ↦ ack msg c
    | ok none ↦ ack msg c
    | ok (some v) ↦ if truthy v then run_handler handler v msg c else ack msg c
  ]

  -- `messageHandler`
  unfoldable pub message_handler :
      (Value → Action (Unit {0})) → Option Delivery → Channel → Result (Unit {0}) × Channel
  unfolding handle_content
  message_handler handler none c = (ok tt, c)
  message_handler handler (some msg) c = elim (consumer.parse msg.content) [
    | err e ↦ (err e, c)
    | ok value ↦ (ok tt, handle_content handler value msg c)
  ]

  -- The deliveries of a queue. The channel prefetches one, so the next is delivered when the last
  -- is acknowledged: after a message whose handling rejects before that, nothing comes any more.
  unfoldable pub consume_all : (Value → Action (Unit {0})) → List Delivery → Channel → Channel
  unfolding message_handler
  consume_all handler [] c = c
  consume_all handler (msg ∷ msgs) c =
      let (r, c₁) = message_handler handler (some msg) c in
      let rest = consume_all handler msgs c₁ in elim r [ ok u ↦ rest | err e ↦ c₁ ]
