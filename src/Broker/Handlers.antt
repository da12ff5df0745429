-- ===== src/Broker/Handlers.antt =====
-- The handler of processes/workers/injection/lib/create-handler.ts, and what a queued injection becomes.
use tezos_api_gateway.Base.{ℕ, String, Option, none, some}
use tezos_api_gateway.Base.Int.{pos}
use tezos_api_gateway.Value.{Value, num, str, obj, get}
use tezos_api_gateway.Database.Effect.{Action}
use tezos_api_gateway.Injection.{Node, PatchJobParams, inject_operation}

-- A property of the parsed parameters.
abbrev number_in : Option Value → Option ℕ
number_in (some (num (pos n))) = some n
number_in _ = none

abbrev text_in : Option Value → Option String
text_in (some (str s)) = some s
text_in _ = none

infixl 5 ◌>>=◌
abbrev ◌>>=◌ : {A B : Type 0} → Option A → (A → Option B) → Option B
none >>= rest = none
some a >>= rest = rest a

-- The parameters of the injection handler, where the message has them with the types of its schema.
unfoldable pub patch_of : Value → Option PatchJobParams
unfolding get
patch_of (obj fs) = do
  id ← number_in (get "jobId" fs)
  signed ← text_in (get "signedTransaction" fs)
  signature ← text_in (get "signature" fs)
  some (record { job_id = id; signed_transaction = signed; signature = signature })
patch_of _ = none

-- `createHandler` of the injection worker. `loose` is what becomes of a value that is not of the types
-- that the source declares.
unfoldable pub injection_handler : Node → (Value → Action (Unit {0})) → Value → Action (Unit {0})
unfolding patch_of inject_operation
injection_handler node loose value = elim (patch_of value) [
  | some params ↦ inject_operation node params
  | none ↦ loose value
]
