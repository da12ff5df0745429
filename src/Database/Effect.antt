-- ===== src/Database/Effect.antt =====
-- Asynchronous code as explicit state passing: a computation reads and writes the world and ends in
-- a value or in an exception. What was written before an exception stays written.
use tezos_api_gateway.Base.{ℕ, String, Option, none, some, List, []}
use tezos_api_gateway.Base.{◌∷◌, ◌++◌, ◌≡◌, refl, ◌⊎◌, inl, inr}
use tezos_api_gateway.Value.{Value}
use tezos_api_gateway.Exceptions.{Exn, Result, ok, err, database_error}
use tezos_api_gateway.Database.Schema.{Job, Operation, Store}

-- What the gateway sends to RabbitMq: to a queue, or to the exchange with its headers.
pub data Message : Type 0 where
  queued : String → Value → Message
  event : String → Value → Value → Message

-- `faults` holds the outcomes of the queries to come: `none` for one that the database answers,
-- an error for one that it rejects. Past its end every query is answered. `stray` is what Postgres
-- does with a statement in which an interpolated text ends its own quotes; it may do anything. `place` says in
-- which order it gives the rows of `operations`, which may change with every change of the tables. `broadcast`
-- holds what the Tezos nodes have accepted for the chain, by its bytes or its hash.
pub record World : Type 0 where
  pub store : Store
  pub faults : List (Option String)
  pub sent : List Message
  pub broadcast : List String
  pub stray : String → Store → Result (List Job) × Store
  pub place : Store → Operation → List Operation → ℕ

abbrev pub Action : Type 0 → Type 0
Action A = World → Result A × World

module _ {A : Type 0} where
  abbrev pub pure : A → Action A
  pure a w = (ok a, w)

  -- `throw e`
  abbrev pub throw : Exn → Action A
  throw e w = (err e, w)

  -- A call of a service outside the database that is awaited.
  abbrev pub lift : Result A → Action A
  lift r w = (r, w)

  -- `try { m } catch (e) { handler(e) }`
  abbrev pub try_catch : Action A → (Exn → Action A) → Action A
  try_catch m handler w = let (r, w') = m w in elim r [ ok a ↦ (ok a, w') | err e ↦ handler e w' ]

infixl 5 ◌>>=◌ ◌>>◌
abbrev pub ◌>>=◌ : {A B : Type 0} → Action A → (A → Action B) → Action B
◌>>=◌ m f w = let (r, w') = m w in elim r [ ok a ↦ f a w' | err e ↦ (err e, w') ]

abbrev pub ◌>>◌ : {A B : Type 0} → Action A → Action B → Action B
m >> k = m >>= λ _. k

-- `await Promise.all(xs.map(f))`. Every call is made, whatever becomes of the others; the calls
-- stand in the order of the list, and the first of them that throws gives the exception.
abbrev both : {B : Type 0} → Result B → Result (List B) → Result (List B)
both (err e) _ = err e
both (ok _) (err e) = err e
both (ok b) (ok bs) = ok (b ∷ bs)

module _ {A B : Type 0} where
  unfoldable pub map_all : (A → Action B) → List A → Action (List B)
  map_all f [] = pure []
  map_all f (x ∷ xs) = λ w. let (r, w₁) = f x w in let (rs, w₂) = map_all f xs w₁ in (both r rs, w₂)

-- `channel.publish`, `channel.sendToQueue`: the message is handed to the channel. Where the source awaits
-- what becomes of it, in `sendTransactionsAsync`, the model says so there.
unfoldable pub send : Message → Action (Unit {0})
send m w = (ok tt, record w { sent = w.sent ++ m ∷ [] })

-- A call that hands an operation to a Tezos node, by the text of the operation.
unfoldable pub hand_over : String → Result String → Action String
hand_over text (err e) w = (err e, w)
hand_over text (ok hash) w = (ok hash, record w { broadcast = w.broadcast ++ text ∷ [] })

-- `pool.query`: the database rejects the statement, or runs it.
unfoldable pub answer : {A : Type 0} → List (Option String) → (Store → Result A × Store) → Action A
answer [] statement w = let (r, s) = statement w.store in (r, record w { store = s; faults = [] })
answer (none ∷ rest) statement w =
    let (r, s) = statement w.store in (r, record w { store = s; faults = rest })
answer (some message ∷ rest) statement w =
    (err (database_error message), record w { faults = rest })

unfoldable pub query : {A : Type 0} → (Store → Result A × Store) → Action A
unfolding answer
query statement w = answer w.faults statement w

-- The outcome of the next query, and those of the queries after it.
abbrev pub next_fault : List (Option String) → Option String
next_fault [] = none
next_fault (f ∷ _) = f

abbrev pub later : List (Option String) → List (Option String)
later [] = []
later (_ ∷ rest) = rest

-- A query is rejected and leaves the store alone, or it gives `value` and leaves the store `s`.
abbrev pub Answers : {A : Type 0} → Result A × World → World → Result A → Store → Type 0
Answers r w value s =
    ((m : String) × (next_fault w.faults ≡ some m)
      × (r ≡ (err (database_error m), record w { faults = later w.faults })))
    ⊎ (r ≡ (value, record w { store = s; faults = later w.faults }))

pub query-Answers :
    {A : Type 0} (statement : Store → Result A × Store) (w : World)
    → Answers (query statement w) w (statement w.store).0 (statement w.store).1
unfolding query
query-Answers statement w = answer-Answers w.faults
  where
    answer-Answers :
        (faults : List (Option String))
        → ((m : String) × (next_fault faults ≡ some m)
            × (answer faults statement w
                ≡ (err (database_error m), record w { faults = later faults })))
          ⊎ (answer faults statement w ≡ (
            (statement w.store).0,
            record w { store = (statement w.store).1; faults = later faults },
          ))
    answer-Answers [] = inr refl
    answer-Answers (none ∷ rest) = inr refl
    answer-Answers (some m ∷ rest) = inl (m, refl, refl)
