-- ===== src/Web.antt =====
-- What the controllers of processes/web/api/ answer: a response, or an error that goes to the error
-- handler of processes/web/middleware/error-handler.ts.
pub mod Errors
pub mod Jobs
pub mod Injecting
pub mod Bounds
pub mod Refusals
pub mod Reading
pub mod Queueing
pub mod Users
use tezos_api_gateway.Base.{ℕ, zero, String, true, false, Option, none, some, ◌==◌, if◌then◌else◌}
use tezos_api_gateway.Exceptions.{Exn, client_error, Result, ok, err, message}
use tezos_api_gateway.Database.Effect.{World, Action}

-- `res.status(…).json(…)`, `next(createHttpError(…))`, or `next(err)`.
pub data Reply (A : Type 0) : Type 0 where
  json : ℕ → A → Reply A
  http_error : ℕ → String → Reply A
  next : Exn → Reply A

abbrev pub Controller : Type 0 → Type 0
Controller A = World → Reply A × World

-- `try { … return res.status(…).json(…) } catch (err) { … }`
unfoldable pub respond : {A : Type 0} → ℕ → (Exn → Reply A) → Action A → Controller A
respond status caught m w =
    let (r, w') = m w in elim r [ ok a ↦ (json status a, w') | err e ↦ (caught e, w') ]

-- The body that `errorHandler` sends for an error.
pub record ErrorBody : Type 0 where
  pub status : ℕ
  pub message : String

-- `err.status || 500`, and the text of a server error is not shown.
unfoldable pub error_body : Option ℕ → String → ErrorBody
error_body none text = record { status = 500; message = "Internal Server Error" }
error_body (some n) text =
    if n == 0
    then record { status = 500; message = "Internal Server Error" }
    else if n == 500
    then record { status = 500; message = "Internal Server Error" }
    else record { status = n; message = text }

-- `foreign` gives the `status` of an exception that a library throws; of the gateway's own classes
-- `ClientError` alone has one.
unfoldable pub status_of : (Exn → Option ℕ) → Exn → Option ℕ
status_of foreign (client_error n m) = some n
status_of foreign (Exn.preapply_failure m) = foreign (Exn.preapply_failure m)
status_of foreign (Exn.tezos_operation_error m) = foreign (Exn.tezos_operation_error m)
status_of foreign (Exn.validation_error m) = foreign (Exn.validation_error m)
status_of foreign (Exn.database_error m) = foreign (Exn.database_error m)
status_of foreign (Exn.other_error m) = foreign (Exn.other_error m)
status_of foreign _ = none

-- What the client gets.
pub data Response (A : Type 0) : Type 0 where
  body : ℕ → A → Response A
  failure : ErrorBody → Response A

unfoldable pub error_handler : {A : Type 0} → (Exn → Option ℕ) → Reply A → Response A
unfolding error_body status_of message
error_handler foreign (json status a) = body status a
error_handler foreign (http_error status text) = failure (error_body (some status) text)
error_handler foreign (next e) = failure (error_body (status_of foreign e) (message e))
