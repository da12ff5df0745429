-- ===== src/Web/Errors.antt =====
-- The `catch` blocks of the controllers in processes/web/api/jobs/.
use tezos_api_gateway.Base.{Bool, true, false, if◌then◌else◌}
use tezos_api_gateway.Exceptions.{Exn, message}
use tezos_api_gateway.Web.{Reply, http_error, next}

-- The errors of the request that the controllers of a forge and of an estimation tell apart. A
-- `validation_error` stands for the fourteen classes of Taquito's Michelson encoder.
abbrev pub is_bad_forge : Exn → Bool
is_bad_forge Exn.invalid_map_structure_params = true
is_bad_forge Exn.public_key_undefined = true
is_bad_forge (Exn.address_not_revealed _) = true
is_bad_forge (Exn.reveal_estimate_error _ _) = true
is_bad_forge (Exn.address_already_revealed _) = true
is_bad_forge Exn.max_operations_per_batch = true
is_bad_forge (Exn.invalid_parameter_name _) = true
is_bad_forge (Exn.invalid_parameter _ _) = true
is_bad_forge (Exn.missing_parameter _) = true
is_bad_forge (Exn.unsupported_parameter_schema _) = true
is_bad_forge (Exn.invalid_variant_object _) = true
is_bad_forge (Exn.invalid_boolean_parameter _) = true
is_bad_forge (Exn.validation_error _) = true
is_bad_forge (Exn.tezos_operation_error _) = true
is_bad_forge _ = false

-- forge-job-controller.ts and estimate-job-controller.ts
unfoldable pub forge_error : {A : Type 0} → Exn → Reply A
unfolding message
forge_error (Exn.address_not_found address) =
    http_error 404 (message (Exn.address_not_found address))
forge_error e = if is_bad_forge e then http_error 400 (message e) else next e

-- forge-reveal-job-controller.ts
unfoldable pub reveal_error : {A : Type 0} → Exn → Reply A
unfolding message
reveal_error (Exn.address_already_revealed address) =
    http_error 409 (message (Exn.address_already_revealed address))
reveal_error (Exn.reveal_estimate_error address key) =
    http_error 400 (message (Exn.reveal_estimate_error address key))
reveal_error e = next e

-- get-job-controller.ts
unfoldable pub get_error : {A : Type 0} → Exn → Reply A
get_error (Exn.job_id_not_found text) = http_error 404 text
get_error (Exn.client_error status text) = http_error status text
get_error e = next e

-- inject-job-controller.ts
unfoldable pub inject_error : {A : Type 0} → Exn → Reply A
inject_error (Exn.job_id_not_found text) = http_error 404 text
inject_error (Exn.preapply_failure text) = http_error 400 text
inject_error e = next e

unfoldable pub inject_async_error : {A : Type 0} → Exn → Reply A
inject_async_error (Exn.job_id_not_found text) = http_error 404 text
inject_async_error e = next e

-- send-job-controller.ts
abbrev pub is_bad_sending : Exn → Bool
is_bad_sending Exn.invalid_map_structure_params = true
is_bad_sending (Exn.invalid_parameter_name _) = true
is_bad_sending (Exn.invalid_parameter _ _) = true
is_bad_sending (Exn.missing_parameter _) = true
is_bad_sending (Exn.unsupported_parameter_schema _) = true
is_bad_sending (Exn.invalid_variant_object _) = true
is_bad_sending (Exn.invalid_boolean_parameter _) = true
is_bad_sending (Exn.validation_error _) = true
is_bad_sending (Exn.tezos_operation_error _) = true
is_bad_sending (Exn.preapply_failure _) = true
is_bad_sending _ = false

unfoldable pub send_error : {A : Type 0} → Exn → Reply A
unfolding message
send_error (Exn.client_error status text) = http_error status text
send_error e = if is_bad_sending e then http_error 400 (message e) else next e

unfoldable pub send_async_error : {A : Type 0} → Exn → Reply A
send_async_error (Exn.client_error status text) = http_error status text
send_async_error e = next e
