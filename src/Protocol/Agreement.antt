-- ===== src/Protocol/Agreement.antt =====
-- Client and server, each with its own copy of the protocol's numbers, mean the same by them.
use wim.Prelude.{arith, refl, ℕ, ◌+◌, ◌<◌, ◌^◌, ◌≡◌}
use wim.Protocol.{
  ErrorCodes, ServiceId, client_error_value, client_is_retryable_error, client_service_value,
  error_value, get_service_response_id, is_retryable_error, response_for, service_value,
}

error_values_agree : (e : ErrorCodes) → error_value e ≡ client_error_value e
unfolding error_value client_error_value
error_values_agree ErrorCodes.success = refl
error_values_agree _ = refl

service_values_agree : (s : ServiceId) → service_value s ≡ client_service_value s
unfolding service_value client_service_value
service_values_agree ServiceId.pull_friend_list_req = refl
service_values_agree _ = refl

-- Every error code and every service id has the same number in the client and in the server; any
-- number is retryable for the one exactly if it is for the other; and for an id below the largest
-- 32-bit number both take the same id for the response.
pub protocols_agree :
    (e : ErrorCodes) (s : ServiceId) (code id : ℕ)
    → id + 1 < 2 ^ 32
    → (error_value e ≡ client_error_value e)
      × (service_value s ≡ client_service_value s)
      × (is_retryable_error code ≡ client_is_retryable_error code)
      × (get_service_response_id id ≡ response_for id)
unfolding is_retryable_error client_is_retryable_error get_service_response_id response_for
protocols_agree e s code id h = (error_values_agree e, service_values_agree s, refl, ground arith)
