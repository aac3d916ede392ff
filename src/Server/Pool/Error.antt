-- ===== src/Server/Pool/Error.antt =====
-- `Error` of crates/ferroid-tonic-core/src/common/error.rs, and the status that a client gets for it.
-- The texts are left out.

-- The variant `IdGeneration` holds an `Infallible`, so it has no value. A channel error names the
-- worker whose channel is closed, where there is one.
pub data Error : Type 0 where
  channel_error : Error
  request_cancelled : Error
  invalid_request : Error
  service_shutdown : Error

-- The codes of `tonic::Status`.
pub data Status : Type 0 where
  internal : Status
  cancelled : Status
  invalid_argument : Status
  unavailable : Status

unfoldable pub to_status : Error → Status
to_status channel_error = internal
to_status request_cancelled = cancelled
to_status invalid_request = invalid_argument
to_status service_shutdown = unavailable
