-- ===== src/Status.antt =====
-- The status codes of include/robotraconteurlite/err.h and the tests of them in util.h.
use robotraconteurlite.Prelude.{Bool, true, false}

-- A `robotraconteurlite_status` as the functions modelled here return it.
pub data Status : Type 0 where
  success generic_error invalid_argument invalid_operation out_of_range : Status
  invalid_version data_error key_not_found not_implemented no_more : Status
  busy no_value timeout protocol messageelement_not_found : Status
  messageelement_type_mismatch connection_error retry consumed : Status
  internal_error unhandled_event request_remote_error invalid_parameter : Status
  system_error member_not_found in_progress : Status

-- `ROBOTRACONTEURLITE_FAILED`: every code but success is negative.
abbrev pub failed : Status → Bool
failed success = false
failed _ = true
