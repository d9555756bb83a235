-- ===== src/Base/Errors.antt =====
-- The error codes of Boost that the program sets or tests; `no_error` is a cleared error_code.
use mathlib.Core.Bool.{Bool, true, false}

pub data ErrorCode : Type 0 where
  no_error operation_aborted would_block bad_descriptor not_connected eof : ErrorCode
  connection_refused connection_reset access_denied address_in_use : ErrorCode
  address_family_not_supported address_not_available invalid_argument : ErrorCode
  message_size host_not_found not_found : ErrorCode

-- `if (ec)`
abbrev pub failed : ErrorCode → Bool
failed ErrorCode.no_error = false
failed _ = true

-- `ec == boost::asio::error::operation_aborted`
abbrev pub is_aborted : ErrorCode → Bool
is_aborted ErrorCode.operation_aborted = true
is_aborted _ = false

-- `ec == boost::asio::error::would_block`
abbrev pub is_would_block : ErrorCode → Bool
is_would_block ErrorCode.would_block = true
is_would_block _ = false
