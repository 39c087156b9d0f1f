-- ===== src/Exceptions.antt =====
-- The exceptions that the engine raises and catches, with the text of `str(exc)`.
use network_sandbox_engine.Prelude.{Text, Bool, true, false}

-- `binary_not_found` and `timeout_error` are kinds of `os_error` to an `except` clause, and
-- `called_process_error` and `timeout_expired` are the two `SubprocessError`s.
pub data Exception : Type 0 where
  runtime_error value_error type_error os_error binary_not_found unsafe_binary : Text → Exception
  called_process_error timeout_expired other_error : Text → Exception

-- `except OSError`
unfoldable pub is_os_error : Exception → Bool
is_os_error (Exception.os_error _) = true
is_os_error (Exception.binary_not_found _) = true
is_os_error _ = false

-- `except (OSError, subprocess.SubprocessError)`
unfoldable pub is_process_error : Exception → Bool
is_process_error (Exception.called_process_error _) = true
is_process_error (Exception.timeout_expired _) = true
is_process_error e = is_os_error e

-- `except (RuntimeError, OSError, ValueError)`
unfoldable pub is_pipeline_crash : Exception → Bool
is_pipeline_crash (Exception.runtime_error _) = true
is_pipeline_crash (Exception.value_error _) = true
is_pipeline_crash (Exception.os_error _) = true
is_pipeline_crash (Exception.binary_not_found _) = true
is_pipeline_crash _ = false

-- `str(exc)`
unfoldable pub message : Exception → Text
message (Exception.runtime_error t) = t
message (Exception.value_error t) = t
message (Exception.type_error t) = t
message (Exception.os_error t) = t
message (Exception.binary_not_found t) = t
message (Exception.unsafe_binary t) = t
message (Exception.called_process_error t) = t
message (Exception.timeout_expired t) = t
message (Exception.other_error t) = t
