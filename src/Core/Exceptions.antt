-- ===== src/Core/Exceptions.antt =====
-- apps/api/app/core/exceptions.py, and the statuses that core/error_handlers.py answers with.
use open_format_3d_viewer.Prelude.{ℕ, String, List}

-- `http_exception` is FastAPI's own, with its status. The last four are raised by the libraries and reach the catch-all handler.
pub data Exception : Type 0 where
  validation file_too_large unsupported_format authentication authorization : String → Exception
  not_found conflict storage processing internal : String → Exception
  rate_limited : String → List (String × ℕ) → Exception
  http_exception : (status : ℕ) → (detail : String) → Exception
  integrity_error stale_data no_result_found multiple_results_found : Exception

unfoldable pub status_code : Exception → ℕ
status_code (validation m) = 400
status_code (file_too_large m) = 413
status_code (unsupported_format m) = 400
status_code (authentication m) = 401
status_code (authorization m) = 403
status_code (not_found m) = 404
status_code (conflict m) = 409
status_code (storage m) = 502
status_code (processing m) = 400
status_code (rate_limited m d) = 429
status_code (http_exception n m) = n
status_code e = 500

unfoldable pub error_code : Exception → String
error_code (validation m) = "VALIDATION_ERROR"
error_code (file_too_large m) = "FILE_TOO_LARGE"
error_code (unsupported_format m) = "UNSUPPORTED_FORMAT"
error_code (authentication m) = "UNAUTHORIZED"
error_code (authorization m) = "FORBIDDEN"
error_code (not_found m) = "NOT_FOUND"
error_code (conflict m) = "CONFLICT"
error_code (storage m) = "STORAGE_ERROR"
error_code (processing m) = "PROCESSING_ERROR"
error_code (rate_limited m d) = "RATE_LIMITED"
error_code e = "INTERNAL_ERROR"
