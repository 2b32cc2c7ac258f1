-- ===== src/Server/Core/Errors.antt =====
-- control_station_lite/server/core/errors.py: the codes and the exceptions that the API answers with.
use csl.Prelude.{ℕ, Option, none, some}

-- The codes that the endpoints modelled here give.
pub data ErrorCode : Type 0 where
  auth_invalid_credentials auth_token_invalid auth_token_revoked auth_token_expired : ErrorCode
  auth_forbidden approval_pending approval_rejected agent_unreachable : ErrorCode
  validation_error version_incompatible : ErrorCode

-- An `HTTPException`, which has no code, or a `CslHTTPException`, less its text.
pub record HttpException : Type 0 where
  pub status_code : ℕ
  pub code : Option ErrorCode

abbrev pub http_exception : ℕ → HttpException
http_exception status = record { status_code = status; code = none }

abbrev pub csl_exception : ℕ → ErrorCode → HttpException
csl_exception status code = record { status_code = status; code = some code }

-- What becomes of any other exception: the framework answers with status 500.
abbrev pub uncaught : HttpException
uncaught = http_exception 500
