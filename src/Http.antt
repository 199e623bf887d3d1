-- ===== src/Http.antt =====
-- Status codes, error values and responses of the HTTP server:
-- packages/core/src/http/server/common/error.rs and response.rs.
use aika.Common.{ℕ, String}
use aika.Model.{PrepareUploadResponseDtoV2}

pub data Body : Type 0 where
  empty : Body
  error_message : String → Body
  prepare_upload_response : PrepareUploadResponseDtoV2 → Body

pub record Response : Type 0 where
  pub status : ℕ
  pub body : Body

-- `Status` and `BadRequest` are `Message` with a fixed text or a fixed status.
pub data AppError : Type 0 where
  hyper : AppError
  status_error : ℕ → AppError
  bad_request : String → AppError
  message : ℕ → String → AppError

pub data Result {ℓ} (A : Type ℓ) : Type ℓ where
  ok : A → Result A
  err : AppError → Result A

infixl 5 ◌>>=◌
abbrev pub ◌>>=◌ {ℓ κ} : {A : Type ℓ} {B : Type κ} → Result A → (A → Result B) → Result B
ok a >>= f = f a
err e >>= f = err e

-- `AppError::to_response`; `show` formats a status code as `Status code: {code}`.
pub to_response : (ℕ → String) → AppError → Response
to_response show hyper = record { status = 500; body = error_message "Internal server error" }
to_response show (status_error code) = record { status = code; body = error_message (show code) }
to_response show (bad_request text) = record { status = 400; body = error_message text }
to_response show (message code text) = record { status = code; body = error_message text }
