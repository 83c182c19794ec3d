-- ===== src/Errors.antt =====
-- errors.go: the errors that the SDK tells apart, and any other by its text.
use mezon_sdk_go.Prelude.{Bytes}

pub data Error : Type 0 where
  err_not_found err_socket_closed err_send_timeout : Error
  err_text : Bytes → Error

-- A Go result `(value, error)`.
pub data Result {ℓ} (A : Type ℓ) : Type ℓ where
  ok : A → Result A
  err : Error → Result A

infixl 5 ◌>>=◌
abbrev pub ◌>>=◌ {ℓ κ} : {A : Type ℓ} {B : Type κ} → Result A → (A → Result B) → Result B
ok a >>= f = f a
err e >>= f = err e
