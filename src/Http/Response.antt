-- ===== src/Http/Response.antt =====
-- What the code reads of an *http.Response, and of a response body.
use clientkit.Prelude.{ℤ, Bool, true, false, Option, none, some, List}
use clientkit.Text.{Text}

-- `no_body` is http.NoBody; an open body may also be an io.Writer, as after an upgrade.
pub data Body : Type 0 where
  nil_body : Body
  no_body : Body
  open_body : (is_writer : Bool) → Body

pub record Response : Type 0 where
  pub status_code : ℤ
  -- Header.Values("Retry-After").
  pub retry_after : List Text
  pub body : Body

abbrev pub is_nil {ℓ} : {A : Type ℓ} → Option A → Bool
is_nil none = true
is_nil (some a) = false
