-- ===== src/Redact/Names.antt =====
-- crates/lens-redact/src/lib.rs: `is_sensitive_name`.
use lens.Prelude.{Bool, ◌||◌, List, [], ◌∷◌, any}
use lens.Text.{Bytes, str, eq_bytes, ends_with, to_ascii_lowercase}
use lens.Text.Words.{trim}

-- REPLACEMENT
abbrev pub replacement : Bytes
replacement = str "[REDACTED]"

abbrev pub sensitive_names : List Bytes
sensitive_names =
    str "authorization"
    ∷ str "proxy-authorization"
    ∷ str "cookie"
    ∷ str "set-cookie"
    ∷ str "x-api-key"
    ∷ str "x-auth-token"
    ∷ str "password"
    ∷ str "passwd"
    ∷ str "token"
    ∷ str "secret"
    ∷ str "api_key"
    ∷ str "api-key"
    ∷ str "apikey"
    ∷ str "access_token"
    ∷ str "access-token"
    ∷ str "refresh_token"
    ∷ str "refresh-token"
    ∷ str "client_secret"
    ∷ str "client-secret"
    ∷ str "private_key"
    ∷ str "private-key"
    ∷ str "session_id"
    ∷ str "session-id"
    ∷ str "jwt"
    ∷ str "grpc-message"
    ∷ []

abbrev pub sensitive_suffixes : List Bytes
sensitive_suffixes =
    str "_password"
    ∷ str "-password"
    ∷ str "_token"
    ∷ str "-token"
    ∷ str "_secret"
    ∷ str "-secret"
    ∷ str "_api_key"
    ∷ str "-api-key"
    ∷ str "_private_key"
    ∷ str "-private-key"
    ∷ []

-- `matches!` on one of several texts
unfoldable pub is_one_of : List Bytes → Bytes → Bool
unfolding eq_bytes
is_one_of names name = any (eq_bytes name) names

abbrev pub is_sensitive_lower : Bytes → Bool
is_sensitive_lower name = is_one_of sensitive_names name || any (ends_with name) sensitive_suffixes

unfoldable pub is_sensitive_name : Bytes → Bool
unfolding is_one_of ends_with trim to_ascii_lowercase str
is_sensitive_name name = is_sensitive_lower (to_ascii_lowercase (trim name))
