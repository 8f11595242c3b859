-- ===== src/Socket/AuthGuard.antt =====
-- src/common/guards/ws-auth.guard.ts, for a handshake whose token is a text or missing; log output is
-- left out.
use nestjs_vibe_engine.Prelude.{ℕ, String, Option, none, some, [], ◌∷◌, List, ◌==◌, if◌then◌else◌}
use nestjs_vibe_engine.Js.Text.{split}
use nestjs_vibe_engine.Auth.Deps.{Jwt, Claims}
use nestjs_vibe_engine.Socket.AuthAdapter.{claim}

pub data Verdict : Type 0 where
  -- what `client.data` becomes
  allowed : (user_id session_id : String) → Verdict
  -- a WsException
  refused : (message : String) → Verdict

unfoldable pub token_of_parts : List String → Option String
token_of_parts (t ∷ []) = some t
token_of_parts (scheme ∷ t ∷ []) = if scheme == "Bearer" then some t else none
token_of_parts _ = none

unfoldable pub extract_token : String → Option String
extract_token raw_token = if raw_token == "" then none else token_of_parts (split " " raw_token)

unfoldable pub check_payload : Claims → Verdict
check_payload payload = elim (claim payload "userId") [
  | none ↦ refused "Invalid token payload"
  | some user_id ↦ elim (claim payload "sessionId") [
    | none ↦ refused "Invalid token payload"
    | some session_id ↦ allowed user_id session_id
  ]
]

unfoldable pub verify_token : Jwt → ℕ → Option String → Verdict
verify_token jwt now none = refused "Invalid token format"
verify_token jwt now (some token) =
    if token == "" then refused "Invalid token format" else elim (jwt.verify now token) [
      | none ↦ refused "Unauthorized"
      | some payload ↦ check_payload payload
    ]

unfoldable pub can_activate : Jwt → ℕ → Option String → Verdict
can_activate jwt now none = refused "Authentication token is required"
can_activate jwt now (some raw_token) =
    if raw_token == ""
    then refused "Authentication token is required"
    else verify_token jwt now (extract_token raw_token)
