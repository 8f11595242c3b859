-- ===== src/Socket/AuthAdapter.antt =====
-- src/core/socket/socket-auth.adapter.ts, for a handshake whose token is a text or missing. The JWT
-- library is that of src/auth/auth.service.ts; log output is left out.
use nestjs_vibe_engine.Prelude.{ℕ, String, Option, none, some, ◌==◌, if◌then◌else◌}
use nestjs_vibe_engine.Js.Map
use nestjs_vibe_engine.Js.Text.{trim, strip_prefix}
use nestjs_vibe_engine.Auth.Deps.{Jwt, Claims}

pub data Authentication : Type 0 where
  -- what `socket.data` becomes
  accepted : (user_id session_id : String) → Authentication
  -- the `error` event
  rejected : (code message : String) → Authentication

abbrev pub or_text : String → Option String → String
or_text other none = other
or_text other (some t) = t

unfoldable pub extract_token : String → String
extract_token raw_token = or_text (trim raw_token) (strip_prefix "Bearer " (trim raw_token))

-- A claim that is there and not empty.
unfoldable pub claim : Claims → String → Option String
claim payload name = elim (Map.get payload name) [
  | none ↦ none
  | some t ↦ if t == "" then none else some t
]

unfoldable pub check_claims : Claims → Authentication
check_claims payload = elim (claim payload "sub") [
  | none ↦ rejected "AUTH_001" "Invalid token payload"
  | some user_id ↦ elim (claim payload "sessionId") [
    | none ↦ rejected "AUTH_005" "Session invalid"
    | some session_id ↦ accepted user_id session_id
  ]
]

unfoldable pub authenticate : Jwt → ℕ → Option String → Authentication
authenticate jwt now none = rejected "AUTH_003" "Token not provided"
authenticate jwt now (some raw_token) =
    if raw_token == ""
    then rejected "AUTH_003" "Token not provided"
    else elim (jwt.verify now (extract_token raw_token)) [
      | none ↦ rejected "AUTH_001" "Invalid or expired token"
      | some payload ↦ check_claims payload
    ]
