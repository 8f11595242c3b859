-- ===== src/Http/ErrorFilter.antt =====
-- src/common/filters/http-exception.filter.ts. An exception's response is a text, the standard body,
-- an object with a message, or an object with neither; log output is left out.
use nestjs_vibe_engine.Prelude.{
  ℕ, String, ◌≡◌, refl, List, [], ◌∷◌, nat_eq, if◌then◌else◌, arith, sym, ap, ◌∙◌, ◌==◌, Bool-cases,
  ◌⊎◌, inl, inr,
}
use nestjs_vibe_engine.Js.Text.{◌⧺◌}

pub record ErrorBody : Type 0 where
  pub code : String
  pub message : String

-- The `message` of a response object; `other` is what `String` makes of any other value.
pub data Message : Type 0 where
  texts : List String → Message
  text other : String → Message

pub data ExceptionResponse : Type 0 where
  standard : ErrorBody → ExceptionResponse
  with_message : Message → ExceptionResponse
  plain : String → ExceptionResponse
  without_message : ExceptionResponse

pub data Thrown : Type 0 where
  http_exception : (status : ℕ) → ExceptionResponse → Thrown
  -- any other value, with the message of an Error
  unknown : (message : String) → Thrown

unfoldable pub get_error_code : ℕ → String
get_error_code status =
    if nat_eq status 400
    then "REQ_001"
    else if nat_eq status 401
    then "AUTH_001"
    else if nat_eq status 403
    then "PERM_001"
    else if nat_eq status 404
    then "NOT_001"
    else if nat_eq status 429
    then "RATE_001"
    else if nat_eq status 409
    then "REQ_002"
    else if nat_eq status 422
    then "REQ_003"
    else "SRV_001"

-- rawMessage.join(', ')
unfoldable pub join : List String → String
join [] = ""
join (t ∷ []) = t
join (t ∷ u ∷ ts) = t ⧺ (", " ⧺ join (u ∷ ts))

unfoldable pub formatted_message : Message → String
formatted_message (texts ts) = join ts
formatted_message (text t) = t
formatted_message (other t) = t

abbrev pub internal_error : ErrorBody
internal_error = record { code = "SRV_001"; message = "Internal server error" }

unfoldable pub error_body : ℕ → ExceptionResponse → ErrorBody
error_body status (standard body) = body
error_body status (with_message m) = record {
  code = get_error_code status;
  message = formatted_message m;
}
error_body status (plain t) = record { code = get_error_code status; message = t }
error_body status without_message = internal_error

-- The status and the body that are sent.
unfoldable pub catch_exception : Thrown → ℕ × ErrorBody
catch_exception (http_exception status response) = (status, error_body status response)
catch_exception (unknown message) = (500, internal_error)

-- The seven statuses with a code of their own.
abbrev pub IsKnown : ℕ → Type 0
IsKnown status =
    (status ≡ 400)
    ⊎ (status ≡ 401)
    ⊎ (status ≡ 403)
    ⊎ (status ≡ 404)
    ⊎ (status ≡ 429)
    ⊎ (status ≡ 409)
    ⊎ (status ≡ 422)

-- The status behind a code; 0 for the code of all others.
status_of_code : String → ℕ
status_of_code code =
    if code == "REQ_001"
    then 400
    else if code == "AUTH_001"
    then 401
    else if code == "PERM_001"
    then 403
    else if code == "NOT_001"
    then 404
    else if code == "RATE_001"
    then 429
    else if code == "REQ_002"
    then 409
    else if code == "REQ_003"
    then 422
    else 0

known_status : ℕ → ℕ
known_status status =
    if nat_eq status 400
    then 400
    else if nat_eq status 401
    then 401
    else if nat_eq status 403
    then 403
    else if nat_eq status 404
    then 404
    else if nat_eq status 429
    then 429
    else if nat_eq status 409
    then 409
    else if nat_eq status 422
    then 422
    else 0

status_of_code-get_error_code :
    (status : ℕ) → status_of_code (get_error_code status) ≡ known_status status
unfolding status_of_code get_error_code known_status
status_of_code-get_error_code status = elim (Bool-cases (nat_eq status 400)) [
  | inl e ↦ rw e refl
  | inr e ↦ rw e (elim (Bool-cases (nat_eq status 401)) [
    | inl e ↦ rw e refl
    | inr e ↦ rw e (elim (Bool-cases (nat_eq status 403)) [
      | inl e ↦ rw e refl
      | inr e ↦ rw e (elim (Bool-cases (nat_eq status 404)) [
        | inl e ↦ rw e refl
        | inr e ↦ rw e (elim (Bool-cases (nat_eq status 429)) [
          | inl e ↦ rw e refl
          | inr e ↦ rw e (elim (Bool-cases (nat_eq status 409)) [
            | inl e ↦ rw e refl
            | inr e ↦
                rw e (elim (Bool-cases (nat_eq status 422)) [
                  | inl e ↦ rw e refl
                  | inr e ↦ rw e (refl)
                ])
          ])
        ])
      ])
    ])
  ])
]

-- The code of the answer tells the seven statuses apart, from each other and from all others: a
-- converted exception with such a status has the code of no other status.
pub error_code_identifies :
    (status status' : ℕ) (m m' : Message)
    → IsKnown status
    → (catch_exception (http_exception status (with_message m))).1.code
      ≡ (catch_exception (http_exception status' (with_message m'))).1.code
    → status ≡ status'
unfolding known_status catch_exception error_body
error_code_identifies status status' m m' known same =
    let same' : known_status status ≡ known_status status' =
      sym (status_of_code-get_error_code status)
      ∙ ap status_of_code same
      ∙ status_of_code-get_error_code status' in
    ground arith
