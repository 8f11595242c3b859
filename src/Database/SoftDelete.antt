-- ===== src/Database/SoftDelete.antt =====
-- src/core/database/soft-delete.middleware.ts: what the middleware hands to the next one. Of the
-- arguments of a query it reads the condition on `deletedAt` and writes that and `data`.
use nestjs_vibe_engine.Prelude.{
  ℕ, String, ◌≡◌, refl, Bool, true, false, not, ◌||◌, Option, none, some, List, [], ◌∷◌, ◌==◌, any,
  is_some, if◌then◌else◌, Bool-cases, ◌∙◌, ap, inl, inr,
}

-- A condition on `deletedAt`: null, or any other, by its text.
pub data Condition : Type 0 where
  is_null : Condition
  other : String → Condition

pub data QueryData : Type 0 where
  -- as the caller gave it, or none
  given : Option String → QueryData
  deleted_at : ℕ → QueryData

pub record Params : Type 0 where
  pub model : Option String
  pub action : String
  -- none: undefined
  pub where_deleted_at : Option Condition
  pub query_data : QueryData

abbrev pub contains : List String → String → Bool
contains ts t = any (λ u. u == t) ts

abbrev pub soft_delete_models : List String
soft_delete_models = "User" ∷ "UserSession" ∷ []

abbrev pub read_actions : List String
read_actions =
    "findFirst" ∷ "findMany" ∷ "findUnique" ∷ "findUniqueOrThrow" ∷ "findFirstOrThrow" ∷ "count"
    ∷ []

unfoldable pub is_soft_deleted : Option String → Bool
is_soft_deleted none = false
is_soft_deleted (some m) = contains soft_delete_models m

abbrev pub or_is_null : Option Condition → Option Condition
or_is_null none = some is_null
or_is_null (some c) = some c

unfoldable pub filter_reads : Params → Params
filter_reads p =
    if contains read_actions p.action
    then record p { where_deleted_at = or_is_null p.where_deleted_at }
    else p

-- `now` is `new Date()`.
unfoldable pub convert : String → String → ℕ → Params → Params
convert from to now p =
    if p.action == from then record p { action = to; query_data = deleted_at now } else p

unfoldable pub soft_delete_params : ℕ → Params → Params
soft_delete_params now p =
    if is_soft_deleted p.model
    then convert "deleteMany" "updateMany" now (convert "delete" "update" now (filter_reads p))
    else p

action_of : String → String
action_of a =
    let b = if a == "delete" then "update" else a in if b == "deleteMany" then "updateMany" else b

-- The two conversions, by the action alone.
convert-action :
    (now : ℕ) (p : Params)
    → (convert "deleteMany" "updateMany" now (convert "delete" "update" now p)).action
      ≡ action_of p.action
unfolding convert action_of
convert-action now p = elim (Bool-cases (p.action == "delete")) [
  | inl e ↦ rw e refl
  | inr e ↦
      rw e (elim (Bool-cases (p.action == "deleteMany")) [ inl d ↦ rw d refl | inr d ↦ rw d refl ])
]

convert-where :
    (from to : String) (now : ℕ) (p : Params)
    → ((convert from to now p).where_deleted_at ≡ p.where_deleted_at)
      × ((convert from to now p).model ≡ p.model)
unfolding convert
convert-where from to now p = elim (Bool-cases (p.action == from)) [
  | inl e ↦ rw e (refl, refl)
  | inr e ↦ rw e (refl, refl)
]

filter_reads-fields :
    (p : Params)
    → ((filter_reads p).action ≡ p.action)
      × ((filter_reads p).model ≡ p.model)
      × ((not (contains read_actions p.action) || is_some (filter_reads p).where_deleted_at) ≡ true)
unfolding filter_reads
filter_reads-fields p = by_read (contains read_actions p.action) p
  where
    by_read :
        (b : Bool) (p : Params)
        → let q = if b then record p { where_deleted_at = or_is_null p.where_deleted_at } else p in
          (q.action ≡ p.action)
          × (q.model ≡ p.model)
          × ((not b || is_some q.where_deleted_at) ≡ true)
    by_read true p = (refl, refl, some_condition p.where_deleted_at)
      where
        some_condition : (c : Option Condition) → is_some (or_is_null c) ≡ true
        some_condition none = refl
        some_condition (some c) = refl
    by_read false p = (refl, refl, refl)

action_of-safe :
    (a : String) (w : Bool)
    → (not (contains read_actions a) || w) ≡ true
    → ((action_of a == "delete") ≡ false)
      × ((action_of a == "deleteMany") ≡ false)
      × ((not (contains read_actions (action_of a)) || w) ≡ true)
unfolding action_of
action_of-safe a w h = elim (Bool-cases (a == "delete")) [
  | inl e ↦ rw e (refl, refl, refl)
  | inr e ↦ elim (Bool-cases (a == "deleteMany")) [
    | inl d ↦ rw e (rw d (refl, refl, refl))
    | inr d ↦ rw e (rw d (e, d, h))
  ]
]

safe_by_fields :
    (q : Params) (action : String) (w : Option Condition) (m : Option String)
    → q.action ≡ action
    → q.where_deleted_at ≡ w
    → q.model ≡ m
    → ((action == "delete") ≡ false)
      × ((action == "deleteMany") ≡ false)
      × ((not (contains read_actions action) || is_some w) ≡ true)
    → ((q.action == "delete") ≡ false)
      × ((q.action == "deleteMany") ≡ false)
      × ((not (contains read_actions q.action) || is_some q.where_deleted_at) ≡ true)
      × (q.model ≡ m)
safe_by_fields q action w m e f g (a, b, c) = rw e (rw f (a, b, c, g))

-- A query on users or sessions reaches the database as neither a `delete` nor a `deleteMany`, on the
-- same model, and if it is one of the six read actions it has a condition on `deletedAt`.
pub soft_delete_params-safe :
    (now : ℕ) (p : Params)
    → is_soft_deleted p.model ≡ true
    → let q = soft_delete_params now p in
      ((q.action == "delete") ≡ false)
      × ((q.action == "deleteMany") ≡ false)
      × ((not (contains read_actions q.action) || is_some q.where_deleted_at) ≡ true)
      × (q.model ≡ p.model)
unfolding soft_delete_params
soft_delete_params-safe now p soft =
    let (action, model, filtered) = filter_reads-fields p in
    let q1 = convert "delete" "update" now (filter_reads p) in
    let (where1, model1) = convert-where "delete" "update" now (filter_reads p) in
    let (where2, model2) = convert-where "deleteMany" "updateMany" now q1 in
    let (a, b, c) = action_of-safe p.action (is_some (filter_reads p).where_deleted_at) filtered in
    rw soft (
      safe_by_fields (convert "deleteMany" "updateMany" now q1) _ _ p.model
        (convert-action now (filter_reads p) ∙ ap action_of action) (where2 ∙ where1)
        (model2 ∙ model1 ∙ model) (a, b, c))
