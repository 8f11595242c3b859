-- ===== src/Auth/Deps/Laws.antt =====
-- The documented behaviour of the Prisma client, the cache and the JWT library, for a database and a
-- cache that answer.
use nestjs_vibe_engine.Prelude.{
  ℕ, ◌+◌, ◌/◌, ◌<◌, String, ◌≡◌, refl, arith, Bool, true, false, ◌&&◌, Option, none, some, List,
  ◌==◌, if◌then◌else◌, any, is_some,
}
use nestjs_vibe_engine.Exec.{ok, err, failure}
use nestjs_vibe_engine.Auth.Deps.{
  User, UserSession, SessionUpdate, SessionFilter, active_of, id_in, NewSession, NewUser,
  UserUpdate, Prisma, Cache, Claims, Jwt,
}

abbrev pub or_old {ℓ} : {A : Type ℓ} → Option A → A → A
or_old none old = old
or_old (some new) old = new

abbrev pub apply_update : SessionUpdate → UserSession → UserSession
apply_update u s = record s {
  refresh_token = or_old u.refresh_token s.refresh_token;
  is_valid = or_old u.is_valid s.is_valid;
}

abbrev pub update_row : SessionUpdate → Option UserSession → Option UserSession
update_row u none = none
update_row u (some s) = some (apply_update u s)

abbrev pub is_null {ℓ} : {A : Type ℓ} → Option A → Bool
is_null none = true
is_null (some a) = false

-- A row that is not deleted: reads through PrismaService have the condition on deletedAt of the
-- soft-delete middleware.
abbrev pub visible : Option UserSession → Option UserSession
visible none = none
visible (some s) = if is_null s.deleted_at then some s else none

-- isValid, and deletedAt null
abbrev pub is_active : UserSession → Bool
is_active s = s.is_valid && is_null s.deleted_at

abbrev pub selects : SessionFilter → UserSession → Bool
selects (active_of user_id) s = s.user_id == user_id && is_active s
selects (id_in ids) s = any (λ id. id == s.id) ids

abbrev pub selects_row : SessionFilter → Option UserSession → Bool
selects_row f none = false
selects_row f (some s) = selects f s

abbrev pub row_of : Option (UserSession × User) → Option UserSession
row_of none = none
row_of (some (s, u)) = some s

pub visible-some :
    (row : Option UserSession) (s : UserSession) → visible row ≡ some s → row ≡ some s
visible-some none s h = absurd (cc)
visible-some (some r) s h = ground (arith, h)

pub visible_active : (s : UserSession) → is_active s ≡ true → visible (some s) ≡ some s
visible_active s h = ground (arith, h)

pub selects_row-visible :
    (u : String) (row : Option UserSession)
    → selects_row (active_of u) (visible row) ≡ selects_row (active_of u) row
selects_row-visible u none = refl
selects_row-visible u (some s) = ground arith

-- `sessions d id` is the row with this id, deleted or not, in the columns of `UserSession`.
pub record PrismaLaws {D : Type 0} (prisma : Prisma D) : Type 0 where
  pub sessions : D → String → Option UserSession
  pub rows : D → SessionFilter → List UserSession
  pub sessions_id : (d : D) (id : String) (s : UserSession) → sessions d id ≡ some s → s.id ≡ id
  -- reads, which leave out deleted rows
  pub find_session :
      (d : D) (id : String) → prisma.find_session id d ≡ (ok (visible (sessions d id)), d)
  -- the rows with their users
  pub joined : D → String → Option (UserSession × User)
  pub find_session_with_user :
      (d : D) (id : String) → prisma.find_session_with_user id d ≡ (ok (joined d id), d)
  pub joined_row : (d : D) (id : String) → row_of (joined d id) ≡ visible (sessions d id)
  pub joined_user :
      (d : D) (id : String) (s : UserSession) (u : User)
      → joined d id ≡ some (s, u)
      → u.id ≡ s.user_id
  pub find_sessions : (d : D) (f : SessionFilter) → prisma.find_sessions f d ≡ (ok (rows d f), d)
  pub rows_mem :
      (d : D) (f : SessionFilter) (id : String)
      → any (λ s. s.id == id) (rows d f) ≡ selects_row f (visible (sessions d id))
  -- an update of a row that is not there is an error
  pub update_session :
      (d : D) (id : String) (u : SessionUpdate)
      → (prisma.update_session id u d).0
        ≡ (if is_some (sessions d id) then ok tt else err (failure "Record to update not found."))
  pub sessions-update_session :
      (d : D) (id : String) (u : SessionUpdate) (j : String)
      → sessions (prisma.update_session id u d).1 j
        ≡ (if id == j then update_row u (sessions d j) else sessions d j)
  pub update_sessions :
      (d : D) (f : SessionFilter) (u : SessionUpdate) → (prisma.update_sessions f u d).0 ≡ ok tt
  pub sessions-update_sessions :
      (d : D) (f : SessionFilter) (u : SessionUpdate) (j : String)
      → sessions (prisma.update_sessions f u d).1 j
        ≡ (if selects_row f (sessions d j) then update_row u (sessions d j) else sessions d j)
  -- a new row has an id that no row has
  pub created : D → NewSession → UserSession
  pub create_session : (d : D) (n : NewSession) → (prisma.create_session n d).0 ≡ ok (created d n)
  pub created_row :
      (d : D) (n : NewSession)
      → (sessions d (created d n).id ≡ none)
        × ((created d n).user_id ≡ n.user_id)
        × ((created d n).is_valid ≡ n.is_valid)
        × ((created d n).deleted_at ≡ none)
        × ((created d n).expires_at ≡ n.expires_at)
  pub sessions-create_session :
      (d : D) (n : NewSession) (j : String)
      → sessions (prisma.create_session n d).1 j
        ≡ (if (created d n).id == j then some (created d n) else sessions d j)
  -- what is done to users leaves the sessions alone
  pub sessions-create_user :
      (d : D) (n : NewUser) (j : String) → sessions (prisma.create_user n d).1 j ≡ sessions d j
  pub sessions-update_user :
      (d : D) (id : String) (u : UserUpdate) (j : String)
      → sessions (prisma.update_user id u d).1 j ≡ sessions d j
  pub sessions-find_user :
      (d : D) (x j : String)
      → (sessions (prisma.find_user_by_google_id x d).1 j ≡ sessions d j)
        × (sessions (prisma.find_user_by_email x d).1 j ≡ sessions d j)

pub record CacheLaws {C : Type 0} (cache : Cache C) : Type 0 where
  pub stored : C → String → Option String
  pub get : (c : C) (k : String) → cache.get k c ≡ (ok (stored c k), c)
  pub exists : (c : C) (k : String) → cache.exists k c ≡ (ok (is_some (stored c k)), c)
  pub set : (c : C) (k v : String) (ttl : ℕ) → (cache.set k v ttl c).0 ≡ ok tt
  pub stored-set :
      (c : C) (k v : String) (ttl : ℕ) (j : String)
      → stored (cache.set k v ttl c).1 j ≡ (if k == j then some v else stored c j)
  pub del : (c : C) (k : String) → (cache.del k c).0 ≡ ok tt
  pub stored-del :
      (c : C) (k j : String) → stored (cache.del k c).1 j ≡ (if k == j then none else stored c j)

-- A token is accepted with the claims it was signed with until its time is over, in whole seconds: iat
-- is the second of the signature, exp is `expiresIn` seconds later, and the second of the verification
-- has to be before exp.
pub record JwtLaws (jwt : Jwt) : Type 0 where
  pub verify_sign :
      (t t' : ℕ) (claims : Claims) (expires_in : ℕ)
      → t' / 1000 < t / 1000 + expires_in
      → jwt.verify t' (jwt.sign t claims expires_in) ≡ some claims
