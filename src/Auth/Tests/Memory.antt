-- ===== src/Auth/Tests/Memory.antt =====
-- A session table in memory that behaves as `PrismaLaws` says: the newest row first, each row with
-- the id that its place gives it.
mod Cases
mod Endpoints
use text.Mathlib.TextLemmas.{tail-eq_of_cons-eq, cons≢nil, nil≢cons}
use nestjs_vibe_engine.Prelude.{
  ℕ, zero, suc, ◌+◌, ◌≤◌, ◌<◌, String, ◌≡◌, ◌≢◌, refl, sym, ◌∙◌, ap, Bool, true, false, not, ◌&&◌,
  ◌||◌, Option, none, some, List, [], ◌∷◌, if◌then◌else◌, ◌==◌, eq_iff, eq_refl, ne→eq-false, arith,
  Option-cases, Bool-cases, inl, inr, is_some, length, any,
}
use nestjs_vibe_engine.Exec.{Exec, ok, err, failure}
use nestjs_vibe_engine.Auth.Deps.{
  UserSession, User, NewSession, SessionUpdate, SessionFilter, Prisma,
}
use nestjs_vibe_engine.Auth.Deps.Laws.{
  PrismaLaws, apply_update, update_row, selects, selects_row, row_of, visible, is_null,
}

unary : ℕ → String
unary zero = ""
unary (suc n) = String.◌∷◌ "x" (unary n)

unary-injective : (m n : ℕ) → unary m ≡ unary n → m ≡ n
unfolding unary
unary-injective zero zero e = refl
unary-injective zero (suc n) e = absurd (nil≢cons e)
unary-injective (suc m) zero e = absurd (cons≢nil e)
unary-injective (suc m) (suc n) e = ap suc (unary-injective m n (tail-eq_of_cons-eq e))

unary-lt : (m n : ℕ) → m < n → (unary m == unary n) ≡ false
unary-lt m n h =
    ne→eq-false (unary m) (unary n) (λ e. absurd (omega (arith, unary-injective m n e)))

abbrev pub Table : Type 0
Table = List UserSession

-- The row as it is read.
abbrev row_at : Table → UserSession → UserSession
row_at older s = record s { id = unary (length older) }

pub sessions : Table → String → Option UserSession
sessions [] id = none
sessions (s ∷ older) id =
    if unary (length older) == id then some (row_at older s) else sessions older id

pub rows : Table → SessionFilter → List UserSession
rows [] f = []
rows (s ∷ older) f =
    let rest = rows older f in
    if is_null s.deleted_at && selects f (row_at older s) then row_at older s ∷ rest else rest

update : SessionUpdate → String → Table → Table
update u id [] = []
update u id (s ∷ older) =
    let rest = update u id older in
    if unary (length older) == id then apply_update u s ∷ older else s ∷ rest

update_all : SessionUpdate → SessionFilter → Table → Table
update_all u f [] = []
update_all u f (s ∷ older) =
    (if selects f (row_at older s) then apply_update u s else s) ∷ update_all u f older

created : Table → NewSession → UserSession
created d n = record {
  id = unary (length d);
  user_id = n.user_id;
  refresh_token = n.refresh_token;
  is_valid = n.is_valid;
  deleted_at = none;
  expires_at = n.expires_at;
}

abbrev pub ann : User
ann = record {
  id = "ann";
  google_id = "g-ann";
  email = "ann@example.org";
  name = "Ann";
  picture = none;
  deleted_at = none;
}

joined : Table → String → Option (UserSession × User)
joined d id = elim (visible (sessions d id)) [
  | none ↦ none
  | some s ↦ some (s, record ann { id = s.user_id })
]

pub prisma : Prisma Table
unfolding sessions rows update update_all created joined unary
prisma = record {
  find_user_by_google_id = λ g d. (ok (some ann), d);
  find_user_by_email = λ e d. (ok (some ann), d);
  create_user = λ n d. (ok ann, d);
  update_user = λ id u d. (ok ann, d);
  find_session = λ id d. (ok (visible (sessions d id)), d);
  find_session_with_user = λ id d. (ok (joined d id), d);
  find_sessions = λ f d. (ok (rows d f), d);
  create_session = λ n d. (ok (created d n), created d n ∷ d);
  update_session = λ id u d. (
    if is_some (sessions d id) then ok tt else err (failure "Record to update not found."),
    update u id d,
  );
  update_sessions = λ f u d. (ok tt, update_all u f d);
}

sessions_above : (d : Table) (n : ℕ) → length d ≤ n → sessions d (unary n) ≡ none
unfolding sessions
sessions_above [] n h = refl
sessions_above (s ∷ older) n h = ground (arith, unary-lt (length older) n, sessions_above older n)

sessions_id : (d : Table) (id : String) (s : UserSession) → sessions d id ≡ some s → s.id ≡ id
unfolding sessions
sessions_id [] id s e = cc
sessions_id (r ∷ older) id s e =
    ground (arith, eq_iff (unary (length older)) id, sessions_id older id s)

rows_mem :
    (d : Table) (f : SessionFilter) (id : String)
    → any (λ s. s.id == id) (rows d f) ≡ selects_row f (visible (sessions d id))
unfolding rows sessions
rows_mem [] f id = refl
rows_mem (s ∷ older) f id = ground (
  arith,
  rows_mem older f id,
  eq_iff (unary (length older)) id,
  sessions_above older (length older),
)

length-update : (u : SessionUpdate) (id : String) (d : Table) → length (update u id d) ≡ length d
unfolding update
length-update u id [] = refl
length-update u id (s ∷ older) = ground (arith, length-update u id older)

length-update_all :
    (u : SessionUpdate) (f : SessionFilter) (d : Table) → length (update_all u f d) ≡ length d
unfolding update_all
length-update_all u f [] = refl
length-update_all u f (s ∷ older) = ground (arith, length-update_all u f older)

sessions-update :
    (d : Table) (id : String) (u : SessionUpdate) (j : String)
    → sessions (update u id d) j ≡ (if id == j then update_row u (sessions d j) else sessions d j)
unfolding sessions update
sessions-update [] id u j = ground arith
sessions-update (s ∷ older) id u j = ground (
  arith,
  sessions-update older id u j,
  length-update u id older,
  eq_iff (unary (length older)) id,
  eq_iff (unary (length older)) j,
  eq_iff id j,
)

sessions-update_all :
    (d : Table) (f : SessionFilter) (u : SessionUpdate) (j : String)
    → sessions (update_all u f d) j
      ≡ (if selects_row f (sessions d j) then update_row u (sessions d j) else sessions d j)
unfolding sessions update_all
sessions-update_all [] f u j = refl
sessions-update_all (s ∷ older) f u j =
    rw (length-update_all u f older, sessions-update_all older f u j)
      (elim (Bool-cases (unary (length older) == j)) [
        | inr e ↦ rw e refl
        | inl e ↦ rw e (elim (Bool-cases (selects f (row_at older s))) [
          | inl h ↦ rw h refl
          | inr h ↦ rw h refl
        ])
      ])

pub prisma_laws : PrismaLaws prisma
unfolding prisma sessions created joined
prisma_laws = record {
  sessions = sessions;
  rows = rows;
  sessions_id = sessions_id;
  find_session = λ d id. refl;
  joined = joined;
  find_session_with_user = λ d id. refl;
  joined_row = λ d id. ground arith;
  joined_user = λ d id s u e. ground arith;
  find_sessions = λ d f. refl;
  rows_mem = rows_mem;
  update_session = λ d id u. refl;
  sessions-update_session = sessions-update;
  update_sessions = λ d f u. refl;
  sessions-update_sessions = sessions-update_all;
  created = created;
  create_session = λ d n. refl;
  created_row = λ d n. (sessions_above d (length d) (omega arith), refl, refl, refl, refl);
  sessions-create_session = λ d n j. refl;
  sessions-create_user = λ d n j. refl;
  sessions-update_user = λ d id u j. refl;
  sessions-find_user = λ d x j. (refl, refl);
}
