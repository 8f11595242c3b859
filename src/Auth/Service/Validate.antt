-- ===== src/Auth/Service/Validate.antt =====
-- `validateSession`: with a cache, without one, and after a logout.
use nestjs_vibe_engine.Prelude.{
  ℕ, ◌≤◌, String, ◌≡◌, ◌≢◌, ◌↔◌, refl, sym, ◌∙◌, ap, Bool, true, false, not, ◌&&◌, Option, none,
  some, ltb, ◌==◌, eq_iff, eq_refl, ne→eq-false, arith, Bool-cases, inl, inr, is_some,
}
use nestjs_vibe_engine.Js.Text.{key-ne_of_head}
use nestjs_vibe_engine.Exec.{World, ok, ◌>>=◌}
use nestjs_vibe_engine.Auth.Deps.{UserSession, User, Deps, Cache}
use nestjs_vibe_engine.Auth.Deps.Laws.{
  PrismaLaws, CacheLaws, is_active, row_of, visible, visible-some, visible_active,
}
use nestjs_vibe_engine.Auth.Sessions.{
  invalidated, invalidate_single_session, clear_cached_user_info, session_invalid_key,
  user_info_key, mark_session_invalid_in_cache, is_session_invalidated_in_cache,
  get_cached_user_info, parsed,
}
use nestjs_vibe_engine.Auth.Sessions.Effects.{
  invalidate_single_session-db, clear-db, cache_user_info-db,
}
use nestjs_vibe_engine.Auth.Service.{
  SessionInfo, own_session, logout, validate_session, validate_in_db, validate_owned,
}

flag-ne-info :
    (session_id user_id : String)
    → (user_info_key user_id == session_invalid_key session_id) ≡ false
flag-ne-info session_id user_id =
    ne→eq-false _ _
      (key-ne_of_head "u" "s" "ser_info" "ession_invalid" user_id session_id (omega arith))

module _ {D C : Type 0} (deps : Deps D C) where
  owned_expired :
      (now : ℕ) (user_id : String) (s : UserSession) (user : User) (w : World D C)
      (info : SessionInfo)
      → ltb s.expires_at now ≡ true
      → (validate_owned deps now user_id (some (s, user)) w).0 ≢ ok (some info)
  unfolding validate_owned
  owned_expired now user_id s user w info e = ground arith

  owned_live :
      (now : ℕ) (user_id : String) (s : UserSession) (user : User) (w : World D C)
      → ltb s.expires_at now ≡ false
      → (validate_owned deps now user_id (some (s, user)) w).0
        ≡ ok (
            some (record {
              user_id = user.id;
              session_id = s.id;
              email = user.email;
              name = user.name;
              picture = user.picture;
            }))
  unfolding validate_owned
  owned_live now user_id s user w e = rw e (rw (cache_user_info-db deps user_id _ w).0 refl)

  owned_none :
      (now : ℕ) (user_id : String) (w : World D C) (info : SessionInfo)
      → (validate_owned deps now user_id none w).0 ≢ ok (some info)
  unfolding validate_owned
  owned_none now user_id w info h = cc

  owned-session :
      (now : ℕ) (user_id session_id : String) (row : Option (UserSession × User)) (w : World D C)
      (info : SessionInfo)
      → ((s : UserSession) → row_of row ≡ some s → s.id ≡ session_id)
      → (validate_owned deps now user_id (own_session user_id row) w).0 ≡ ok (some info)
      → info.session_id ≡ session_id
  owned-session now user_id session_id none w info same h = absurd (owned_none now user_id w info h)
  owned-session now user_id session_id (some (s, user)) w info same h =
      elim (Bool-cases (s.is_valid && not (is_some s.deleted_at) && s.user_id == user_id)) [
        | inr e ↦ absurd (owned_none now user_id w info (rw e at h))
        | inl e ↦ elim (Bool-cases (ltb s.expires_at now)) [
          | inl late ↦ absurd (owned_expired now user_id s user w info late (rw e at h))
          | inr live ↦
              let answer = sym (owned_live now user_id s user w live) ∙ (rw e at h) in
              let is_same : info.session_id ≡ s.id = ground arith in is_same ∙ same s refl
        ]
      ]

module _ {D C : Type 0} (deps : Deps D C) (cache : Cache C) (here : deps.cache ≡ some cache)
    (laws : CacheLaws cache) where
  -- What the cache holds for a session and for a user.
  abbrev flag : C → String → Option String
  flag c session_id = laws.stored c (session_invalid_key session_id)

  mark-flag :
      (session_id : String) (w : World D C)
      → flag (mark_session_invalid_in_cache deps session_id w).1.cache session_id ≡ some "true"
  unfolding mark_session_invalid_in_cache
  mark-flag session_id w =
      rw (here, mark_session_invalid_in_cache)
        (rw (laws.set w.cache (session_invalid_key session_id) "true" 2592000)
          (rw laws.stored-set (rw eq_refl refl)))

  clear-flag :
      (user_id session_id : String) (w : World D C)
      → flag (clear_cached_user_info deps user_id w).1.cache session_id ≡ flag w.cache session_id
  unfolding clear_cached_user_info
  clear-flag user_id session_id w =
      rw (here, clear_cached_user_info)
        (rw (laws.del w.cache (user_info_key user_id)) (rw laws.stored-del (rw flag-ne-info refl)))

  read-flag :
      (session_id : String) (w : World D C)
      → is_session_invalidated_in_cache deps session_id w
        ≡ (ok (is_some (flag w.cache session_id)), w)
  unfolding is_session_invalidated_in_cache
  read-flag session_id w =
      rw (here, is_session_invalidated_in_cache)
        (rw (laws.exists w.cache (session_invalid_key session_id)))

  read-info :
      (user_id : String) (w : World D C)
      → get_cached_user_info deps user_id w
        ≡ (ok (parsed deps.json.parse (laws.stored w.cache (user_info_key user_id))), w)
  unfolding get_cached_user_info
  read-info user_id w =
      rw (here, get_cached_user_info) (rw (laws.get w.cache (user_info_key user_id)))

  flagged :
      (now : ℕ) (user_id session_id : String) (w : World D C)
      → is_some (flag w.cache session_id) ≡ true
      → validate_session deps now user_id session_id w ≡ (ok none, w)
  unfolding validate_session
  flagged now user_id session_id w h = rw (read-flag session_id w) (rw h)

  single-flag :
      (prisma_laws : PrismaLaws deps.prisma) (session_id : String) (w : World D C)
      → is_some (prisma_laws.sessions w.db session_id) ≡ true
      → flag (invalidate_single_session deps session_id w).1.cache session_id ≡ some "true"
  unfolding invalidate_single_session
  single-flag prisma_laws session_id w found =
      rw (prisma_laws.update_session w.db session_id invalidated)
        (rw found (mark-flag session_id _))

  logout-flag :
      (prisma_laws : PrismaLaws deps.prisma) (u session_id : String) (w : World D C)
      → is_some (prisma_laws.sessions w.db session_id) ≡ true
      → is_some (flag (logout deps u session_id false w).1.cache session_id) ≡ true
  unfolding logout
  logout-flag prisma_laws u session_id w found =
      rw ((invalidate_single_session-db deps prisma_laws session_id w).0, found)
        (rw (clear-db deps u (invalidate_single_session deps session_id w).1).0 (
          rw (clear-flag u session_id (invalidate_single_session deps session_id w).1)
            (rw (single-flag prisma_laws session_id w found) refl)))

  -- After a logout from a session, for as long as its flag is in the cache, the session is refused at
  -- any time and for any user, though the user's entry may be cached anew.
  pub validate_after_logout :
      (prisma_laws : PrismaLaws deps.prisma) (now : ℕ) (u v session_id : String) (w : World D C)
      → is_some (prisma_laws.sessions w.db session_id) ≡ true
      → let w' = (logout deps u session_id false w).1 in
        validate_session deps now v session_id w' ≡ (ok none, w')
  validate_after_logout prisma_laws now u v session_id w found =
      flagged now v session_id _ (logout-flag prisma_laws u session_id w found)

-- The row is there, valid and not deleted.
abbrev pub is_open : Option UserSession → Bool
is_open none = false
is_open (some s) = is_active s

module _ {D C : Type 0} (deps : Deps D C) (absent : deps.cache ≡ none)
    (laws : PrismaLaws deps.prisma) where
  to_db :
      (now : ℕ) (user_id session_id : String) (w : World D C)
      → validate_session deps now user_id session_id w
        ≡ validate_owned deps now user_id (own_session user_id (laws.joined w.db session_id)) w
  unfolding validate_session validate_in_db is_session_invalidated_in_cache get_cached_user_info
  to_db now user_id session_id w =
      rw (absent, is_session_invalidated_in_cache)
        (rw (absent, get_cached_user_info)
          (rw (laws.find_session_with_user w.db session_id, ◌>>=◌) refl))

  accept_row :
      (now : ℕ) (user_id : String) (row : Option (UserSession × User)) (w : World D C)
      (info : SessionInfo)
      → (validate_owned deps now user_id (own_session user_id row) w).0 ≡ ok (some info)
      → (s : UserSession) × (row_of row ≡ some s)
        × ((s.user_id == user_id && is_active s) ≡ true)
        × (now ≤ s.expires_at)
  accept_row now user_id none w info h = absurd (owned_none deps now user_id w info h)
  accept_row now user_id (some (s, user)) w info h =
      elim (Bool-cases (s.is_valid && not (is_some s.deleted_at) && s.user_id == user_id)) [
        | inr e ↦ absurd (owned_none deps now user_id w info (rw e at h))
        | inl e ↦ elim (Bool-cases (ltb s.expires_at now)) [
          | inl late ↦ absurd (owned_expired deps now user_id s user w info late (rw e at h))
          | inr live ↦ (s, refl, ground arith, ground arith)
        ]
      ]

  row_accepted :
      (now : ℕ) (user_id : String) (row : Option (UserSession × User)) (w : World D C)
      (s : UserSession)
      → row_of row ≡ some s
      → (s.user_id == user_id && is_active s) ≡ true
      → now ≤ s.expires_at
      → ((user : User) → row ≡ some (s, user) → user.id ≡ s.user_id)
      → (info : SessionInfo) × ((validate_owned deps now user_id (own_session user_id row) w).0
          ≡ ok (some info))
        × (info.user_id ≡ user_id)
        × (info.session_id ≡ s.id)
  row_accepted now user_id none w s e own live of_user = absurd (ground arith)
  row_accepted now user_id (some (t, user)) w s e own live of_user =
      let same : (t.is_valid && not (is_some t.deleted_at) && t.user_id == user_id) ≡ true =
        ground arith in
      let is_s : t ≡ s = cc in
      (
        record {
          user_id = user.id;
          session_id = t.id;
          email = user.email;
          name = user.name;
          picture = user.picture;
        },
        rw same (owned_live deps now user_id t user w (ground arith)),
        of_user user (ap (λ r. some (r, user)) is_s) ∙ (eq_iff s.user_id user_id).0 (ground arith),
        ap (λ r. r.id) is_s,
      )

  found_row :
      (d : D) (session_id : String) (s : UserSession)
      → row_of (laws.joined d session_id) ≡ some s
      → laws.sessions d session_id ≡ some s
  found_row d session_id s found =
      visible-some (laws.sessions d session_id) s (sym (laws.joined_row d session_id) ∙ found)

  -- A session that is accepted without a cache is the one that was asked for.
  pub validate_session-session :
      (now : ℕ) (user_id session_id : String) (w : World D C) (info : SessionInfo)
      → (validate_session deps now user_id session_id w).0 ≡ ok (some info)
      → info.session_id ≡ session_id
  validate_session-session now user_id session_id w info h =
      owned-session deps now user_id session_id (laws.joined w.db session_id) w info
        (λ s found. laws.sessions_id w.db session_id s (found_row w.db session_id s found))
        (rw (to_db now user_id session_id w) at h)

  own_session-closed :
      (user_id : String) (joined : Option (UserSession × User)) (row : Option UserSession)
      → row_of joined ≡ visible row
      → is_open row ≡ false
      → own_session user_id joined ≡ none
  own_session-closed user_id none row e h = refl
  own_session-closed user_id (some (s, user)) none e h = absurd (ground arith)
  own_session-closed user_id (some (s, user)) (some t) e h = ground arith

  -- A session whose row is missing, deleted or made invalid is refused without a cache, at any time and
  -- for any user.
  pub validate_closed :
      (now : ℕ) (user_id session_id : String) (w : World D C)
      → is_open (laws.sessions w.db session_id) ≡ false
      → validate_session deps now user_id session_id w ≡ (ok none, w)
  unfolding validate_owned
  validate_closed now user_id session_id w h =
      to_db now user_id session_id w
      ∙ rw
          (own_session-closed user_id (laws.joined w.db session_id) (laws.sessions w.db session_id)
            (laws.joined_row w.db session_id) h)
          refl

  -- An active row of the user that has not expired is accepted without a cache, as the user's session.
  pub validate_open :
      (now : ℕ) (user_id session_id : String) (w : World D C) (s : UserSession)
      → laws.sessions w.db session_id ≡ some s
      → (s.user_id == user_id && is_active s) ≡ true
      → now ≤ s.expires_at
      → (info : SessionInfo) × ((validate_session deps now user_id session_id w).0 ≡ ok (some info))
        × (info.user_id ≡ user_id)
        × (info.session_id ≡ session_id)
  validate_open now user_id session_id w s row own live =
      let (info, done, of_user, of_session) =
        row_accepted now user_id (laws.joined w.db session_id) w s
          (laws.joined_row w.db session_id ∙ rw row (visible_active s (ground arith))) own live
          (λ user e. laws.joined_user w.db session_id s user e) in
      (
        info,
        rw (to_db now user_id session_id w) done,
        of_user,
        of_session ∙ laws.sessions_id w.db session_id s row,
      )

  -- Without a cache `validateSession` accepts a session exactly if its row is active, is the user's,
  -- and has not expired.
  pub validate_uncached :
      (now : ℕ) (user_id session_id : String) (w : World D C)
      → ((info : SessionInfo) × ((validate_session deps now user_id session_id w).0
            ≡ ok (some info)))
        ↔ ((s : UserSession) × (laws.sessions w.db session_id ≡ some s)
            × ((s.user_id == user_id && is_active s) ≡ true)
            × (now ≤ s.expires_at))
  validate_uncached now user_id session_id w = (
    λ h.
        let (info, e) = h in
        let (s, row, own, live) =
          accept_row now user_id (laws.joined w.db session_id) w info
            (rw (to_db now user_id session_id w) at e) in
        (s, found_row w.db session_id s row, own, live),
    λ h.
        let (s, row, own, live) = h in
        let (info, done, _, _) = validate_open now user_id session_id w s row own live in
        (info, done),
  )
