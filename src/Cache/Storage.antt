-- ===== src/Cache/Storage.antt =====
-- What the cache service stores is what it reads, over a server that answers.
use nestjs_vibe_engine.Prelude.{
  ℕ, String, ◌≡◌, refl, true, false, Option, none, some, if◌then◌else◌, Bool, ◌==◌, arith, List,
  ◌∷◌, any, ap, inl, inr, ◌∙◌,
}
use nestjs_vibe_engine.Exec.{Result-cases, ok, Exec, pure, ◌>>◌}
use nestjs_vibe_engine.Cache.Service.{
  Redis, Json, CacheState, get, set, del, guarded, is_connected, positive_ttl, send_set, decode,
}
use nestjs_vibe_engine.Cache.Laws.{RedisLaws}

module _ {R A : Type 0} (redis : Redis R) (fallback : A) (command : Redis R → Exec R A)
    (s : CacheState R) (up : is_connected s ≡ true) where
  pub guarded-state :
      (guarded (some redis) fallback command s).1 ≡ record s { redis = (command redis s.redis).1 }
  unfolding guarded is_connected
  guarded-state = elim (Result-cases (command redis s.redis).0) [
    | inl (a, e) ↦ rw up (rw e refl)
    | inr (x, e) ↦ rw up (rw e refl)
  ]

  pub guarded-answer :
      (a : A)
      → (command redis s.redis).0 ≡ ok a
      → (guarded (some redis) fallback command s).0 ≡ ok a
  unfolding guarded is_connected
  guarded-answer a e = rw up (rw e refl)

module _ {R A : Type 0} (redis : Redis R) where
  -- A command of the service over a client that is there answers something.
  pub guarded-runs :
      (fallback : A) (command : Redis R → Exec R A) (s : CacheState R)
      → is_connected s ≡ true
      → (a : A) × (guarded (some redis) fallback command s
          ≡ (ok a, record s { redis = (command redis s.redis).1 }))
  unfolding guarded is_connected
  guarded-runs fallback command s up = elim (Result-cases (command redis s.redis).0) [
    | inl (a, e) ↦ (a, rw up (rw e refl))
    | inr (x, e) ↦ (fallback, rw up (rw e refl))
  ]

module _ {R T : Type 0} (redis : Redis R) (laws : RedisLaws redis) (json : Json T) where
  -- What `get` answers for a stored text.
  abbrev pub decoded : Option String → Option T
  decoded none = none
  decoded (some value) = decode json value

  pub get-stored :
      (k : String) (s : CacheState R)
      → is_connected s ≡ true
      → (get (some redis) json k s).0 ≡ ok (decoded (laws.stored s.redis k))
  unfolding get is_connected
  get-stored k s up = rw up (rw (laws.get s.redis k) (ground arith))

  pub send_set-stored :
      (k text : String) (time : Option ℕ) (r : R)
      → ((send_set (some redis) json redis k text time r).0 ≡ ok tt)
        × ((j : String)
            → laws.stored (send_set (some redis) json redis k text time r).1 j
              ≡ (if k == j then some text else laws.stored r j))
  send_set-stored k text none r = (laws.set r k text, laws.stored-set r k text)
  send_set-stored k text (some n) r = (laws.set_ex r k text n, laws.stored-set_ex r k text n)

  -- A value that JSON writes and reads back is read by `get` after `set`, with any time to live; the
  -- other keys answer as before.
  pub get-set :
      (k j : String) (value : T) (time : Option ℕ) (s : CacheState R)
      → json.parse (json.stringify value) ≡ some (some value)
      → is_connected s ≡ true
      → ((set (some redis) json k value time s).0 ≡ ok true)
        × ((get (some redis) json j (set (some redis) json k value time s).1).0
            ≡ (if k == j then ok (some value) else (get (some redis) json j s).0))
  unfolding set is_connected
  get-set k j value time s back up =
      let (sent, after) = send_set-stored k (json.stringify value) (positive_ttl time) s.redis in
      let command : Redis R → Exec R Bool = λ redis.
        send_set (some redis) json redis k (json.stringify value) (positive_ttl time)
        >> pure true in
      (
        guarded-answer redis false command s up true (rw sent refl),
        ap (λ s'. (get (some redis) json j s').0) (guarded-state redis false command s up)
            ∙ rw sent (
                get-stored j
                  (record s {
                    redis =
                        (send_set (some redis) json redis k (json.stringify value)
                          (positive_ttl time) s.redis).1;
                  })
                  up
                ∙ rw (get-stored j s up) (rw (after j) (ground (arith, back)))),
      )

  -- After `del` of some keys, `get` answers none for these, and as before for the others.
  pub get-del :
      (k : String) (ks : List String) (j : String) (s : CacheState R)
      → is_connected s ≡ true
      → (get (some redis) json j (del (some redis) (k ∷ ks) s).1).0
        ≡ (if any (λ i. i == j) (k ∷ ks) then ok none else (get (some redis) json j s).0)
  unfolding del is_connected
  get-del k ks j s up =
      ap (λ s'. (get (some redis) json j s').0)
        (guarded-state redis 0 (λ redis. redis.del (k ∷ ks)) s up)
      ∙ get-stored j (record s { redis = (redis.del (k ∷ ks) s.redis).1 }) up
      ∙ rw (get-stored j s up) (rw (laws.stored-del s.redis (k ∷ ks) j) (ground arith))
