-- ===== src/User/Tests.antt =====
-- Tests of the user service over a table in memory, and the Redis server of the cache's tests.
use nestjs_vibe_engine.Prelude.{
  String, ◌≡◌, refl, true, Option, none, some, [], ◌∷◌, arith, eq_iff, Option-cases, inl, inr,
}
use nestjs_vibe_engine.Js.Map
use nestjs_vibe_engine.Js.Map.{TextMap}
use nestjs_vibe_engine.Exec.{World, Result, ok, err, failure}
use nestjs_vibe_engine.Cache.Service.{CacheState, is_connected}
use nestjs_vibe_engine.Cache.Tests.{Server, redis, redis_laws}
use nestjs_vibe_engine.User.Repository.{
  User, UserTable, UserWhere, active_id, active_email, active_google_id, deleted_id, date, iso_text,
}
use nestjs_vibe_engine.User.Service.{UserDeps, find_by_id, update, soft_delete, user_info}
use nestjs_vibe_engine.User.Laws.{UserTableLaws, apply_data, apply_to_row, if_active}
use nestjs_vibe_engine.User.Coherence.{find_by_id-update, stored}
use nestjs_vibe_engine.User.Coherence.Deletion.{find_by_id-soft_delete}

abbrev ann : User
ann = record {
  id = "ann";
  google_id = "g";
  email = "e";
  name = "Ann";
  picture = none;
  deleted_at = none;
  created_at = date 1;
  updated_at = date 2;
}

-- As JSON reads her back.
abbrev cached_ann : User
cached_ann = record ann { created_at = iso_text "1970"; updated_at = iso_text "1970" }

abbrev find_first : UserWhere → TextMap User → Option User
find_first (active_id id) d = if_active (Map.get d id)
find_first (active_email e) d = none
find_first (active_google_id g) d = none
find_first (deleted_id id) d = Map.get d id

abbrev updated_or_missing : Option User → Result User
updated_or_missing none = err (failure "Record to update not found.")
updated_or_missing (some u) = ok u

abbrev set_if_some : TextMap User → String → Option User → TextMap User
set_if_some d id none = d
set_if_some d id (some u) = Map.set d id u

table : UserTable (TextMap User)
table = record {
  find_first = λ query d. (ok (find_first query d), d);
  create = λ new d. (ok ann, Map.set d "ann" ann);
  update = λ id change d. (
    updated_or_missing (apply_to_row 9 change (Map.get d id)),
    set_if_some d id (apply_to_row 9 change (Map.get d id)),
  );
}

table_laws : UserTableLaws table
unfolding table
table_laws = record {
  rows = λ d id. Map.get d id;
  clock = λ d. 9;
  find_active = λ d id. refl;
  update = λ d id change u row. rw row refl;
  rows-update = λ d id change j. elim (Option-cases (Map.get d id)) [
    | inl e ↦ rw e (ground (arith, e, eq_iff id j))
    | inr (u, e) ↦ rw e (ground (arith, e, eq_iff id j, Map.get-set d id j (apply_data 9 change u)))
  ];
}

abbrev deps : UserDeps (TextMap User) Server
deps = record {
  table = table;
  client = some redis;
  user_json = record {
    stringify = λ u. "{ann}";
    parse = λ t. some (some cached_ann);
    raw = λ t. ann;
  };
  session_json = record {
    stringify = λ s. "{}";
    parse = λ t. some (some (record { user_id = none }));
    raw = λ t. record { user_id = none };
  };
  encryption = record { encrypt = λ nonce t. t; decrypt = λ t. some t };
  iso = λ t. "1970";
}

abbrev world : World (TextMap User) (CacheState Server)
world = record {
  db = ("ann", ann) ∷ [];
  cache = record {
    redis = record { texts = []; counts = [] };
    stats = record { hits = 0; misses = 0; keys = 0; connected = true };
  };
}

up : is_connected world.cache ≡ true
unfolding is_connected
up = refl

is_active_user : if_active (table_laws.rows world.db "ann") ≡ some ann
unfolding table_laws Map.get
is_active_user = refl

not_cached : stored deps redis refl redis_laws world (user_info "ann") ≡ none
unfolding redis_laws Map.get
not_cached = refl

find_by_id-update_example :
    (find_by_id deps "ann" (update deps 9 "ann" (some "Anna") none world).1).0
    ≡ ok (some cached_ann)
find_by_id-update_example =
    (find_by_id-update deps redis refl redis_laws table_laws 9 "ann" (some "Anna") none world ann
      cached_ann up is_active_user refl).1

find_by_id-soft_delete_example :
    (find_by_id deps "ann" (soft_delete deps 9 "ann" world).1).0 ≡ ok none
find_by_id-soft_delete_example =
    (find_by_id-soft_delete deps redis refl redis_laws table_laws 9 "ann" world ann up
      is_active_user).1
