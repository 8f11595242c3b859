-- ===== src/Auth/Tests/Library.antt =====
-- A cache and a JWT library in memory that behave as `CacheLaws` and `JwtLaws` say. A token spells
-- its claims: each character behind a "c", and each text closed by a ";".
use Prim.Native.Char.{Char, code}
use nestjs_vibe_engine.Prelude.{
  String, ◌≡◌, refl, ap, none, some, List, [], ◌∷◌, if◌then◌else◌, nat_eq, is_some,
}
use nestjs_vibe_engine.Js.Map
use nestjs_vibe_engine.Js.Map.{TextMap}
use nestjs_vibe_engine.Exec.{ok}
use nestjs_vibe_engine.Auth.Deps.{Cache, Jwt, Claims, Json, UserInfo}
use nestjs_vibe_engine.Auth.Deps.Laws.{CacheLaws, JwtLaws}

unfoldable pub cache : Cache (TextMap String)
unfolding Map.get Map.set Map.delete
cache = record {
  get = λ k c. (ok (Map.get c k), c);
  set = λ k v ttl c. (ok tt, Map.set c k v);
  del = λ k c. (ok tt, Map.delete c k);
  exists = λ k c. (ok (is_some (Map.get c k)), c);
}

unfoldable pub cache_laws : CacheLaws cache
unfolding cache
cache_laws = record {
  stored = λ c k. Map.get c k;
  get = λ c k. refl;
  exists = λ c k. refl;
  set = λ c k v ttl. refl;
  stored-set = λ c k v ttl j. Map.get-set c k j v;
  del = λ c k. refl;
  stored-del = λ c k j. Map.get-delete c k j;
}

spell : String → String → String
spell String.[] rest = String.◌∷◌ ";" rest
spell (String.◌∷◌ c t) rest = String.◌∷◌ "c" (String.◌∷◌ c (spell t rest))

spell_claims : Claims → String
spell_claims [] = ""
spell_claims ((k, v) ∷ claims) = spell k (spell v (spell_claims claims))

push_char : Char → List String → List String
push_char c [] = []
push_char c (t ∷ ts) = String.◌∷◌ c t ∷ ts

texts : String → List String
texts String.[] = []
texts (String.◌∷◌ m String.[]) = "" ∷ []
texts (String.◌∷◌ m (String.◌∷◌ c r)) =
    let with_char = push_char c (texts r) in
    let closed = "" ∷ texts (String.◌∷◌ c r) in if nat_eq (code m) b'c' then with_char else closed

pairs : List String → Claims
pairs (k ∷ v ∷ ts) = (k, v) ∷ pairs ts
pairs _ = []

texts-spell : (t rest : String) → texts (spell t rest) ≡ t ∷ texts rest
unfolding texts spell push_char
texts-spell String.[] String.[] = refl
texts-spell String.[] (String.◌∷◌ c r) = refl
texts-spell (String.◌∷◌ c t) rest = ap (push_char c) (texts-spell t rest)

pairs_spelled : (claims : Claims) → pairs (texts (spell_claims claims)) ≡ claims
unfolding pairs spell_claims
pairs_spelled [] = unfold texts in refl
pairs_spelled ((k, v) ∷ claims) =
    rw (texts-spell k (spell v (spell_claims claims)))
      (rw (texts-spell v (spell_claims claims)) (ap (λ l. (k, v) ∷ l) (pairs_spelled claims)))

unfoldable pub jwt : Jwt
unfolding spell spell_claims push_char texts pairs
jwt = record {
  sign = λ now claims expires_in. spell_claims claims;
  verify = λ now token. some (pairs (texts token));
}

pub jwt_laws : JwtLaws jwt
unfolding jwt
jwt_laws = record { verify_sign = λ t t' claims e h. ap some (pairs_spelled claims) }

-- `parse` reads the one entry that the tests store.
abbrev pub ann_info : UserInfo
ann_info = record {
  id = "ann";
  email = "ann@example.org";
  name = "Ann";
  picture = none;
  session_id = "";
}

abbrev pub json : Json
json = record { stringify = λ info. "{ann}"; parse = λ t. some ann_info }
