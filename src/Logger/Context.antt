-- ===== src/Logger/Context.antt =====
-- The fields of an entry of the log: its context and what is left of the arguments.
use nestjs_vibe_engine.Prelude.{
  String, ◌==◌, ◌≡◌, refl, sym, ap, ◌∙◌, Option, none, some, List, [], ◌∷◌, ◌++◌, eq_iff,
  Bool-cases, inl, inr,
}
use nestjs_vibe_engine.Js.Map
use nestjs_vibe_engine.Js.Map.{TextMap}
use nestjs_vibe_engine.Logger.{
  Level, Param, text, object, MetaValue, meta_text, meta_given, LoggerService, last_param,
  given_fields, meta_of, extract_meta, spread, write, write_params,
}

abbrev first_of {ℓ} : {A : Type ℓ} → Option A → Option A → Option A
first_of none later = later
first_of (some a) later = some a

abbrev given : {V : Type 0} → Option V → Option (MetaValue V)
given none = none
given (some v) = some (meta_given v)

module _ {V : Type 0} where
  -- In `{ ...base, ...meta }` the fields of meta come first, if each of them stands once.
  get-spread :
      (meta base : TextMap (MetaValue V)) (k : String)
      → Map.IsMap meta
      → Map.get (spread base meta) k ≡ first_of (Map.get meta k) (Map.get base k)
  unfolding spread Map.get
  get-spread [] base k h = refl
  get-spread ((j, v) ∷ meta) base k (absent, h) =
      get-spread meta (Map.set base j v) k h ∙ elim (Bool-cases (j == k)) [
        | inl e ↦
            rw (Map.get-set base j k v, e, sym (ap (Map.get meta) ((eq_iff j k).0 e)) ∙ absent) refl
        | inr e ↦ rw (Map.get-set base j k v, e) refl
      ]

  last_param-snoc :
      (earlier : List (Param V)) (p : Param V) → last_param (earlier ++ (p ∷ [])) ≡ some p
  unfolding last_param
  last_param-snoc [] p = refl
  last_param-snoc (a ∷ []) p = refl
  last_param-snoc (a ∷ (b ∷ earlier)) p = last_param-snoc (b ∷ earlier) p

  given_fields-get :
      (fields : TextMap V) (k : String) → Map.get (given_fields fields) k ≡ given (Map.get fields k)
  unfolding given_fields Map.get
  given_fields-get [] k = refl
  given_fields-get ((j, v) ∷ fields) k = elim (Bool-cases (j == k)) [
    | inl e ↦ rw e refl
    | inr e ↦ rw e (given_fields-get fields k)
  ]

  given_fields-IsMap : (fields : TextMap V) → Map.IsMap fields → Map.IsMap (given_fields fields)
  unfolding given_fields
  given_fields-IsMap [] h = tt
  given_fields-IsMap ((j, v) ∷ fields) (absent, h) =
      (given_fields-get fields j ∙ ap given absent, given_fields-IsMap fields h)

  -- With an object as the last argument, an entry has the object's fields, also its own context if it
  -- has one, and the set context if not.
  extract_meta-object_last :
      (earlier : List (Param V)) (fields : TextMap V) (context k : String)
      → Map.IsMap fields
      → Map.get
          (spread
            (("context", meta_text context) ∷ [])
            (extract_meta (earlier ++ (object fields ∷ []))))
          k
        ≡ first_of (given (Map.get fields k)) (Map.get (("context", meta_text context) ∷ []) k)
  unfolding extract_meta meta_of
  extract_meta-object_last earlier fields context k h =
      rw (last_param-snoc earlier (object fields), sym (given_fields-get fields k))
        (get-spread (given_fields fields) (("context", meta_text context) ∷ []) k
          (given_fields-IsMap fields h))

  -- With a text as the last argument, the text is the context of the entry, whatever context was set,
  -- and nothing is kept of the arguments before it, such as the stack that NestJS hands to `error`.
  write_params-text_last :
      (level : Level) (message context : String) (earlier : List (Param V)) (s : LoggerService V)
      → write_params level message (earlier ++ (text context ∷ [])) s ≡ record s {
        entries =
            s.entries
            ++ (record {
              level = level;
              message = message;
              fields = ("context", meta_text context) ∷ [];
            }
                ∷ []);
      }
  unfolding write_params extract_meta write spread meta_of Map.set
  write_params-text_last level message context earlier s =
      rw (last_param-snoc earlier (text context)) refl
