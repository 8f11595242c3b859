-- ===== src/Logger.antt =====
-- src/core/logger/logger.service.ts: what is handed to winston, which is left out with its files. `V`
-- is what other values than texts, errors and objects are. Objects are maps, of which only look-ups
-- are read.
pub mod Context
use nestjs_vibe_engine.Prelude.{
  String, ◌==◌, Option, none, some, List, [], ◌∷◌, ◌++◌, if◌then◌else◌,
}
use nestjs_vibe_engine.Js.Map
use nestjs_vibe_engine.Js.Map.{TextMap}

pub data Level : Type 0 where
  info : Level
  warn : Level
  error : Level
  debug : Level
  verbose : Level

-- An argument behind the message; an object comes with its own keys.
pub data Param (V : Type 0) : Type 0 where
  text : String → Param V
  thrown : (message : String) (stack : Option String) → Param V
  object : TextMap V → Param V
  other : V → Param V

-- A value of the metadata; `params` is the list of arguments itself.
pub data MetaValue (V : Type 0) : Type 0 where
  meta_text : String → MetaValue V
  meta_stack : Option String → MetaValue V
  meta_given : V → MetaValue V
  meta_params : List (Param V) → MetaValue V

pub record Entry (V : Type 0) : Type 0 where
  pub level : Level
  pub message : String
  pub fields : TextMap (MetaValue V)

-- `entries` is what winston was handed, the newest last.
pub record LoggerService (V : Type 0) : Type 0 where
  pub context : String
  pub entries : List (Entry V)

module _ {V : Type 0} where
  unfoldable pub last_param : List (Param V) → Option (Param V)
  last_param [] = none
  last_param (p ∷ []) = some p
  last_param (p ∷ (q ∷ params)) = last_param (q ∷ params)

  unfoldable pub given_fields : TextMap V → TextMap (MetaValue V)
  given_fields [] = []
  given_fields ((k, v) ∷ fields) = (k, meta_given v) ∷ given_fields fields

  unfoldable pub meta_of : List (Param V) → Option (Param V) → TextMap (MetaValue V)
  meta_of params none = []
  meta_of params (some (text t)) = ("context", meta_text t) ∷ []
  meta_of params (some (thrown message stack)) =
      ("error", meta_text message) ∷ ("stack", meta_stack stack) ∷ []
  meta_of params (some (object fields)) = given_fields fields
  meta_of params (some (other v)) = ("additionalInfo", meta_params params) ∷ []

  unfoldable pub extract_meta : List (Param V) → TextMap (MetaValue V)
  extract_meta params = meta_of params (last_param params)

  -- { ...base, ...meta }
  unfoldable pub spread : TextMap (MetaValue V) → TextMap (MetaValue V) → TextMap (MetaValue V)
  spread base [] = base
  spread base ((k, v) ∷ meta) = spread (Map.set base k v) meta

  unfoldable pub set_context : String → LoggerService V → LoggerService V
  set_context context s = record s { context = context }

  -- this.logger[level](message, { context: this.context, ...meta })
  unfoldable pub write : Level → String → TextMap (MetaValue V) → LoggerService V → LoggerService V
  write level message meta s = record s {
    entries =
        s.entries
        ++ (record {
          level = level;
          message = message;
          fields = spread (("context", meta_text s.context) ∷ []) meta;
        }
            ∷ []);
  }

  -- The methods log, warn, error, debug and verbose, of which log writes at the level of info.
  unfoldable pub write_params : Level → String → List (Param V) → LoggerService V → LoggerService V
  write_params level message params = write level message (extract_meta params)

  abbrev pub fields_or_none : Option (TextMap V) → TextMap (MetaValue V)
  fields_or_none none = []
  fields_or_none (some fields) = given_fields fields

  -- The method info.
  unfoldable pub write_info : String → Option (TextMap V) → LoggerService V → LoggerService V
  write_info message meta = write info message (fields_or_none meta)
