-- ===== src/Setup/EnvDefinition.antt =====
-- The types of src/setup/env-definitions.ts.
use nestjs_vibe_engine.Prelude.{ℕ, String, Bool, Option, List, [], ◌∷◌}

pub data FieldType : Type 0 where
  text password number select : FieldType

-- none, and false for `autoGenerate`: not given
pub record EnvDefinition : Type 0 where
  pub key : String
  pub label : String
  pub group : String
  pub type : FieldType
  pub default_value : String
  pub placeholder : String
  pub required : Bool
  pub options : Option (List String)
  pub auto_generate : Bool
  pub auto_generate_length : Option ℕ
  pub description : Option String
  pub hide_when_env : Option String

pub record EnvGroup : Type 0 where
  pub id : String
  pub label : String
  pub icon : String

abbrev pub env_groups : List EnvGroup
env_groups =
    record { id = "app"; label = "앱 기본 설정"; icon = "⚙\u{fe0f}" }
    ∷ record { id = "database"; label = "데이터베이스"; icon = "🗄\u{fe0f}" }
    ∷ record { id = "redis"; label = "Redis 캐시"; icon = "📦" }
    ∷ record { id = "auth"; label = "인증 / 보안"; icon = "🔐" }
    ∷ record { id = "etc"; label = "기타 설정"; icon = "🔧" }
    ∷ []
