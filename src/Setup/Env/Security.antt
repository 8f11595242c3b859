-- ===== src/Setup/Env/Security.antt =====
-- ENV_DEFINITIONS of src/setup/env-definitions.ts: authentication, and what is left.
use nestjs_vibe_engine.Prelude.{true, false, none, some, List, [], ◌∷◌}
use nestjs_vibe_engine.Setup.EnvDefinition.{EnvDefinition, text, password, number, select}

abbrev pub auth_definitions : List EnvDefinition
auth_definitions =
    record {
      key = "JWT_SECRET";
      label = "JWT 시크릿 키";
      group = "auth";
      type = password;
      default_value = "";
      placeholder = "32자 이상 랜덤 문자열";
      required = true;
      options = none;
      auto_generate = true;
      auto_generate_length = some 64;
      description = some "JWT 토큰 서명에 사용되는 비밀 키";
      hide_when_env = none;
    }
    ∷ record {
      key = "JWT_ACCESS_EXPIRES_IN";
      label = "Access Token 만료";
      group = "auth";
      type = text;
      default_value = "1h";
      placeholder = "1h";
      required = true;
      options = none;
      auto_generate = false;
      auto_generate_length = none;
      description = some "Access Token 만료 시간 (예: 1h, 30m, 7d)";
      hide_when_env = none;
    }
    ∷ record {
      key = "JWT_REFRESH_EXPIRES_IN";
      label = "Refresh Token 만료";
      group = "auth";
      type = text;
      default_value = "30d";
      placeholder = "30d";
      required = true;
      options = none;
      auto_generate = false;
      auto_generate_length = none;
      description = some "Refresh Token 만료 시간 (예: 30d, 90d)";
      hide_when_env = none;
    }
    ∷ record {
      key = "GOOGLE_CLIENT_ID";
      label = "Google OAuth Client ID";
      group = "auth";
      type = text;
      default_value = "";
      placeholder = "xxx.apps.googleusercontent.com";
      required = false;
      options = none;
      auto_generate = false;
      auto_generate_length = none;
      description = some "Google Cloud Console에서 발급받은 OAuth Client ID";
      hide_when_env = none;
    }
    ∷ record {
      key = "GOOGLE_CLIENT_SECRET";
      label = "Google OAuth Client Secret";
      group = "auth";
      type = password;
      default_value = "";
      placeholder = "Google OAuth Secret";
      required = false;
      options = none;
      auto_generate = false;
      auto_generate_length = none;
      description = some "Google Cloud Console에서 발급받은 OAuth Client Secret";
      hide_when_env = none;
    }
    ∷ record {
      key = "GOOGLE_CALLBACK_URL";
      label = "Google OAuth Callback URL";
      group = "auth";
      type = text;
      default_value = "http://localhost:3000/api/v1/auth/google/callback";
      placeholder = "http://localhost:3000/api/v1/auth/google/callback";
      required = false;
      options = none;
      auto_generate = false;
      auto_generate_length = none;
      description = some "Google OAuth 로그인 후 리다이렉트 URL";
      hide_when_env = none;
    }
    ∷ record {
      key = "MAX_DEVICES_PER_USER";
      label = "최대 동시 접속 기기 수";
      group = "auth";
      type = number;
      default_value = "1";
      placeholder = "1";
      required = true;
      options = none;
      auto_generate = false;
      auto_generate_length = none;
      description = some "로그인 계정당 동시 접속 가능한 기기 수 (0 = 무제한)";
      hide_when_env = none;
    }
    ∷ []

abbrev pub etc_definitions : List EnvDefinition
etc_definitions =
    record {
      key = "ENCRYPTION_KEY";
      label = "암호화 키";
      group = "etc";
      type = password;
      default_value = "";
      placeholder = "32바이트 암호화 키";
      required = true;
      options = none;
      auto_generate = true;
      auto_generate_length = some 32;
      description = some "민감 데이터 AES 암호화에 사용되는 키";
      hide_when_env = none;
    }
    ∷ record {
      key = "DEFAULT_TIMEZONE";
      label = "기본 타임존";
      group = "etc";
      type = text;
      default_value = "Asia/Seoul";
      placeholder = "Asia/Seoul";
      required = true;
      options = none;
      auto_generate = false;
      auto_generate_length = none;
      description = some "클라이언트 미지정 시 사용할 기본 타임존";
      hide_when_env = none;
    }
    ∷ record {
      key = "CORS_ORIGINS";
      label = "CORS 허용 도메인";
      group = "etc";
      type = text;
      default_value = "*";
      placeholder = "http://localhost:3000 또는 * (전체 허용)";
      required = true;
      options = none;
      auto_generate = false;
      auto_generate_length = none;
      description = some "쉼표로 구분하여 여러 도메인 입력 가능, *는 전체 허용";
      hide_when_env = none;
    }
    ∷ record {
      key = "LOG_DIR";
      label = "로그 디렉토리";
      group = "etc";
      type = text;
      default_value = "./logs";
      placeholder = "./logs";
      required = false;
      options = none;
      auto_generate = false;
      auto_generate_length = none;
      description = some "로그 파일 저장 경로";
      hide_when_env = none;
    }
    ∷ record {
      key = "SWAGGER_ENABLED";
      label = "Swagger 문서 활성화";
      group = "etc";
      type = select;
      default_value = "true";
      placeholder = "";
      required = true;
      options = some ("true" ∷ "false" ∷ []);
      auto_generate = false;
      auto_generate_length = none;
      description = some "API 문서 자동 생성 (prod 환경에서는 자동으로 비활성화됩니다)";
      hide_when_env = some "prod";
    }
    ∷ record {
      key = "SWAGGER_PATH";
      label = "Swagger 경로";
      group = "etc";
      type = text;
      default_value = "/api-docs";
      placeholder = "/api-docs";
      required = false;
      options = none;
      auto_generate = false;
      auto_generate_length = none;
      description = some "Swagger UI 접근 경로";
      hide_when_env = some "prod";
    }
    ∷ []
