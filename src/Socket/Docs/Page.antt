-- ===== src/Socket/Docs/Page.antt =====
-- The document and the page of src/core/socket/docs/ws-docs.service.ts, with their caches, and the
-- options of ws-docs.module.ts. `F` is the state of the file system; the reading of the template and
-- `JSON.stringify(value, null, 2)` are parameters, and the environment is given by its texts.
pub mod Caching
use nestjs_vibe_engine.Prelude.{
  String, ◌==◌, Bool, true, false, Option, none, some, List, [], ◌∷◌, is_some, if◌then◌else◌,
}
use nestjs_vibe_engine.Js.Text.{◌⧺◌, strip_prefix}
use nestjs_vibe_engine.Js.Replace.{replace}
use nestjs_vibe_engine.Exec.{Exec, ok, pure, try_catch, ◌>>=◌, ◌>>◌}
use nestjs_vibe_engine.Socket.Docs.{
  WsEventDirection, client_to_server, server_to_client, bidirectional, WsEventMetadata, WsDocsSpec,
  WsDocsServerInfo, WsDocsModuleOptions, or_else, build_channels,
}

-- configService.get(key), none where it is not set
abbrev pub Config : Type 0
Config = String → Option String

-- Of WsDocsModule.register; none: a field that is not given.
pub record PartialOptions : Type 0 where
  pub enabled : Option Bool
  pub path : Option String
  pub title : Option String
  pub description : Option String
  pub version : Option String
  pub server_url : Option String

abbrev pub docs_enabled : Config → Bool
docs_enabled config = or_else (config "WS_DOCS_ENABLED") "false" == "true"

abbrev pub default_title : String
default_title = "NestJS Engine WebSocket API"

abbrev pub default_description : String
default_description = "NestJS Backend Engine WebSocket API Documentation"

-- The factory of `register`.
unfoldable pub register_options : PartialOptions → Config → WsDocsModuleOptions
register_options options config = record {
  enabled = or_else options.enabled (docs_enabled config);
  path = some (or_else options.path "/ws-docs");
  title = some (or_else options.title (or_else (config "WS_DOCS_TITLE") default_title));
  description =
      some
        (or_else options.description (or_else (config "WS_DOCS_DESCRIPTION") default_description));
  version = some (or_else options.version (or_else (config "WS_DOCS_VERSION") "1.0.0"));
  server_url =
      some (or_else options.server_url (or_else (config "WS_SERVER_URL") "ws://localhost:3000"));
}

-- The factory of `forRoot`.
unfoldable pub for_root_options : Config → WsDocsModuleOptions
for_root_options config = record {
  enabled = docs_enabled config;
  path = none;
  title = some (or_else (config "WS_DOCS_TITLE") default_title);
  description = some (or_else (config "WS_DOCS_DESCRIPTION") default_description);
  version = some (or_else (config "WS_DOCS_VERSION") "1.0.0");
  server_url = some (or_else (config "WS_SERVER_URL") "ws://localhost:3000");
}

-- What changes of the service, and the files.
pub record WsDocsService (V F : Type 0) : Type 0 where
  pub events : List (WsEventMetadata V)
  pub spec : Option (WsDocsSpec V)
  pub html_cache : Option String
  pub files : F

-- What the service is given: `options` is none where nothing is injected.
pub record DocsDeps (V F : Type 0) : Type 0 where
  pub options : Option WsDocsModuleOptions
  pub config : Config
  pub read_template : Exec F String
  pub events_json : List (WsEventMetadata V) → String
  pub spec_json : WsDocsSpec V → String

abbrev pub protocol_of : String → String
protocol_of server_url = if is_some (strip_prefix "wss" server_url) then "wss" else "ws"

-- options?.field
abbrev pub given {ℓ} :
    {A : Type ℓ} → (WsDocsModuleOptions → Option A) → Option WsDocsModuleOptions → Option A
given field none = none
given field (some options) = field options

abbrev pub direction_text : WsEventDirection → String
direction_text client_to_server = "client-to-server"
direction_text server_to_client = "server-to-client"
direction_text bidirectional = "bidirectional"

unfoldable pub render : String → String → String → String → String → String → String
render template title description version events_json spec_json =
    replace
      (replace
        (replace (replace (replace template "{{TITLE}}" title) "{{DESCRIPTION}}" description)
          "{{VERSION}}" version)
        "{{EVENTS_JSON}}" events_json)
      "{{SPEC_JSON}}" spec_json

abbrev pub server_info : String → WsDocsServerInfo
server_info server_url = record {
  url = server_url;
  protocol = protocol_of server_url;
  description = "WebSocket Server";
}

module _ {V : Type 0} where
  unfoldable pub make_spec :
      Option WsDocsModuleOptions → Config → List (WsEventMetadata V) → WsDocsSpec V
  make_spec options config events =
      let server_url =
        or_else (given (λ o. o.server_url) options)
          (or_else (config "WS_SERVER_URL") "ws://localhost:3000") in
      record {
        asyncapi = "2.6.0";
        title = or_else (given (λ o. o.title) options) default_title;
        description = or_else (given (λ o. o.description) options) default_description;
        version = or_else (given (λ o. o.version) options) "1.0.0";
        servers = ("development", server_info server_url) ∷ [];
        channels = build_channels events;
      }

  unfoldable pub event_row : WsEventMetadata V → String
  event_row event =
      "<tr>\n            <td><code>"
      ⧺ event.event_name
      ⧺ "</code></td>\n            <td>"
      ⧺ event.description
      ⧺ "</td>\n            <td>"
      ⧺ direction_text event.direction
      ⧺ "</td>\n            <td>"
      ⧺ (if event.requires_auth then "Yes" else "No")
      ⧺ "</td>\n            <td>"
      ⧺ event.category
      ⧺ "</td>\n          </tr>"

  -- eventRows, joined by line breaks
  unfoldable pub event_rows : List (WsEventMetadata V) → String
  event_rows [] = ""
  event_rows (event ∷ []) = event_row event
  event_rows (event ∷ (next ∷ events)) = event_row event ⧺ "\n" ⧺ event_rows (next ∷ events)

  unfoldable pub fallback_page : WsDocsSpec V → String → String
  fallback_page spec rows =
      "<!DOCTYPE html>\n<html lang=\"ko\">\n<head>\n  <meta charset=\"UTF-8\">\n"
      ⧺ "  <meta name=\"viewport\" content=\"width=device-width, initial-scale=1.0\">\n"
      ⧺ "  <title>" ⧺ spec.title
      ⧺ "</title>\n  <style>\n    body { font-family: system-ui, sans-serif; max-width: 960px; margin: 0 auto; padding: 20px; }\n"
      ⧺ "    table { width: 100%; border-collapse: collapse; margin-top: 16px; }\n"
      ⧺ "    th, td { border: 1px solid #ddd; padding: 8px; text-align: left; }\n"
      ⧺ "    th { background-color: #f4f4f4; }\n    code { background: #f0f0f0; padding: 2px 6px; border-radius: 3px; }\n"
      ⧺ "  </style>\n</head>\n<body>\n  <h1>" ⧺ spec.title ⧺ "</h1>\n  <p>" ⧺ spec.description
      ⧺ " (v" ⧺ spec.version
      ⧺ ")</p>\n  <table>\n    <thead>\n      <tr><th>Event</th><th>Description</th><th>Direction</th><th>Auth</th><th>Category</th></tr>\n"
      ⧺ "    </thead>\n    <tbody>" ⧺ rows ⧺ "</tbody>\n  </table>\n</body>\n</html>"

module _ {V F : Type 0} (deps : DocsDeps V F) where
  unfoldable pub get_events : WsDocsService V F → List (WsEventMetadata V)
  get_events s = s.events

  abbrev pub spec_or : Option (WsDocsSpec V) → Exec (WsDocsService V F) (WsDocsSpec V)
  spec_or (some spec) s = (ok spec, s)
  spec_or none s =
      let spec = make_spec deps.options deps.config s.events in
      (ok spec, record s { spec = some spec })

  unfoldable pub get_spec : Exec (WsDocsService V F) (WsDocsSpec V)
  get_spec s = spec_or s.spec s

  unfoldable pub build_fallback_html : Exec (WsDocsService V F) String
  build_fallback_html s = (get_spec >>= λ spec. pure (fallback_page spec (event_rows s.events))) s

  abbrev pub read_file : Exec (WsDocsService V F) String
  read_file s =
      ((deps.read_template s.files).0, record s { files = (deps.read_template s.files).1 })

  abbrev pub store_html : String → Exec (WsDocsService V F) String
  store_html html s = (ok html, record s { html_cache = some html })

  -- The part of `getHtml` inside the try.
  unfoldable pub render_html : Exec (WsDocsService V F) String
  render_html s =
      (do
        template ← read_file
        spec ← get_spec
        store_html (
            render template spec.title spec.description spec.version (deps.events_json s.events)
              (deps.spec_json spec)))
        s

  -- An empty page counts as none.
  abbrev pub html_or : Option String → Exec (WsDocsService V F) String
  html_or none = try_catch render_html (λ _. build_fallback_html)
  html_or (some html) =
      if html == "" then try_catch render_html (λ _. build_fallback_html) else pure html

  unfoldable pub get_html : Exec (WsDocsService V F) String
  get_html s = html_or s.html_cache s
