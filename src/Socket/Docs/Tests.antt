-- ===== src/Socket/Docs/Tests.antt =====
-- The documentation of two events at concrete inputs.
use nestjs_vibe_engine.Prelude.{String, ◌≡◌, refl, ◌==◌, none, some, List, [], ◌∷◌, true, false}
use nestjs_vibe_engine.Js.Map
use nestjs_vibe_engine.Js.Text.{strip_prefix}
use nestjs_vibe_engine.Js.Replace.{replace, around, expand}
use nestjs_vibe_engine.Exec.{ok, err, failure}
use nestjs_vibe_engine.Socket.Docs.{
  MethodMeta, Wrapper, WsEventMetadata, scan_metadata, channel_item, build_channels,
  client_to_server, server_to_client, subscribe_operation, response_properties,
}
use nestjs_vibe_engine.Socket.Docs.Channels.{scan_metadata-events, build_channels-get}
use nestjs_vibe_engine.Socket.Docs.Page.{WsDocsService, DocsDeps, make_spec, render, get_html}
use nestjs_vibe_engine.Socket.Docs.Page.Caching.{get_html_recovers}

abbrev send : MethodMeta String
send = record {
  event = some (record {
    name = "chat:send";
    description = "Sends a message";
    direction = client_to_server;
    requires_auth = true;
    category = "chat";
    example = none;
  });
  payload = some (
      record {
        name = "content";
        type = "string";
        required = true;
        description = "The text";
        example = some "hi";
      }
      ∷ []);
  response = none;
}

abbrev sent : MethodMeta String
sent = record {
  event = some (record {
    name = "chat:send";
    description = "Brings a message";
    direction = server_to_client;
    requires_auth = true;
    category = "chat";
    example = none;
  });
  payload = none;
  response = none;
}

abbrev undocumented : MethodMeta String
undocumented = record { event = none; payload = none; response = none }

abbrev found : List (WsEventMetadata String)
found =
    record {
      event_name = "chat:send";
      description = "Sends a message";
      direction = client_to_server;
      requires_auth = true;
      payload =
          record {
            name = "content";
            type = "string";
            required = true;
            description = "The text";
            example = some "hi";
          }
          ∷ [];
      response = [];
      namespace = "/";
      category = "chat";
      example = none;
    }
    ∷ record {
      event_name = "chat:send";
      description = "Brings a message";
      direction = server_to_client;
      requires_auth = true;
      payload = [];
      response = [];
      namespace = "/";
      category = "chat";
      example = none;
    }
    ∷ []

-- The last method cannot be read, and the provider in the middle has no instance.
abbrev wrappers : List (Wrapper String)
wrappers =
    some (ok undocumented ∷ ok send ∷ [])
    ∷ none
    ∷ some (ok sent ∷ err (failure "gone") ∷ ok send ∷ [])
    ∷ []

scanned : scan_metadata (ok wrappers) [] ≡ (ok tt, found)
scanned = scan_metadata-events wrappers []

-- The channel has only the direction of the second event.
build_channels-get_example :
    Map.get (build_channels found) "chat:send"
    ≡ some (record {
      description = "Brings a message";
      subscribe = some (record {
        summary = "Brings a message";
        type = "object";
        properties = [];
        required = none;
      });
      publish = none;
    })
unfolding channel_item subscribe_operation response_properties
build_channels-get_example = build_channels-get found "chat:send"

-- A title with a sign is not put in as it is.
title_with_sign : render "<h1>{{TITLE}}</h1>" "Q$&A" "d" "1" "[]" "{}" ≡ "<h1>Q{{TITLE}}A</h1>"
unfolding render replace around expand strip_prefix
title_with_sign = refl

abbrev unreadable : DocsDeps String String
unreadable = record {
  options = none;
  config = λ k. none;
  read_template = λ f. (err (failure "ENOENT"), f);
  events_json = λ events. "[]";
  spec_json = λ spec. "{}";
}

abbrev readable : DocsDeps String String
readable = record unreadable { read_template = λ f. (ok f, f) }

abbrev service : WsDocsService String String
service = record { events = found; spec = none; html_cache = none; files = "<p>{{VERSION}}</p>" }

page_is_full :
    (render "<p>{{VERSION}}</p>" "NestJS Engine WebSocket API"
        "NestJS Backend Engine WebSocket API Documentation" "1.0.0" "[]" "{}"
      == "")
    ≡ false
unfolding render replace around expand strip_prefix
page_is_full = refl

get_html_recovers_example :
    (get_html readable (get_html unreadable service).1).0
    ≡ ok (
        render "<p>{{VERSION}}</p>" "NestJS Engine WebSocket API"
          "NestJS Backend Engine WebSocket API Documentation" "1.0.0" "[]" "{}")
unfolding make_spec
get_html_recovers_example =
    (get_html_recovers unreadable readable unreadable service service.files service.files
      (failure "ENOENT") service.files refl refl refl page_is_full).1
