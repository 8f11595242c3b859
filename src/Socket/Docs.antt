-- ===== src/Socket/Docs.antt =====
-- src/core/socket/docs: the decorators and interfaces, and ws-docs.service.ts up to the document. What
-- the reflection of NestJS finds is given as data. `V` is what examples of fields are; log output is
-- left out. Objects with keys are maps, of which only look-ups are read.
pub mod Channels
pub mod Page
mod Tests
use nestjs_vibe_engine.Prelude.{
  String, Bool, true, false, not, ◌||◌, Option, none, some, List, [], ◌∷◌, ◌++◌, if◌then◌else◌,
}
use nestjs_vibe_engine.Js.Map
use nestjs_vibe_engine.Js.Map.{TextMap}
use nestjs_vibe_engine.Js.Text.{strip_prefix}
use nestjs_vibe_engine.Exec.{Exec, Result, ok, pure, try_catch, continue, ◌>>=◌, ◌>>◌}

pub data WsEventDirection : Type 0 where
  client_to_server : WsEventDirection
  server_to_client : WsEventDirection
  bidirectional : WsEventDirection

-- none: undefined, here and below
pub record WsPayloadField (V : Type 0) : Type 0 where
  pub name : String
  pub type : String
  pub required : Bool
  pub description : String
  pub example : Option V

pub record WsResponseField (V : Type 0) : Type 0 where
  pub name : String
  pub type : String
  pub description : String
  pub example : Option V

pub record WsEventMetadata (V : Type 0) : Type 0 where
  pub event_name : String
  pub description : String
  pub direction : WsEventDirection
  pub requires_auth : Bool
  pub payload : List (WsPayloadField V)
  pub response : List (WsResponseField V)
  pub namespace : String
  pub category : String
  pub example : Option String

pub record WsEventOptions : Type 0 where
  pub name : String
  pub description : String
  pub direction : Option WsEventDirection
  pub requires_auth : Option Bool
  pub category : Option String
  pub example : Option String

-- What the decorator WsEvent attaches to a method.
pub record EventMeta : Type 0 where
  pub name : String
  pub description : String
  pub direction : WsEventDirection
  pub requires_auth : Bool
  pub category : String
  pub example : Option String

-- a ?? b
abbrev pub or_else {ℓ} : {A : Type ℓ} → Option A → A → A
or_else none b = b
or_else (some a) b = a

unfoldable pub ws_event : WsEventOptions → EventMeta
ws_event options = record {
  name = options.name;
  description = options.description;
  direction = or_else options.direction client_to_server;
  requires_auth = or_else options.requires_auth true;
  category = or_else options.category "general";
  example = options.example;
}

-- What the reflector reads of a method. The two last are `fields` of the other decorators.
pub record MethodMeta (V : Type 0) : Type 0 where
  pub event : Option EventMeta
  pub payload : Option (List (WsPayloadField V))
  pub response : Option (List (WsResponseField V))

-- A wrapper that DiscoveryService finds: the methods of its instance's prototype, each of which may
-- throw when it is read; none if there is no instance that is an object, or no prototype.
abbrev pub Wrapper : Type 0 → Type 0
Wrapper V = Option (List (Result (MethodMeta V)))

pub record WsDocsPropertySchema (V : Type 0) : Type 0 where
  pub type : String
  pub description : String
  pub example : Option V

-- `message.payload` is given by its three fields.
pub record WsDocsOperation (V : Type 0) : Type 0 where
  pub summary : String
  pub type : String
  pub properties : TextMap (WsDocsPropertySchema V)
  pub required : Option (List String)

pub record WsDocsChannelItem (V : Type 0) : Type 0 where
  pub description : String
  pub subscribe : Option (WsDocsOperation V)
  pub publish : Option (WsDocsOperation V)

pub record WsDocsServerInfo : Type 0 where
  pub url : String
  pub protocol : String
  pub description : String

-- `info` is given by its three fields.
pub record WsDocsSpec (V : Type 0) : Type 0 where
  pub asyncapi : String
  pub title : String
  pub description : String
  pub version : String
  pub servers : TextMap WsDocsServerInfo
  pub channels : TextMap (WsDocsChannelItem V)

pub record WsDocsModuleOptions : Type 0 where
  pub enabled : Bool
  pub path : Option String
  pub title : Option String
  pub description : Option String
  pub version : Option String
  pub server_url : Option String

abbrev pub is_published : WsEventDirection → Bool
is_published client_to_server = true
is_published server_to_client = false
is_published bidirectional = true

abbrev pub is_subscribed : WsEventDirection → Bool
is_subscribed client_to_server = false
is_subscribed server_to_client = true
is_subscribed bidirectional = true

-- requiredFields.length > 0 ? requiredFields : undefined
abbrev pub when_any : List String → Option (List String)
when_any [] = none
when_any (name ∷ names) = some (name ∷ names)

module _ {V : Type 0} where
  abbrev pub metadata_of : EventMeta → MethodMeta V → WsEventMetadata V
  metadata_of event method = record {
    event_name = event.name;
    description = event.description;
    direction = event.direction;
    requires_auth = event.requires_auth;
    payload = or_else method.payload [];
    response = or_else method.response [];
    namespace = "/";
    category = event.category;
    example = event.example;
  }

  abbrev pub push_event :
      MethodMeta V → Option EventMeta → Exec (List (WsEventMetadata V)) (Unit {0})
  push_event method none events = (ok tt, events)
  push_event method (some event) events = (ok tt, events ++ (metadata_of event method ∷ []))

  unfoldable pub scan_methods :
      List (Result (MethodMeta V)) → Exec (List (WsEventMetadata V)) (Unit {0})
  scan_methods [] = pure tt
  scan_methods (read ∷ reads) =
      let rest = scan_methods reads in
      λ events. continue read (λ method. push_event method method.event >> rest) events

  unfoldable pub scan_providers : List (Wrapper V) → Exec (List (WsEventMetadata V)) (Unit {0})
  scan_providers [] = pure tt
  scan_providers (none ∷ wrappers) = scan_providers wrappers
  scan_providers (some reads ∷ wrappers) =
      let rest = scan_providers wrappers in scan_methods reads >> rest

  -- `providers` is what DiscoveryService answers.
  unfoldable pub scan_metadata :
      Result (List (Wrapper V)) → Exec (List (WsEventMetadata V)) (Unit {0})
  scan_metadata providers =
      try_catch (λ events. continue providers scan_providers events) (λ _. pure tt)

  unfoldable pub payload_properties :
      TextMap (WsDocsPropertySchema V) → List (WsPayloadField V) → TextMap (WsDocsPropertySchema V)
  payload_properties properties [] = properties
  payload_properties properties (field ∷ fields) =
      payload_properties
        (Map.set properties field.name
          (record { type = field.type; description = field.description; example = field.example }))
        fields

  unfoldable pub required_fields : List (WsPayloadField V) → List String
  required_fields [] = []
  required_fields (field ∷ fields) =
      let rest = required_fields fields in if field.required then field.name ∷ rest else rest

  unfoldable pub response_properties :
      TextMap (WsDocsPropertySchema V) → List (WsResponseField V) → TextMap (WsDocsPropertySchema V)
  response_properties properties [] = properties
  response_properties properties (field ∷ fields) =
      response_properties
        (Map.set properties field.name
          (record { type = field.type; description = field.description; example = field.example }))
        fields

  unfoldable pub publish_operation : WsEventMetadata V → WsDocsOperation V
  publish_operation event = record {
    summary = event.description;
    type = "object";
    properties = payload_properties [] event.payload;
    required = when_any (required_fields event.payload);
  }

  unfoldable pub subscribe_operation : WsEventMetadata V → WsDocsOperation V
  subscribe_operation event = record {
    summary = event.description;
    type = "object";
    properties = response_properties [] event.response;
    required = none;
  }

  unfoldable pub channel_item : WsEventMetadata V → WsDocsChannelItem V
  channel_item event = record {
    description = event.description;
    subscribe = if is_subscribed event.direction then some (subscribe_operation event) else none;
    publish = if is_published event.direction then some (publish_operation event) else none;
  }

  -- The loop of `buildChannels`.
  unfoldable pub add_channels :
      TextMap (WsDocsChannelItem V) → List (WsEventMetadata V) → TextMap (WsDocsChannelItem V)
  add_channels channels [] = channels
  add_channels channels (event ∷ events) =
      add_channels (Map.set channels event.event_name (channel_item event)) events

  unfoldable pub build_channels : List (WsEventMetadata V) → TextMap (WsDocsChannelItem V)
  build_channels events = add_channels [] events
