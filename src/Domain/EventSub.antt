-- ===== src/Domain/EventSub.antt =====
-- internal/domain/eventsub.go
use ferventio_backend.Base.{String}
use ferventio_backend.Base.GoMap.{GoMap}
use ferventio_backend.Domain.Json.{JsonValue}

pub record EventSubSubscription : Type 0 where
  pub id : String
  pub type_name : String
  pub version : String
  pub status : String
  pub condition : GoMap String

pub record EventSubEnvelope : Type 0 where
  pub challenge : String
  pub subscription : EventSubSubscription
  pub event : GoMap JsonValue
