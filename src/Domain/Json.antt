-- ===== src/Domain/Json.antt =====
-- `any`, as `encoding/json` fills it. A number is kept by its decimal text.
use ferventio_backend.Base.{String, Bool}

mutual
  pub data JsonValue : Type 0 where
    null : JsonValue
    boolean : Bool → JsonValue
    number : String → JsonValue
    text : String → JsonValue
    array : JsonItems → JsonValue
    object : JsonFields → JsonValue

  pub data JsonItems : Type 0 where
    none_left : JsonItems
    item : JsonValue → JsonItems → JsonItems

  pub data JsonFields : Type 0 where
    end : JsonFields
    field : String → JsonValue → JsonFields → JsonFields
