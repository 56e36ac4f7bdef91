-- ===== src/Gateway/Parson.antt =====
-- core/src/gateway.c: what it takes from parson, its keys and the properties it fills.
use azure_iot_gateway_sdk.Base.{ℕ, ◌+◌, ◌-◌, Option, some, none, List, [], ◌∷◌, map}
use azure_iot_gateway_sdk.Gateway.Env.{G}
use azure_iot_gateway_sdk.Gateway.State.{Name, LinkEntry, ModulesEntry}
use azure_iot_gateway_sdk.Gateway.Create.{GatewayProperties}

-- parson; `none` is a null pointer, which the functions for objects take too.
pub record Parson : Type 1 where
  pub JsonValue : Type 0
  pub JsonObject : Type 0
  pub JsonArray : Type 0
  pub json_parse_file : Name → Option JsonValue
  pub json_value_get_object : JsonValue → Option JsonObject
  pub json_object_get_array : JsonObject → Name → Option JsonArray
  pub json_array_get_count : JsonArray → ℕ
  pub json_array_get_object : JsonArray → ℕ → Option JsonObject
  pub json_object_get_string : Option JsonObject → Name → Option Name
  pub json_object_get_value : Option JsonObject → Name → Option JsonValue
  pub json_serialize_to_string : Option JsonValue → Option Name

-- PARSE_JSON_RESULT
pub data ParseJsonResult : Type 0 where
  parse_json_success : ParseJsonResult
  parse_json_failure : ParseJsonResult
  parse_json_missing_or_misconfigured_config : ParseJsonResult
  parse_json_vector_failure : ParseJsonResult
  parse_json_misconfigured_or_other : ParseJsonResult

-- "modules", "module name", "module path", "args", "links", "source" and "sink"
abbrev pub modules_key : Name
modules_key = b'm' ∷ b'o' ∷ b'd' ∷ b'u' ∷ b'l' ∷ b'e' ∷ b's' ∷ []

abbrev pub module_name_key : Name
module_name_key = b'm' ∷ b'o' ∷ b'd' ∷ b'u' ∷ b'l' ∷ b'e' ∷ b' ' ∷ b'n' ∷ b'a' ∷ b'm' ∷ b'e' ∷ []

abbrev pub module_path_key : Name
module_path_key = b'm' ∷ b'o' ∷ b'd' ∷ b'u' ∷ b'l' ∷ b'e' ∷ b' ' ∷ b'p' ∷ b'a' ∷ b't' ∷ b'h' ∷ []

abbrev pub arg_key : Name
arg_key = b'a' ∷ b'r' ∷ b'g' ∷ b's' ∷ []

abbrev pub links_key : Name
links_key = b'l' ∷ b'i' ∷ b'n' ∷ b'k' ∷ b's' ∷ []

abbrev pub source_key : Name
source_key = b's' ∷ b'o' ∷ b'u' ∷ b'r' ∷ b'c' ∷ b'e' ∷ []

abbrev pub sink_key : Name
sink_key = b's' ∷ b'i' ∷ b'n' ∷ b'k' ∷ []

-- GATEWAY_MODULES_ENTRY with its module_configuration.
pub record ConfiguredEntry : Type 0 where
  pub entry : ModulesEntry
  pub module_configuration : Option Name

-- GATEWAY_PROPERTIES while they are filled.
pub record Properties : Type 0 where
  pub gateway_modules : Option (List ConfiguredEntry)
  pub gateway_links : Option (List LinkEntry)

abbrev pub entries_of : Option (List ConfiguredEntry) → Option (List ModulesEntry)
entries_of none = none
entries_of (some entries) = some (map (λ e. e.entry) entries)

abbrev pub given : Properties → GatewayProperties
given p = record { gateway_modules = entries_of p.gateway_modules; gateway_links = p.gateway_links }

-- The value that json_parse_file returns, and json_value_free.
abbrev pub json_value_made : G (Unit {0})
json_value_made e = (tt, record e { json_values = e.json_values + 1 })

abbrev pub json_value_free : G (Unit {0})
json_value_free e = (tt, record e { json_values = e.json_values - 1 })

-- json_serialize_to_string and json_free_serialized_string, which ignores a null pointer.
abbrev pub take_text : Option Name → G (Option Name)
take_text none e = (none, e)
take_text (some text) e = (some text, record e { json_texts = e.json_texts + 1 })

abbrev pub json_free_serialized_string : Option Name → G (Unit {0})
json_free_serialized_string none e = (tt, e)
json_free_serialized_string (some text) e = (tt, record e { json_texts = e.json_texts - 1 })

-- The two entries that are filled.
abbrev pub modules_entry : Name → Name → Option Name → ConfiguredEntry
modules_entry name path args_str = record {
  entry = record { module_path = some path; module_name = some name };
  module_configuration = args_str;
}

abbrev pub link_entry : Name → Name → LinkEntry
link_entry source sink = record { module_source = source; module_sink = sink }
