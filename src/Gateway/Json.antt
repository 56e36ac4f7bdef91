-- ===== src/Gateway/Json.antt =====
-- core/src/gateway.c: parse_json_internal and destroy_properties_internal, with parson as a parameter.
use azure_iot_gateway_sdk.Base.{
  ℕ, zero, suc, ◌+◌, Bool, true, false, Option, some, none, List, [], ◌∷◌, ◌++◌, if◌then◌else◌,
}
use azure_iot_gateway_sdk.Base.Outcome.{Outcome, ok, fault}
use azure_iot_gateway_sdk.Gateway.Env.{G, pure, ◌>>=◌, ◌>>◌, ask, vector_create, vector_destroy}
use azure_iot_gateway_sdk.Gateway.State.{Name, LinkEntry}
use azure_iot_gateway_sdk.Gateway.Parson.{
  ConfiguredEntry, ParseJsonResult, Parson, Properties, arg_key, json_free_serialized_string,
  link_entry, links_key, module_name_key, module_path_key, modules_entry, modules_key,
  parse_json_failure, parse_json_misconfigured_or_other, parse_json_missing_or_misconfigured_config,
  parse_json_success, parse_json_vector_failure, sink_key, source_key, take_text,
}

unfoldable pub is_success : ParseJsonResult → Bool
is_success parse_json_success = true
is_success parse_json_failure = false
is_success parse_json_missing_or_misconfigured_config = false
is_success parse_json_vector_failure = false
is_success parse_json_misconfigured_or_other = false

-- A loop's result and what its vector holds.
abbrev pub Loop : Type 0 → Type 0
Loop A = G (ParseJsonResult × List A)

-- The loop goes on while the last element was pushed.
unfoldable pub go_on_parse : {A : Type 0} → ParseJsonResult × List A → (List A → Loop A) → Loop A
go_on_parse (result, pushed) next = elim (is_success result) [
  | true ↦ next pushed
  | false ↦ pure (result, pushed)
]

unfoldable pub push_entry : Name → Name → Option Name → List ConfiguredEntry → Loop ConfiguredEntry
push_entry name path args_str pushed = do
  done ← ask
  if done
      then pure (parse_json_success, pushed ++ modules_entry name path args_str ∷ [])
      else (do json_free_serialized_string args_str; pure (parse_json_vector_failure, pushed))

unfoldable pub push_link : Option Name → Option Name → List LinkEntry → Loop LinkEntry
push_link none sink pushed = pure (parse_json_missing_or_misconfigured_config, pushed)
push_link (some source) none pushed = pure (parse_json_missing_or_misconfigured_config, pushed)
push_link (some source) (some sink) pushed = do
  done ← ask
  pure (
      if done
      then (parse_json_success, pushed ++ link_entry source sink ∷ [])
      else (parse_json_vector_failure, pushed))

unfoldable pub destroy_configurations : List ConfiguredEntry → G (Unit {0})
destroy_configurations [] = pure tt
destroy_configurations (e ∷ es) = do
  json_free_serialized_string e.module_configuration
  destroy_configurations es

unfoldable pub destroy_modules_vector : Option (List ConfiguredEntry) → G (Unit {0})
destroy_modules_vector none = pure tt
destroy_modules_vector (some entries) = do destroy_configurations entries; vector_destroy

unfoldable pub destroy_links_vector : Option (List LinkEntry) → G (Unit {0})
destroy_links_vector none = pure tt
destroy_links_vector (some entries) = vector_destroy

unfoldable pub destroy_properties_internal : Properties → G (Unit {0})
destroy_properties_internal p = do
  destroy_modules_vector p.gateway_modules
  destroy_links_vector p.gateway_links

-- The loop over an array with `left` elements from `index` on, behind a first element.
unfoldable pub read_rest : {A : Type 0} → (ℕ → List A → Loop A) → ℕ → ℕ → List A → Loop A
read_rest read zero index pushed = pure (parse_json_success, pushed)
read_rest read (suc left) index pushed = do
  result ← read index pushed
  go_on_parse result (read_rest read left (index + 1))

abbrev pub no_properties : Properties
no_properties = record { gateway_modules = none; gateway_links = none }

module _ (p : Parson) where
  open p use {
    JsonValue, JsonObject, JsonArray, json_parse_file, json_value_get_object, json_object_get_array,
    json_array_get_count, json_array_get_object, json_object_get_string, json_object_get_value,
    json_serialize_to_string,
  }

  unfoldable pub push_module :
      Option Name → Option Name → Option JsonObject → List ConfiguredEntry → Loop ConfiguredEntry
  push_module none path object pushed = pure (parse_json_missing_or_misconfigured_config, pushed)
  push_module (some name) none object pushed =
      pure (parse_json_missing_or_misconfigured_config, pushed)
  push_module (some name) (some path) object pushed = do
    args_str ← take_text (json_serialize_to_string (json_object_get_value object arg_key))
    push_entry name path args_str pushed

  unfoldable pub read_module : JsonArray → ℕ → List ConfiguredEntry → Loop ConfiguredEntry
  read_module array index pushed =
      let object = json_array_get_object array index in
      push_module (json_object_get_string object module_name_key)
        (json_object_get_string object module_path_key) object pushed

  unfoldable pub read_link : JsonArray → ℕ → List LinkEntry → Loop LinkEntry
  read_link array index pushed =
      let object = json_array_get_object array index in
      push_link (json_object_get_string object source_key) (json_object_get_string object sink_key)
        pushed

  -- The loop over the links starts with the result of the modules, a success.
  unfoldable pub parse_links : JsonArray → List ConfiguredEntry → G (ParseJsonResult × Properties)
  parse_links links_array modules = do
    created ← vector_create
    if created
        then (do
          (result, links) ←
              read_rest (read_link links_array) (json_array_get_count links_array) 0 []
          pure (result, record { gateway_modules = some modules; gateway_links = some links }))
        else pure (
          parse_json_vector_failure,
          record { gateway_modules = some modules; gateway_links = none },
        )

  unfoldable pub after_modules :
      JsonArray → ParseJsonResult × List ConfiguredEntry → G (ParseJsonResult × Properties)
  after_modules links_array (result, modules) = elim (is_success result) [
    | true ↦ parse_links links_array modules
    | false ↦ pure (result, record { gateway_modules = some modules; gateway_links = none })
  ]

  -- Without a module the result that is tested behind the loop was never assigned.
  unfoldable pub parse_modules :
      ℕ → JsonArray → JsonArray → G (Outcome (ParseJsonResult × Properties))
  parse_modules zero modules_array links_array = pure fault
  parse_modules (suc left) modules_array links_array = do
    modules ← read_rest (read_module modules_array) (suc left) 0 []
    parsed ← after_modules links_array modules
    pure (ok parsed)

  unfoldable pub parse_arrays :
      Option JsonArray → Option JsonArray → G (Outcome (ParseJsonResult × Properties))
  parse_arrays none links = pure (ok (parse_json_misconfigured_or_other, no_properties))
  parse_arrays (some modules) none = pure (ok (parse_json_misconfigured_or_other, no_properties))
  parse_arrays (some modules) (some links) = do
    created ← vector_create
    if created
        then parse_modules (json_array_get_count modules) modules links
        else pure (ok (parse_json_vector_failure, no_properties))

  unfoldable pub parse_json_internal : JsonValue → G (Outcome (ParseJsonResult × Properties))
  parse_json_internal root = elim (json_value_get_object root) [
    | none ↦ pure (ok (parse_json_misconfigured_or_other, no_properties))
    | some document ↦
        parse_arrays (json_object_get_array document modules_key)
          (json_object_get_array document links_key)
  ]
