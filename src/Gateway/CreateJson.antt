-- ===== src/Gateway/CreateJson.antt =====
-- core/src/gateway.c: Gateway_Create_From_JSON.
use azure_iot_gateway_sdk.Base.{true, false, Option, some, none, if◌then◌else◌}
use azure_iot_gateway_sdk.Base.Outcome.{Outcome, ok, fail, fault}
use azure_iot_gateway_sdk.Gateway.Env.{G, pure, ◌>>=◌, ◌>>◌, malloc, free}
use azure_iot_gateway_sdk.Gateway.State.{Name, Gateway}
use azure_iot_gateway_sdk.Gateway.Create.{gateway_ll_create}
use azure_iot_gateway_sdk.Gateway.Api.{
  StartResult, gateway_start_success, gateway_start_invalid_args, gateway_ll_start,
}
use azure_iot_gateway_sdk.Gateway.Destroy.{gateway_ll_destroy}
use azure_iot_gateway_sdk.Gateway.Parson.{
  ParseJsonResult, Parson, Properties, given, json_value_free, json_value_made,
}
use azure_iot_gateway_sdk.Gateway.Json.{
  destroy_properties_internal, is_success, parse_json_internal,
}

-- The gateway that was created is started, and destroyed where that fails.
unfoldable pub started_or_destroyed : Gateway → StartResult → G (Option Gateway)
started_or_destroyed gw gateway_start_success = pure (some gw)
started_or_destroyed gw gateway_start_invalid_args = gateway_ll_destroy (some gw)

unfoldable pub start_created : Option Gateway → G (Option Gateway)
start_created none = pure none
start_created (some gw) = do
  start_result ← gateway_ll_start (some gw)
  started_or_destroyed gw start_result

unfoldable pub create_parsed : ParseJsonResult × Properties → G (Option Gateway)
create_parsed (result, properties) = elim (is_success result) [
  | true ↦ do gw ← gateway_ll_create (some (given properties)); start_created gw
  | false ↦ pure none
]

unfoldable pub leave_parsed : Outcome (ParseJsonResult × Properties) → G (Outcome (Option Gateway))
leave_parsed fault = pure fault
leave_parsed fail = pure fail
leave_parsed (ok parsed) = do
  gw ← create_parsed parsed
  destroy_properties_internal parsed.1
  free
  json_value_free
  pure (ok gw)

module _ (p : Parson) where
  open p use {JsonValue, json_parse_file}

  unfoldable pub with_root : JsonValue → G (Outcome (Option Gateway))
  with_root root_value = do
    allocated ← malloc
    if allocated
        then (do parsed ← parse_json_internal p root_value; leave_parsed parsed)
        else (do json_value_free; pure (ok none))

  -- Gateway_Create_From_JSON
  unfoldable pub gateway_create_from_json : Option Name → G (Outcome (Option Gateway))
  gateway_create_from_json none = pure (ok none)
  gateway_create_from_json (some file_path) = elim (json_parse_file file_path) [
    | none ↦ pure (ok none)
    | some root_value ↦ do json_value_made; with_root root_value
  ]
