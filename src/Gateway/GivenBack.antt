-- ===== src/Gateway/GivenBack.antt =====
-- core/src/gateway.c: what destroy_properties_internal gives back of what parse_json_internal took.
use azure_iot_gateway_sdk.Base.{
  ℕ, ◌+◌, ◌-◌, ◌≡◌, refl, ◌∙◌, Option, some, none, List, [], ◌∷◌, arith,
}
use azure_iot_gateway_sdk.Base.Outcome.{Outcome, ok, fail, fault}
use azure_iot_gateway_sdk.Gateway.Env.{Env}
use azure_iot_gateway_sdk.Gateway.State.{Name, LinkEntry}
use azure_iot_gateway_sdk.Gateway.Parson.{
  Parson, ParseJsonResult, ConfiguredEntry, Properties, json_free_serialized_string,
}
use azure_iot_gateway_sdk.Gateway.Json.{
  parse_json_internal, destroy_properties_internal, destroy_modules_vector, destroy_links_vector,
  destroy_configurations,
}
use azure_iot_gateway_sdk.Gateway.ReadLoop.{texts, Kept, kept, kept-trans}
use azure_iot_gateway_sdk.Gateway.Reading.{entry_texts, text_count}
use azure_iot_gateway_sdk.Gateway.Parsed.{Holds}
use azure_iot_gateway_sdk.Gateway.Document.{DocumentRead, parse_json_internal-DocumentRead}

json_free_serialized_string-Freed :
    (text : Option Name) (e : Env)
    → let r = (json_free_serialized_string text e).1 in
      (r.json_texts ≡ e.json_texts - text_count text) × Kept e r
json_free_serialized_string-Freed none e = (omega arith, kept refl refl refl refl)
json_free_serialized_string-Freed (some text) e = (refl, kept refl refl refl refl)

-- `held` texts are there beside the configurations'.
module _ (held : ℕ) where
  destroy_configurations-Freed :
      (ms : List ConfiguredEntry) (e : Env)
      → e.json_texts ≡ held + texts entry_texts ms
      → let r = (destroy_configurations ms e).1 in (r.json_texts ≡ held) × Kept e r
  unfolding destroy_configurations texts
  destroy_configurations-Freed [] e holds = (omega (arith, holds), kept refl refl refl refl)
  destroy_configurations-Freed (m ∷ ms) e holds =
      let (fewer, same) = json_free_serialized_string-Freed m.module_configuration e in
      let (left, same') = destroy_configurations-Freed ms _ (omega (arith, holds, fewer)) in
      (left, kept-trans _ _ _ same same')

module _ (e : Env) where
  -- Everything is as in `e`.
  abbrev AsBefore : Env → Type 0
  AsBefore e' = (e'.json_texts ≡ e.json_texts) × Kept e e'

  destroy_properties_internal-AsBefore :
      (modules : Option (List ConfiguredEntry)) (links : Option (List LinkEntry)) (e' : Env)
      → Holds e (record { gateway_modules = modules; gateway_links = links }) e'
      → AsBefore
          (destroy_properties_internal
            (record { gateway_modules = modules; gateway_links = links })
            e').1
  unfolding destroy_properties_internal destroy_modules_vector destroy_links_vector
  destroy_properties_internal-AsBefore none none e' h = (
    omega (arith, h.texts_held),
    kept h.libraries_same h.instances_same (omega (arith, h.vectors_held)) h.values_same,
  )
  destroy_properties_internal-AsBefore none (some ls) e' h = (
    omega (arith, h.texts_held),
    kept h.libraries_same h.instances_same (omega (arith, h.vectors_held)) h.values_same,
  )
  destroy_properties_internal-AsBefore (some ms) none e' h =
      let (left, same) = destroy_configurations-Freed e.json_texts ms e' h.texts_held in
      (
        left,
        kept (same.kept_libraries ∙ h.libraries_same) (same.kept_instances ∙ h.instances_same)
            (omega (arith, h.vectors_held, same.kept_vectors)) (same.kept_values ∙ h.values_same),
      )
  destroy_properties_internal-AsBefore (some ms) (some ls) e' h =
      let (left, same) = destroy_configurations-Freed e.json_texts ms e' h.texts_held in
      (
        left,
        kept (same.kept_libraries ∙ h.libraries_same) (same.kept_instances ∙ h.instances_same)
            (omega (arith, h.vectors_held, same.kept_vectors)) (same.kept_values ∙ h.values_same),
      )

  unfoldable pub GivenBack : Outcome (ParseJsonResult × Properties) × Env → Type 0
  GivenBack (ok (result, properties), e') = AsBefore (destroy_properties_internal properties e').1
  GivenBack (fail, e') = Unit
  GivenBack (fault, e') = Unit

  module _ (p : Parson) (root : p.JsonValue) where
    read-GivenBack :
        (r : Outcome (ParseJsonResult × Properties) × Env) → DocumentRead p root e r → GivenBack r
    unfolding DocumentRead GivenBack
    read-GivenBack (ok (result, properties), e') (holds, read) =
        destroy_properties_internal-AsBefore properties.gateway_modules properties.gateway_links e'
          holds
    read-GivenBack (fail, e') read = tt
    read-GivenBack (fault, e') read = tt

    -- Where parse_json_internal gives a result, whichever it is and whichever call failed, destroy_properties_internal gives back
    -- the vectors and the texts that were taken, and nothing else.
    pub parse_json_internal-GivenBack : GivenBack (parse_json_internal p root e)
    parse_json_internal-GivenBack = read-GivenBack _ (parse_json_internal-DocumentRead p root e)
