-- ===== src/Gateway/FromFile.antt =====
-- core/src/gateway.c: the gateway that Gateway_Create_From_JSON returns.
use azure_iot_gateway_sdk.Base.{
  ℕ, ◌≡◌, refl, ◌∙◌, inl, inr, Bool-cases, Option, some, none, Option-cases, List, [], ◌∷◌,
}
use azure_iot_gateway_sdk.Base.Outcome.{Outcome, ok, fail, fault}
use azure_iot_gateway_sdk.Gateway.Env.{Env}
use azure_iot_gateway_sdk.Gateway.State.{Name, LinkEntry, Gateway}
use azure_iot_gateway_sdk.Gateway.Create.{gateway_ll_create}
use azure_iot_gateway_sdk.Gateway.Creation.{Catalog, create-Catalog}
use azure_iot_gateway_sdk.Gateway.History.{starts, gateway_call, call-Catalog_any}
use azure_iot_gateway_sdk.Gateway.Api.{gateway_ll_start}
use azure_iot_gateway_sdk.Gateway.LinkEffects.{Same}
use azure_iot_gateway_sdk.Gateway.Parson.{
  Parson, ParseJsonResult, ConfiguredEntry, Properties, given, json_free_serialized_string,
}
use azure_iot_gateway_sdk.Gateway.Json.{
  is_success, destroy_properties_internal, destroy_modules_vector, destroy_links_vector,
  destroy_configurations,
}
use azure_iot_gateway_sdk.Gateway.CreateJson.{
  started_or_destroyed, start_created, create_parsed, leave_parsed, with_root,
  gateway_create_from_json,
}
use azure_iot_gateway_sdk.Gateway.Document.{DocumentRead, parse_json_internal-DocumentRead}

Same-trans : (e e' e'' : Env) → Same e e' → Same e' e'' → Same e e''
Same-trans e e' e'' (libs, insts) (libs', insts') = (libs' ∙ libs, insts' ∙ insts)

json_free_serialized_string-Same :
    (text : Option Name) (e : Env) → Same e (json_free_serialized_string text e).1
json_free_serialized_string-Same none e = (refl, refl)
json_free_serialized_string-Same (some text) e = (refl, refl)

destroy_configurations-Same :
    (ms : List ConfiguredEntry) (e : Env) → Same e (destroy_configurations ms e).1
unfolding destroy_configurations
destroy_configurations-Same [] e = (refl, refl)
destroy_configurations-Same (m ∷ ms) e =
    let e' = (json_free_serialized_string m.module_configuration e).1 in
    Same-trans e e' (destroy_configurations ms e').1
      (json_free_serialized_string-Same m.module_configuration e)
      (destroy_configurations-Same ms e')

destroy_properties_internal-Same :
    (modules : Option (List ConfiguredEntry)) (links : Option (List LinkEntry)) (e : Env)
    → Same e
        (destroy_properties_internal
          (record { gateway_modules = modules; gateway_links = links })
          e).1
unfolding destroy_properties_internal destroy_modules_vector destroy_links_vector
destroy_properties_internal-Same none none e = (refl, refl)
destroy_properties_internal-Same none (some ls) e = (refl, refl)
destroy_properties_internal-Same (some ms) none e = destroy_configurations-Same ms e
destroy_properties_internal-Same (some ms) (some ls) e = destroy_configurations-Same ms e

module _ (libraries instances : ℕ) where
  -- A gateway is in its catalog; a run into undefined behaviour says nothing.
  unfoldable pub Created : Outcome (Option Gateway) × Env → Type 0
  Created (ok gw, e) = Catalog libraries instances (gw, e)
  Created (fail, e) = ⊥
  Created (fault, e) = Unit

  Catalog-Same :
      (gw : Option Gateway) (e e' : Env)
      → Same e e'
      → Catalog libraries instances (gw, e)
      → Catalog libraries instances (gw, e')
  Catalog-Same none e e' (libs, insts) (libs', insts') = (libs ∙ libs', insts ∙ insts')
  Catalog-Same (some gw) e e' (libs, insts) wf = record {
    libraries_eq = libs ∙ wf.libraries_eq;
    instances_eq = insts ∙ wf.instances_eq;
    distinct = wf.distinct;
    no_all = wf.no_all;
    ends = wf.ends;
  }

  start_created-Catalog :
      (gw : Option Gateway) (e : Env)
      → Catalog libraries instances (gw, e)
      → Catalog libraries instances (start_created gw e)
  unfolding start_created started_or_destroyed gateway_call gateway_ll_start
  start_created-Catalog none e h = h
  start_created-Catalog (some gw) e h = call-Catalog_any libraries instances starts (some gw, e) h

  create_parsed-Catalog :
      (r : ParseJsonResult × Properties) (e : Env)
      → e.libraries ≡ libraries
      → e.instances ≡ instances
      → Catalog libraries instances (create_parsed r e)
  unfolding create_parsed
  create_parsed-Catalog r e libs insts = elim (Bool-cases (is_success r.0)) [
    | inr failed ↦ rw (failed, create_parsed) (libs, insts)
    | inl parsed ↦
        let made = gateway_ll_create (some (given r.1)) e in
        rw (parsed, create_parsed)
          (start_created-Catalog made.0 made.1
            (create-Catalog libraries instances (some (given r.1)) e libs insts))
  ]

  module _ (p : Parson) (root : p.JsonValue) (e : Env) (libs : e.libraries ≡ libraries)
      (insts : e.instances ≡ instances) where
    leave_parsed-Created :
        (r : Outcome (ParseJsonResult × Properties) × Env)
        → DocumentRead p root e r
        → Created (leave_parsed r.0 r.1)
    unfolding leave_parsed DocumentRead Created
    leave_parsed-Created (ok (result, properties), e') (holds, read) =
        let made = create_parsed (result, properties) e' in
        Catalog-Same made.0 made.1 _
          (destroy_properties_internal-Same properties.gateway_modules properties.gateway_links
            made.1)
          (create_parsed-Catalog (result, properties) e' (holds.libraries_same ∙ libs)
            (holds.instances_same ∙ insts))
    leave_parsed-Created (fail, e') x = x
    leave_parsed-Created (fault, e') read = tt

  with_root-Created :
      (p : Parson) (root : p.JsonValue) (e : Env)
      → e.libraries ≡ libraries
      → e.instances ≡ instances
      → Created (with_root p root e)
  unfolding with_root Created
  with_root-Created p root e libs insts = elim (Bool-cases (e.world.oracle e.world.calls)) [
    | inr failed ↦ rw (failed, with_root) (libs, insts)
    | inl allocated ↦
        rw (allocated, with_root)
          (leave_parsed-Created p root _ libs insts _ (parse_json_internal-DocumentRead p root _))
  ]

-- For any file, any parson and whichever platform, library and broker calls fail, unless its run is
-- undefined, Gateway_Create_From_JSON returns a gateway, the names of whose modules differ, none of
-- them "*", whose links are between its modules, and for each of whose modules one library and one
-- instance is held beside those held before; or it returns NULL, and holds none.
pub gateway_create_from_json-Created :
    (p : Parson) (file_path : Option Name) (e : Env)
    → Created e.libraries e.instances (gateway_create_from_json p file_path e)
unfolding gateway_create_from_json Created
gateway_create_from_json-Created p none e = (refl, refl)
gateway_create_from_json-Created p (some file_path) e =
    elim (Option-cases (p.json_parse_file file_path)) [
      | inl missing ↦ rw (missing, gateway_create_from_json) (refl, refl)
      | inr (root, is_root) ↦
          rw (is_root, gateway_create_from_json) (with_root-Created _ _ p root _ refl refl)
    ]
