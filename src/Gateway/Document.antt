-- ===== src/Gateway/Document.antt =====
-- core/src/gateway.c: parse_json_internal on a document, and what destroy_properties_internal gives
-- back of it.
use azure_iot_gateway_sdk.Base.{◌≡◌, refl, inl, inr, true, Bool-cases, some, Option-cases, arith}
use azure_iot_gateway_sdk.Base.Outcome.{Outcome, ok, fail, fault}
use azure_iot_gateway_sdk.Gateway.Env.{Env}
use azure_iot_gateway_sdk.Gateway.Parson.{
  Parson, ParseJsonResult, Properties, modules_key, links_key,
}
use azure_iot_gateway_sdk.Gateway.Json.{
  is_success, parse_arrays, parse_json_internal, no_properties,
}
use azure_iot_gateway_sdk.Gateway.ReadLoop.{texts}
use azure_iot_gateway_sdk.Gateway.Parsed.{
  Holds, AllRead, Document, ArraysParsed, ArraysRead, parse_modules-Read,
}

pub nothing-Holds :
    (e e' : Env)
    → e'.libraries ≡ e.libraries
    → e'.instances ≡ e.instances
    → e'.json_values ≡ e.json_values
    → e'.vectors ≡ e.vectors
    → e'.json_texts ≡ e.json_texts
    → Holds e no_properties e'
nothing-Holds e e' libs insts vals vecs texts_same = record {
  libraries_same = libs;
  instances_same = insts;
  values_same = vals;
  vectors_held = omega (arith, vecs);
  texts_held = omega (arith, texts_same);
}

module _ (p : Parson) where
  -- A document was read, and behind a success all of it; behind undefined behaviour it has no module.
  unfoldable pub DocumentRead :
      p.JsonValue → Env → Outcome (ParseJsonResult × Properties) × Env → Type 0
  DocumentRead root e (ok (result, properties), e') =
      Holds e properties e'
      × (is_success result ≡ true
          → (d : Document p root) × AllRead p d.modules_array d.links_array properties)
  DocumentRead root e (fail, e') = ⊥
  DocumentRead root e (fault, e') =
      (d : Document p root) × (p.json_array_get_count d.modules_array ≡ 0)

  module _ (root : p.JsonValue) (d : Document p root) where
    ArraysRead-DocumentRead :
        (e : Env) (r : Outcome (ParseJsonResult × Properties) × Env)
        → ArraysRead p d.modules_array d.links_array e r
        → DocumentRead root e r
    unfolding ArraysRead ArraysParsed DocumentRead
    ArraysRead-DocumentRead e (ok parsed, e') (holds, read) = (holds, (λ done. (d, read done)))
    ArraysRead-DocumentRead e (fail, e') x = absurd x
    ArraysRead-DocumentRead e (fault, e') empty = (d, empty)

    both-DocumentRead :
        (e : Env)
        → DocumentRead root e (parse_arrays p (some d.modules_array) (some d.links_array) e)
    unfolding parse_arrays DocumentRead is_success texts
    both-DocumentRead e = elim (Bool-cases (e.world.oracle e.world.calls)) [
      | inr failed ↦
          rw (failed, parse_arrays)
            (nothing-Holds e _ refl refl refl refl refl, (λ x. absurd (ground arith)))
      | inl created ↦
          rw (created, parse_arrays)
            (ArraysRead-DocumentRead e _ (
              parse_modules-Read p d.modules_array d.links_array _ e _ refl (record {
                libraries_same = refl;
                instances_same = refl;
                values_same = refl;
                vectors_held = omega arith;
                texts_held = omega arith;
              })))
    ]

  -- parse_json_internal of any value gives a result, except where the document's array of modules is
  -- empty, where the code tests a variable that was never assigned to. With the result it holds one
  -- vector for each that the properties have and one text for each module with arguments; and behind a
  -- success the properties have an entry for each element of the document's two arrays, in their
  -- order, with the name, the path and the arguments, or the source and the sink, that stand there.
  pub parse_json_internal-DocumentRead :
      (root : p.JsonValue) (e : Env) → DocumentRead root e (parse_json_internal p root e)
  unfolding parse_json_internal parse_arrays DocumentRead is_success
  parse_json_internal-DocumentRead root e = elim (Option-cases (p.json_value_get_object root)) [
    | inl missing ↦
        rw (missing, parse_json_internal)
          (nothing-Holds e _ refl refl refl refl refl, (λ x. absurd (ground arith)))
    | inr (document, is_document) ↦
        rw (is_document, parse_json_internal)
          (elim (Option-cases (p.json_object_get_array document modules_key)) [
            | inl missing ↦
                rw (missing, parse_arrays)
                  (nothing-Holds e _ refl refl refl refl refl, (λ x. absurd (ground arith)))
            | inr (modules_array, is_modules) ↦
                rw is_modules (elim (Option-cases (p.json_object_get_array document links_key)) [
                  | inl missing ↦
                      rw (missing, parse_arrays)
                        (nothing-Holds e _ refl refl refl refl refl, (λ x. absurd (ground arith)))
                  | inr (links_array, is_links) ↦ rw is_links (
                      both-DocumentRead root
                        (record {
                          document = document;
                          modules_array = modules_array;
                          links_array = links_array;
                          document_eq = is_document;
                          modules_eq = is_modules;
                          links_eq = is_links;
                        })
                        e)
                ])
          ])
  ]
