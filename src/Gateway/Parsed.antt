-- ===== src/Gateway/Parsed.antt =====
-- core/src/gateway.c: what parse_json_internal has read of the document, and what it holds.
use azure_iot_gateway_sdk.Base.{
  ℕ, zero, suc, ◌+◌, ◌≡◌, refl, sym, subst, ◌∙◌, inl, inr, true, Bool-cases, Option, some, none,
  List, [], ◌∷◌, length, arith,
}
use azure_iot_gateway_sdk.Base.Outcome.{Outcome, ok, fail, fault}
use azure_iot_gateway_sdk.Gateway.Env.{Env}
use azure_iot_gateway_sdk.Gateway.State.{LinkEntry}
use azure_iot_gateway_sdk.Gateway.Parson.{
  Parson, ParseJsonResult, ConfiguredEntry, Properties, modules_key, links_key,
}
use azure_iot_gateway_sdk.Gateway.Json.{
  is_success, read_module, read_rest, parse_links, after_modules, parse_modules,
}
use azure_iot_gateway_sdk.Gateway.ReadLoop.{ReadFrom, texts, ReadUpto}
use azure_iot_gateway_sdk.Gateway.Reading.{
  entry_texts, no_texts, IsModule, IsLink, modules-ReadUpto, links-ReadUpto,
}

abbrev pub modules_texts : Option (List ConfiguredEntry) → ℕ
modules_texts none = 0
modules_texts (some ms) = texts entry_texts ms

abbrev pub vector_count {ℓ} : {A : Type ℓ} → Option A → ℕ
vector_count none = 0
vector_count (some v) = 1

-- One vector for each that the properties have, and one text for each module that has arguments.
pub record Holds (e : Env) (properties : Properties) (e' : Env) : Type 0 where
  pub libraries_same : e'.libraries ≡ e.libraries
  pub instances_same : e'.instances ≡ e.instances
  pub values_same : e'.json_values ≡ e.json_values
  pub vectors_held :
      e'.vectors
      ≡ e.vectors + vector_count properties.gateway_modules + vector_count properties.gateway_links
  pub texts_held : e'.json_texts ≡ e.json_texts + modules_texts properties.gateway_modules

texts-no_texts : (ls : List LinkEntry) → texts no_texts ls ≡ 0
unfolding texts
texts-no_texts [] = refl
texts-no_texts (l ∷ ls) = omega (arith, texts-no_texts ls)

module _ (p : Parson) where
  -- The two vectors have an entry for each element of the arrays, in their order.
  pub record AllRead (modules_array links_array : p.JsonArray) (properties : Properties)
      : Type 0 where
    pub modules : List ConfiguredEntry
    pub links : List LinkEntry
    pub modules_eq : properties.gateway_modules ≡ some modules
    pub links_eq : properties.gateway_links ≡ some links
    pub modules_from : ReadFrom (IsModule p modules_array) 0 modules
    pub links_from : ReadFrom (IsLink p links_array) 0 links
    pub modules_length : length modules ≡ p.json_array_get_count modules_array
    pub links_length : length links ≡ p.json_array_get_count links_array

  -- The arrays are the document's.
  pub record Document (root : p.JsonValue) : Type 0 where
    pub document : p.JsonObject
    pub modules_array : p.JsonArray
    pub links_array : p.JsonArray
    pub document_eq : p.json_value_get_object root ≡ some document
    pub modules_eq : p.json_object_get_array document modules_key ≡ some modules_array
    pub links_eq : p.json_object_get_array document links_key ≡ some links_array

  unfoldable pub ArraysParsed :
      p.JsonArray → p.JsonArray → Env → (ParseJsonResult × Properties) × Env → Type 0
  ArraysParsed modules_array links_array e ((result, properties), e') =
      Holds e properties e'
      × (is_success result ≡ true → AllRead modules_array links_array properties)

  module _ (modules_array links_array : p.JsonArray) where
    links_read-Parsed :
        (ms : List ConfiguredEntry) (e e1 : Env)
        → Holds e (record { gateway_modules = some ms; gateway_links = some [] }) e1
        → ReadFrom (IsModule p modules_array) 0 ms
        → length ms ≡ p.json_array_get_count modules_array
        → (r : (ParseJsonResult × List LinkEntry) × Env)
        → ReadUpto (IsLink p links_array) no_texts (p.json_array_get_count links_array) [] e1 r
        → ArraysParsed modules_array links_array e
            ((r.0.0, record { gateway_modules = some ms; gateway_links = some r.0.1 }), r.1)
    unfolding ArraysParsed ReadUpto texts
    links_read-Parsed ms e e1 holds from len r (links_from, links_len, held, same) = (
      record {
        libraries_same = same.kept_libraries ∙ holds.libraries_same;
        instances_same = same.kept_instances ∙ holds.instances_same;
        values_same = same.kept_values ∙ holds.values_same;
        vectors_held = same.kept_vectors ∙ holds.vectors_held;
        texts_held = omega (arith, held, holds.texts_held, texts-no_texts r.0.1, texts-no_texts []);
      },
      (λ done. record {
        modules = ms;
        links = r.0.1;
        modules_eq = refl;
        links_eq = refl;
        modules_from = from;
        links_from = links_from;
        modules_length = len;
        links_length = links_len done;
      }),
    )

    parse_links-Parsed :
        (ms : List ConfiguredEntry) (e e' : Env)
        → Holds e (record { gateway_modules = some ms; gateway_links = none }) e'
        → ReadFrom (IsModule p modules_array) 0 ms
        → length ms ≡ p.json_array_get_count modules_array
        → ArraysParsed modules_array links_array e (parse_links p links_array ms e')
    unfolding parse_links ArraysParsed is_success ReadUpto
    parse_links-Parsed ms e e' holds from len = elim (Bool-cases (e'.world.oracle e'.world.calls)) [
      | inr failed ↦
          rw (failed, parse_links)
            (
              record {
                libraries_same = holds.libraries_same;
                instances_same = holds.instances_same;
                values_same = holds.values_same;
                vectors_held = holds.vectors_held;
                texts_held = holds.texts_held;
              },
              (λ x. absurd (ground arith)),
            )
      | inl created ↦
          rw (created, parse_links)
            (links_read-Parsed ms e _
              (record {
                libraries_same = holds.libraries_same;
                instances_same = holds.instances_same;
                values_same = holds.values_same;
                vectors_held = omega (arith, holds.vectors_held);
                texts_held = holds.texts_held;
              })
              from len _ (links-ReadUpto p links_array (p.json_array_get_count links_array) _))
    ]

    after_modules-Parsed :
        (e e1 : Env)
        → Holds e (record { gateway_modules = some []; gateway_links = none }) e1
        → (r : (ParseJsonResult × List ConfiguredEntry) × Env)
        → ReadUpto
            (IsModule p modules_array)
            entry_texts
            (p.json_array_get_count modules_array)
            []
            e1
            r
        → ArraysParsed modules_array links_array e (after_modules p links_array r.0 r.1)
    unfolding after_modules ArraysParsed ReadUpto texts
    after_modules-Parsed e e1 holds r (from, len, held, same) =
        let held' : Holds e (record { gateway_modules = some r.0.1; gateway_links = none }) r.1 =
          record {
            libraries_same = same.kept_libraries ∙ holds.libraries_same;
            instances_same = same.kept_instances ∙ holds.instances_same;
            values_same = same.kept_values ∙ holds.values_same;
            vectors_held = same.kept_vectors ∙ holds.vectors_held;
            texts_held = omega (arith, held, holds.texts_held);
          } in
        elim (Bool-cases (is_success r.0.0)) [
          | inr stopped ↦ rw (stopped, after_modules) (held', (λ x. absurd (ground arith)))
          | inl done ↦
              rw (done, after_modules) (parse_links-Parsed r.0.1 e r.1 held' from (len done))
        ]

    unfoldable pub ArraysRead : Env → Outcome (ParseJsonResult × Properties) × Env → Type 0
    ArraysRead e (ok parsed, e') = ArraysParsed modules_array links_array e (parsed, e')
    ArraysRead e (fail, e') = ⊥
    ArraysRead e (fault, e') = p.json_array_get_count modules_array ≡ 0

    pub parse_modules-Read :
        (count : ℕ) (e e1 : Env)
        → p.json_array_get_count modules_array ≡ count
        → Holds e (record { gateway_modules = some []; gateway_links = none }) e1
        → ArraysRead e (parse_modules p count modules_array links_array e1)
    unfolding parse_modules ArraysRead
    parse_modules-Read zero e e1 counts holds = counts
    parse_modules-Read (suc left) e e1 counts holds = after_modules-Parsed e e1 holds _ (
        subst
          (λ n.
            ReadUpto (IsModule p modules_array) entry_texts n [] e1
              (read_rest (read_module p modules_array) (suc left) 0 [] e1))
          (sym counts) (modules-ReadUpto p modules_array (suc left) e1))
