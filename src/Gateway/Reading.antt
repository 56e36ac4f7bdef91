-- ===== src/Gateway/Reading.antt =====
-- core/src/gateway.c: what the loops over the modules and the links read.
use azure_iot_gateway_sdk.Base.{
  ℕ, suc, ◌≡◌, refl, inl, inr, Bool-cases, Option, some, none, List, [], length, arith,
}
use azure_iot_gateway_sdk.Gateway.Env.{Env}
use azure_iot_gateway_sdk.Gateway.State.{Name, LinkEntry}
use azure_iot_gateway_sdk.Gateway.Parson.{
  Parson, ConfiguredEntry, modules_entry, link_entry, take_text, module_name_key, module_path_key,
  arg_key, source_key, sink_key,
}
use azure_iot_gateway_sdk.Gateway.Json.{
  is_success, push_link, push_entry, push_module, read_module, read_link, read_rest,
}
use azure_iot_gateway_sdk.Gateway.ReadLoop.{
  kept, ReadFrom, snoc-ReadUpto, ReadUpto, read_rest-ReadUpto,
}

abbrev pub text_count : Option Name → ℕ
text_count none = 0
text_count (some text) = 1

abbrev pub entry_texts : ConfiguredEntry → ℕ
entry_texts m = text_count m.module_configuration

abbrev pub no_texts : LinkEntry → ℕ
no_texts l = 0

module _ (p : Parson) (array : p.JsonArray) where
  abbrev object_at : ℕ → Option p.JsonObject
  object_at index = p.json_array_get_object array index

  -- The entry is what the object at `index` of the array says.
  abbrev pub IsModule : ℕ → ConfiguredEntry → Type 0
  IsModule index m =
      (p.json_object_get_string (object_at index) module_name_key ≡ m.entry.module_name)
      × (p.json_object_get_string (object_at index) module_path_key ≡ m.entry.module_path)
      × (p.json_serialize_to_string (p.json_object_get_value (object_at index) arg_key)
          ≡ m.module_configuration)

  abbrev pub IsLink : ℕ → LinkEntry → Type 0
  IsLink index l =
      (p.json_object_get_string (object_at index) source_key ≡ some l.module_source)
      × (p.json_object_get_string (object_at index) sink_key ≡ some l.module_sink)

  module _ (index : ℕ) where
    push_entry-ReadUpto :
        (name path : Name) (args_str : Option Name) (pushed : List ConfiguredEntry) (e : Env)
        → ReadFrom IsModule 0 pushed
        → length pushed ≡ index
        → p.json_object_get_string (object_at index) module_name_key ≡ some name
        → p.json_object_get_string (object_at index) module_path_key ≡ some path
        → p.json_serialize_to_string (p.json_object_get_value (object_at index) arg_key) ≡ args_str
        → ReadUpto IsModule entry_texts
            (suc index)
            pushed
            e
            (let r = take_text args_str e in push_entry name path r.0 pushed r.1)
    unfolding push_entry ReadUpto is_success
    push_entry-ReadUpto name path none pushed e r len is_name is_path is_args =
        elim (Bool-cases (e.world.oracle e.world.calls)) [
          | inr failed ↦
              rw (failed, push_entry)
                (r, (λ x. absurd (ground arith)), refl, kept refl refl refl refl)
          | inl done ↦
              rw (done, push_entry)
                (snoc-ReadUpto IsModule entry_texts index pushed (modules_entry name path none) e _
                  r len (is_name, is_path, is_args) (omega arith) (kept refl refl refl refl))
        ]
    push_entry-ReadUpto name path (some text) pushed e r len is_name is_path is_args =
        elim (Bool-cases (e.world.oracle e.world.calls)) [
          | inr failed ↦
              rw (failed, push_entry)
                (r, (λ x. absurd (ground arith)), omega arith, kept refl refl refl refl)
          | inl done ↦
              rw (done, push_entry)
                (snoc-ReadUpto IsModule entry_texts index pushed
                  (modules_entry name path (some text)) e _ r len (is_name, is_path, is_args)
                  (omega arith) (kept refl refl refl refl))
        ]

    push_link-ReadUpto :
        (source sink : Option Name) (pushed : List LinkEntry) (e : Env)
        → ReadFrom IsLink 0 pushed
        → length pushed ≡ index
        → p.json_object_get_string (object_at index) source_key ≡ source
        → p.json_object_get_string (object_at index) sink_key ≡ sink
        → ReadUpto IsLink no_texts (suc index) pushed e (push_link source sink pushed e)
    unfolding push_link ReadUpto is_success
    push_link-ReadUpto none sink pushed e r len is_source is_sink =
        (r, (λ x. absurd (ground arith)), refl, kept refl refl refl refl)
    push_link-ReadUpto (some source) none pushed e r len is_source is_sink =
        (r, (λ x. absurd (ground arith)), refl, kept refl refl refl refl)
    push_link-ReadUpto (some source) (some sink) pushed e r len is_source is_sink =
        elim (Bool-cases (e.world.oracle e.world.calls)) [
          | inr failed ↦
              rw (failed, push_link)
                (r, (λ x. absurd (ground arith)), refl, kept refl refl refl refl)
          | inl done ↦
              rw (done, push_link)
                (snoc-ReadUpto IsLink no_texts index pushed (link_entry source sink) e _ r len
                  (is_source, is_sink) (omega arith) (kept refl refl refl refl))
        ]

    push_module-ReadUpto :
        (name path : Option Name) (pushed : List ConfiguredEntry) (e : Env)
        → ReadFrom IsModule 0 pushed
        → length pushed ≡ index
        → p.json_object_get_string (object_at index) module_name_key ≡ name
        → p.json_object_get_string (object_at index) module_path_key ≡ path
        → ReadUpto IsModule entry_texts
            (suc index)
            pushed
            e
            (push_module p name path (object_at index) pushed e)
    unfolding push_module ReadUpto is_success
    push_module-ReadUpto none path pushed e r len is_name is_path =
        (r, (λ x. absurd (ground arith)), refl, kept refl refl refl refl)
    push_module-ReadUpto (some name) none pushed e r len is_name is_path =
        (r, (λ x. absurd (ground arith)), refl, kept refl refl refl refl)
    push_module-ReadUpto (some name) (some path) pushed e r len is_name is_path =
        push_entry-ReadUpto name path _ pushed e r len is_name is_path refl

  pub modules-ReadUpto :
      (count : ℕ) (e : Env)
      → ReadUpto IsModule entry_texts count [] e (read_rest (read_module p array) count 0 [] e)
  unfolding read_module ReadFrom
  modules-ReadUpto count e =
      read_rest-ReadUpto IsModule entry_texts (read_module p array)
        (λ index pushed e' r len. push_module-ReadUpto index _ _ pushed e' r len refl refl) count 0
        count [] e tt refl (omega arith)

  pub links-ReadUpto :
      (count : ℕ) (e : Env)
      → ReadUpto IsLink no_texts count [] e (read_rest (read_link p array) count 0 [] e)
  unfolding read_link ReadFrom
  links-ReadUpto count e =
      read_rest-ReadUpto IsLink no_texts (read_link p array)
        (λ index pushed e' r len. push_link-ReadUpto index _ _ pushed e' r len refl refl) count 0
        count [] e tt refl (omega arith)
