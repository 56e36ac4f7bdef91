-- ===== src/Message/Canonical.antt =====
-- Message_CreateFromByteArray (core/src/message.c) accepts byte array forms only: what it returns
-- determines the bytes.
use azure_iot_gateway_sdk.Base.{
  ℕ, ◌+◌, ◌≤◌, ◌≡◌, sym, ap, ◌∙◌, subst, some, List, [], ◌∷◌, ◌++◌, append_assoc, append-nil,
  length, length-drop, length-take, All, take, drop, drop-drop, take-append-drop, take-append_left,
  arith,
}
use azure_iot_gateway_sdk.Base.Int.{pos, int32_max}
use azure_iot_gateway_sdk.Base.Outcome.{ok, Safe}
use azure_iot_gateway_sdk.Message.Shared.{SharedLib, Copies, Ledger, Property, take_map}
use azure_iot_gateway_sdk.Message.Serialize.{be32}
use azure_iot_gateway_sdk.Message.Handle.{MessageData, MessageConfig, create_impl}
use azure_iot_gateway_sdk.Message.Parse.{create_from_byte_array}
use azure_iot_gateway_sdk.Message.Encoding.{
  properties_bytes, encoding_size, encoding, length-encoding,
}
use azure_iot_gateway_sdk.Message.Safety.{IsByte}
use azure_iot_gateway_sdk.Message.Forms.{AreStrings}
use azure_iot_gateway_sdk.Message.Body.{Adds}
use azure_iot_gateway_sdk.Message.Accept.{FullResult, create-Result, config}

create_impl_parts :
    (s : SharedLib) (cfg : MessageConfig s) (l : Ledger) (m : MessageData s)
    → (create_impl s cfg l).0 ≡ some m
    → (s.constmap_create cfg.source_properties ≡ some m.properties)
      × (s.constbuffer_create cfg.source cfg.size ≡ some m.content)
unfolding create_impl
create_impl_parts s cfg l m e = ground arith

module _ (s : SharedLib) (c : Copies s) where
  Adds-entries :
      (props : List Property) (m m' : s.MapHandle)
      → Adds s m props m'
      → c.entries m' ≡ c.entries m ++ props
  Adds-entries [] m m' h = ap c.entries (sym h) ∙ sym (append-nil (c.entries m))
  Adds-entries ((k, v) ∷ props) m m' (next, added, rest) =
      Adds-entries props next m' rest
      ∙ rw (c.entries-map_add m next k v added) (append_assoc (c.entries m) ((k, v) ∷ []) props)

-- The bytes around the content that was cut out at `start`.
layout_encoding :
    (source : List ℕ) (size start n : ℕ) (props : List Property)
    → size ≤ length source
    → start + n ≡ size
    → start ≡ 6 + 4 + length (properties_bytes props) + 4
    → source ≡ (0xA1 ∷ 0x60 ∷ []) ++ (be32 size ++ drop 6 source)
    → drop 6 source
      ≡ be32 (length props) ++ (properties_bytes props ++ (be32 n ++ drop start source))
    → take size source ≡ encoding props (take n (drop start source))
unfolding encoding
layout_encoding source size start n props inside exact reached head layout =
    let content = take n (drop start source) in
    let n_eq : length content ≡ n =
      omega (arith, length-take n (drop start source), length-drop start source) in
    let size_eq : encoding_size props content ≡ size = omega arith in
    let rest : drop start source ≡ content ++ drop size source =
      sym (take-append-drop n (drop start source))
      ∙ ap (λ (back : List ℕ). content ++ back)
          (drop-drop start n source ∙ ap (λ k. drop k source) exact) in
    let whole : source ≡ encoding props content ++ drop size source =
      rw (size_eq, n_eq)
        (head
          ∙ ap (λ (back : List ℕ). (0xA1 ∷ 0x60 ∷ []) ++ (be32 size ++ back))
              (layout
                ∙ ap
                    (λ (back : List ℕ).
                      be32 (length props) ++ (properties_bytes props ++ (be32 n ++ back)))
                    rest
                ∙ simp append_assoc)) in
    ap (take size) whole
    ∙ take-append_left size (encoding props content) (drop size source)
        (length-encoding props content ∙ size_eq)

module _ (s : SharedLib) (c : Copies s) (source : List ℕ) (size : ℕ) (l : Ledger) where
  -- For an array of bytes with at least `size` of them, where four more than `size` is an
  -- `int32_t`, and a library that copies what it is given: if a message is returned, then the first
  -- `size` bytes are the byte array form of its properties, in their order, and of its content, and
  -- no property holds a zero byte.
  pub create_from_byte_array-encoding :
      All IsByte source
      → size ≤ length source
      → size + 4 ≤ int32_max
      → (m : MessageData s) (l' : Ledger)
      → create_from_byte_array s (some source) (pos size) l ≡ ok (some m, l')
      → (props : List Property) × (content : List ℕ) × AreStrings props
        × (s.constmap_get_internals m.properties ≡ some props)
        × (s.constbuffer_get_content m.content ≡ content)
        × (take size source ≡ encoding props content)
  create_from_byte_array-encoding bytes inside small m l' e =
      let full =
        subst (Safe (FullResult s source size l bytes inside small)) e
          (create-Result s source size l bytes inside small) in
      let (
        (
          _,
          (
            empty,
            (config_map, start, n),
            created,
            (exact, props, strings, adds, reached, layout),
            made,
          ),
        ),
        head,
      ) =
        full in
      let (internals, buffer) =
        create_impl_parts s (config s source (config_map, start, n)) (take_map l) m made in
      let held : c.entries config_map ≡ props =
        Adds-entries s c props empty config_map adds ∙ rw (c.entries-map_create empty created) in
      (
        props,
        take n (drop start source),
        strings,
        c.entries-constmap_create config_map m.properties internals ∙ ap some held,
        c.content-constbuffer_create (drop start source) n m.content
            (omega (arith, length-drop start source)) buffer,
        layout_encoding source size start n props inside exact reached head layout,
      )
