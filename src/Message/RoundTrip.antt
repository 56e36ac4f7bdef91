-- ===== src/Message/RoundTrip.antt =====
-- Message_CreateFromByteArray reads back what Message_ToByteArray writes (core/src/message.c).
use azure_iot_gateway_sdk.Base.{
  ℕ, ◌+◌, ◌≤◌, ◌≡◌, refl, false, ◌&&◌, ltb, sym, ap, ◌∙◌, some, List, [], ◌++◌, length,
  length-append, take, drop, take-append_left, drop-append_left, le→not_ltb, some_of_ne, arith,
  subst,
}
use azure_iot_gateway_sdk.Base.Int.{pos, int32_max}
use azure_iot_gateway_sdk.Base.Outcome.{ok}
use azure_iot_gateway_sdk.Message.Shared.{
  SharedLib, Copies, HasMemory, Ledger, Property, take_map, free_map,
}
use azure_iot_gateway_sdk.Message.Handle.{MessageData, create_impl}
use azure_iot_gateway_sdk.Message.Parse.{
  parse_header, parse_body, content_outside, create_from_byte_array,
}
use azure_iot_gateway_sdk.Message.Serialize.{to_byte_array}
use azure_iot_gateway_sdk.Message.Encoding.{
  properties_bytes, encoding_size, tail_bytes, encoding, length-encoding,
}
use azure_iot_gateway_sdk.Message.Writing.{to_byte_array_written}
use azure_iot_gateway_sdk.Message.Forms.{
  AreStrings, KeysAreNew, parse_body-bytes, parse_header-encoding, with_message,
}

pub free_map-with_message : (l : Ledger) → free_map (with_message (take_map l)) ≡ with_message l
free_map-with_message l = ground arith

module _ (s : SharedLib) (c : Copies s) (memory : HasMemory s c) where
  -- The message that is built from bytes in memory and a map.
  create_impl-total :
      (bytes : List ℕ) (n : ℕ) (m : s.MapHandle) (l : Ledger)
      → n ≤ length bytes
      → (d : MessageData s) × (create_impl s
            (record { size = n; source = some bytes; source_properties = some m })
            l
          ≡ (some d, with_message l))
        × (s.constmap_get_internals d.properties ≡ some (c.entries m))
        × (s.constbuffer_get_content d.content ≡ take n bytes)
        × (d.refs ≡ 1)
  unfolding create_impl
  create_impl-total bytes n m l h =
      let (b, eb) =
        some_of_ne (s.constbuffer_create (some bytes) n)
          (memory.constbuffer_create-ne-none bytes n h) in
      let (p, ep) = some_of_ne (s.constmap_create (some m)) (memory.constmap_create-ne-none m) in
      (
        record { refs = 1; properties = p; content = b },
        rw (memory.malloc_message_true, eb, ep),
        c.entries-constmap_create m p ep,
        c.content-constbuffer_create bytes n b h eb,
        refl,
      )

  -- The parser where all of its steps succeed.
  create-made :
      (source : List ℕ) (size start n : ℕ) (empty m : s.MapHandle) (d : MessageData s)
      (l l' : Ledger)
      → ltb size 14 ≡ false
      → parse_header source size ≡ ok 6
      → s.map_create ≡ some empty
      → parse_body s source size empty 6 ≡ ok (m, start, n)
      → start + n ≤ length source
      → create_impl s
          (record { size = n; source = some (drop start source); source_properties = some m })
          (take_map l)
        ≡ (some d, l')
      → create_from_byte_array s (some source) (pos size) l ≡ ok (some d, free_map l')
  unfolding create_from_byte_array content_outside
  create-made source size start n empty m d l l' long header e0 run h built =
      let within : (s.malloc_message && ltb (length source) (start + n)) ≡ false = ground arith in
      rw (long, header, e0, run, within, built)

  pub create_from_encoding :
      (props : List Property) (content rest : List ℕ) (l : Ledger)
      → AreStrings props
      → KeysAreNew [] props
      → encoding_size props content ≤ int32_max
      → (m : MessageData s) × (create_from_byte_array s
            (some (encoding props content ++ rest))
            (pos (encoding_size props content))
            l
          ≡ ok (some m, with_message l))
        × (s.constmap_get_internals m.properties ≡ some props)
        × (s.constbuffer_get_content m.content ≡ content)
        × (m.refs ≡ 1)
  create_from_encoding props content rest l ht hk hs =
      let source = encoding props content ++ rest in
      let (empty, e0) = some_of_ne s.map_create memory.map_create-ne-none in
      let none_held : c.entries empty ≡ [] = c.entries-map_create empty e0 in
      let (m, start, run, held, at, ends) =
        parse_body-bytes s c memory source (encoding_size props content) props content rest empty 6
          ht (subst (λ h. KeysAreNew h props) (sym none_held) hk)
          (omega (arith, length-append (properties_bytes props) (tail_bytes content))) hs
          (unfold encoding in refl) in
      let (d, built, internals, bytes, one) =
        create_impl-total (drop start source) (length content) m (take_map l)
          (rw at (omega (arith, length-append content rest))) in
      (
        d,
        create-made source (encoding_size props content) start (length content) empty m d l _
              (le→not_ltb (encoding_size props content) 14 (omega arith))
              (parse_header-encoding props content rest hs) e0 run
              (omega (
                arith,
                ends,
                length-append (encoding props content) rest,
                length-encoding props content,
              ))
              built
            ∙ ap (λ h. ok (some d, h)) (free_map-with_message l),
        internals ∙ ap some (held ∙ rw none_held),
        bytes ∙ rw at (take-append_left (length content) content rest refl),
        one,
      )

  -- Where the library has memory for every call and copies what it is given: a message whose
  -- properties are C strings with distinct keys, and whose byte array form fits the size that is
  -- passed, an `int32_t` no larger than the buffer, is written to the front of the buffer, and what
  -- is written reads back as a message with the same properties in the same order and the same
  -- content, with one reference. The buffer behind the bytes written is as it was.
  pub create_from_byte_array-to_byte_array :
      (m : MessageData s) (props : List Property) (content buf : List ℕ) (size : ℕ) (l : Ledger)
      → s.constmap_get_internals m.properties ≡ some props
      → s.constbuffer_get_content m.content ≡ content
      → AreStrings props
      → KeysAreNew [] props
      → encoding_size props content ≤ size
      → size ≤ length buf
      → size ≤ int32_max
      → (bytes : List ℕ) × (m' : MessageData s) × (to_byte_array s (some m) (some buf) (pos size)
          ≡ ok (pos (encoding_size props content), some bytes))
        × (create_from_byte_array s (some bytes) (pos (encoding_size props content)) l
            ≡ ok (some m', with_message l))
        × (s.constmap_get_internals m'.properties ≡ some props)
        × (s.constbuffer_get_content m'.content ≡ content)
        × (m'.refs ≡ 1)
        × (drop (encoding_size props content) bytes ≡ drop (encoding_size props content) buf)
  create_from_byte_array-to_byte_array m props content buf size l hp hc ht hk hn hb hs =
      let n = encoding_size props content in
      let (m', read, internals, bytes, one) =
        create_from_encoding props content (drop n buf) l ht hk (omega arith) in
      (
        encoding props content ++ drop n buf,
        m',
        to_byte_array_written s m props content hp hc (omega arith) buf size hn (omega arith),
        read,
        internals,
        bytes,
        one,
        drop-append_left n (encoding props content) (drop n buf) (length-encoding props content),
      )
