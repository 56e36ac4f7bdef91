-- ===== src/Message/Tests.antt =====
-- Runs of core/src/message.c on the sample library and messages.
use azure_iot_gateway_sdk.Base.{
  ℕ, zero, suc, ◌≡◌, refl, some, none, List, [], ◌∷◌, ◌++◌, drop, arith,
}
use azure_iot_gateway_sdk.Base.Int.{pos}
use azure_iot_gateway_sdk.Base.Outcome.{ok, Safe}
use azure_iot_gateway_sdk.Message.Shared.{Property}
use azure_iot_gateway_sdk.Message.Samples.{
  list_lib, list_copies, list_memory, list_clones, two_props, three_bytes, sample_message,
  nothing_held,
}
use azure_iot_gateway_sdk.Message.Handle.{MessageData, create_impl, create, create_from_buffer}
use azure_iot_gateway_sdk.Message.Parse.{
  byte_at, parse_int32_t, memchr_nul, parse_null_terminated_const_char, parse_header,
  properties_count, parse_content_size, parse_properties, parse_body, create_from_byte_array,
}
use azure_iot_gateway_sdk.Message.Serialize.{to_byte_array}
use azure_iot_gateway_sdk.Message.Encoding.{encoding}
use azure_iot_gateway_sdk.Message.Writing.{to_byte_array_written}
use azure_iot_gateway_sdk.Message.RoundTrip.{create_from_byte_array-to_byte_array}
use azure_iot_gateway_sdk.Message.Forms.{with_message, AreStrings}
use azure_iot_gateway_sdk.Message.Accept.{Accounted, create_from_byte_array-Safe}
use azure_iot_gateway_sdk.Message.Canonical.{create_from_byte_array-encoding}
use azure_iot_gateway_sdk.Message.References.{
  clones, destroys, use_all, Holds, create-Accounted, use_all-Holds,
}

abbrev zeros : ℕ → List ℕ
zeros zero = []
zeros (suc n) = 0 ∷ zeros n

-- The form of `sample_message`, and bytes that are the form of no message.
abbrev sample_bytes : List ℕ
sample_bytes =
    0xA1 ∷ 0x60 ∷ 0 ∷ 0 ∷ 0 ∷ 25 ∷ 0 ∷ 0 ∷ 0 ∷ 2 ∷ b'a' ∷ 0 ∷ b'1' ∷ 0 ∷ b'b' ∷ b'c' ∷ 0 ∷ 0 ∷ 0 ∷ 0
    ∷ 0 ∷ 3 ∷ 7 ∷ 0 ∷ 255 ∷ []

abbrev sent_bytes : List ℕ
sent_bytes = sample_bytes ++ 9 ∷ 9 ∷ 9 ∷ []

encoding_sample : encoding two_props three_bytes ≡ sample_bytes
unfolding encoding
encoding_sample = refl

read_sample :
    create_from_byte_array list_lib (some sent_bytes) (pos 25) nothing_held
    ≡ ok (some sample_message, with_message nothing_held)
unfolding create_from_byte_array parse_header byte_at parse_int32_t parse_body properties_count
    parse_properties parse_null_terminated_const_char memchr_nul parse_content_size create_impl
read_sample = refl

create_from_byte_array-to_byte_array_example :
    (bytes : List ℕ) × (m : MessageData list_lib) × (to_byte_array list_lib
        (some sample_message)
        (some (zeros 28))
        (pos 28)
      ≡ ok (pos 25, some bytes))
    × (create_from_byte_array list_lib (some bytes) (pos 25) nothing_held
        ≡ ok (some m, with_message nothing_held))
    × (some m.properties ≡ some two_props)
    × (m.content ≡ three_bytes)
    × (m.refs ≡ 1)
    × (drop 25 bytes ≡ zeros 3)
create_from_byte_array-to_byte_array_example =
    create_from_byte_array-to_byte_array list_lib list_copies list_memory sample_message two_props
      three_bytes (zeros 28) 28 nothing_held refl refl (ground arith) (ground arith) (ground arith)
      (ground arith) (ground arith)

create_from_byte_array-Safe_example :
    Safe
      (Accounted list_lib nothing_held)
      (create_from_byte_array list_lib (some sent_bytes) (pos 25) nothing_held)
create_from_byte_array-Safe_example =
    create_from_byte_array-Safe list_lib sent_bytes 25 nothing_held (ground arith) (ground arith)
      (ground arith)

create_from_byte_array-encoding_example :
    (props : List Property) × (content : List ℕ) × AreStrings props
    × (some two_props ≡ some props)
    × (three_bytes ≡ content)
    × (sample_bytes ≡ encoding props content)
create_from_byte_array-encoding_example =
    create_from_byte_array-encoding list_lib list_copies sent_bytes 25 nothing_held (ground arith)
      (ground arith) (ground arith) sample_message (with_message nothing_held) read_sample

to_byte_array_written_example :
    to_byte_array list_lib (some sample_message) (some (zeros 27)) (pos 26)
    ≡ ok (pos 25, some (encoding two_props three_bytes ++ 0 ∷ 0 ∷ []))
to_byte_array_written_example =
    to_byte_array_written list_lib sample_message two_props three_bytes refl refl (ground arith)
      (zeros 27) 26 (ground arith) (ground arith)

create-Accounted_example :
    Accounted list_lib nothing_held (
      create list_lib
        (some (record { size = 3; source = some three_bytes; source_properties = some two_props }))
        nothing_held)
    × Accounted list_lib nothing_held (
        create_from_buffer list_lib
          (some (record { source_content = some three_bytes; source_properties = none }))
          nothing_held)
create-Accounted_example =
    create-Accounted list_lib
      (some (record { size = 3; source = some three_bytes; source_properties = some two_props }))
      (some (record { source_content = some three_bytes; source_properties = none })) nothing_held

use_all-Holds_example : Holds list_lib nothing_held 0 (
    use_all list_lib
      (clones ∷ destroys ∷ destroys ∷ [])
      (some sample_message, with_message nothing_held))
use_all-Holds_example =
    use_all-Holds list_lib list_clones nothing_held (clones ∷ destroys ∷ destroys ∷ []) 1
      (some sample_message, with_message nothing_held) tt (refl, refl)
