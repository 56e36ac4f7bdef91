-- ===== src/Message/Encoding.antt =====
-- The byte array form of a message, stated on its own, and that Message_ToByteArray writes it.
use azure_iot_gateway_sdk.Base.{
  ℕ, zero, suc, ◌+◌, ◌/◌, ◌%◌, ◌^◌, ◌≤◌, ◌<◌, ◌≡◌, refl, ◌∙◌, List, [], ◌∷◌, ◌++◌, append_assoc,
  append-nil, length, length-append, length-drop, drop, take-append_left, drop-append_left,
  drop-drop, le→not_ltb, arith,
}
use azure_iot_gateway_sdk.Base.Outcome.{ok}
use azure_iot_gateway_sdk.Message.Shared.{Property}
use azure_iot_gateway_sdk.Message.Serialize.{
  add_sizes, byte_array_size, be32, memcpy, write_properties, write_message,
}

-- A number in `width` bytes, the one of the highest weight first.
abbrev pub big_endian : (width : ℕ) → ℕ → List ℕ
big_endian zero n = []
big_endian (suc zero) n = (n % 256) ∷ []
big_endian (suc (suc width)) n = (n / 256 ^ suc width % 256) ∷ big_endian (suc width) n

-- The shifts and masks of the writer give the four bytes of a number.
be32-big_endian : (n : ℕ) → be32 n ≡ big_endian 4 n
be32-big_endian n = refl

abbrev pub properties_bytes : List Property → List ℕ
properties_bytes [] = []
properties_bytes ((k, v) ∷ props) = (k ++ 0 ∷ []) ++ ((v ++ 0 ∷ []) ++ properties_bytes props)

abbrev pub encoding_size : List Property → List ℕ → ℕ
encoding_size props content = 14 + length (properties_bytes props) + length content

-- What stands behind the properties.
abbrev pub tail_bytes : List ℕ → List ℕ
tail_bytes content = big_endian 4 (length content) ++ content

abbrev pub body_bytes : List Property → List ℕ → List ℕ
body_bytes props content =
    big_endian 4 (length props) ++ (properties_bytes props ++ tail_bytes content)

unfoldable pub encoding : List Property → List ℕ → List ℕ
encoding props content =
    (0xA1 ∷ 0x60 ∷ []) ++ (big_endian 4 (encoding_size props content) ++ body_bytes props content)

pub length-encoding :
    (props : List Property) (content : List ℕ)
    → length (encoding props content) ≡ encoding_size props content
unfolding encoding
length-encoding props content =
    omega (arith, length-append (properties_bytes props) (tail_bytes content))

pub length_property :
    (k v : List ℕ) (rest : List ℕ)
    → length ((k ++ 0 ∷ []) ++ ((v ++ 0 ∷ []) ++ rest))
      ≡ (length k + 1) + (length v + 1) + length rest
length_property k v rest = omega (
  arith,
  length-append (k ++ 0 ∷ []) ((v ++ 0 ∷ []) ++ rest),
  length-append (v ++ 0 ∷ []) rest,
  length-append k (0 ∷ []),
  length-append v (0 ∷ []),
)

pub length-properties_bytes :
    (props : List Property) → length props + length props ≤ length (properties_bytes props)
length-properties_bytes [] = omega arith
length-properties_bytes ((k, v) ∷ props) =
    omega (arith, length_property k v (properties_bytes props), length-properties_bytes props)

add_sizes-length :
    (props : List Property) (total : ℕ)
    → total + length (properties_bytes props) < 2 ^ 64
    → add_sizes total props ≡ total + length (properties_bytes props)
unfolding add_sizes
add_sizes-length [] total h = omega arith
add_sizes-length ((k, v) ∷ props) total h =
    let e : (total + ((length k + 1) + (length v + 1))) % 2 ^ 64
        ≡ total + ((length k + 1) + (length v + 1)) =
      omega (arith, length_property k v (properties_bytes props)) in
    rw e (
      add_sizes-length props _ (omega (arith, length_property k v (properties_bytes props)))
      ∙ omega (arith, length_property k v (properties_bytes props)))

pub byte_array_size-encoding :
    (props : List Property) (content : List ℕ)
    → encoding_size props content < 2 ^ 64
    → byte_array_size props content ≡ encoding_size props content
unfolding byte_array_size
byte_array_size-encoding props content h = omega (arith, add_sizes-length props 14 (omega arith))

-- A write behind what is done, in a buffer whose rest is still as it was.
memcpy_step :
    (done bytes buf : List ℕ) (k n : ℕ)
    → length done ≡ k
    → length bytes ≡ n
    → k + n ≤ length buf
    → memcpy (done ++ drop k buf) k bytes ≡ ok ((done ++ bytes) ++ drop (k + n) buf)
unfolding memcpy
memcpy_step done bytes buf k n e en h = rw (
  en,
  le→not_ltb _ _ fits,
  take-append_left k done (drop k buf) e,
  ← drop-drop k n (done ++ drop k buf),
  drop-append_left k done (drop k buf) e,
  drop-drop k n buf,
  append_assoc,
)
  where
    fits : k + n ≤ length (done ++ drop k buf)
    fits = omega (arith, length-append done (drop k buf), length-drop k buf)

pub length_terminated : (t : List ℕ) → length (t ++ 0 ∷ []) ≡ length t + 1
length_terminated t = length-append t (0 ∷ [])

write_properties_step :
    (props : List Property) (done buf : List ℕ) (k n : ℕ)
    → length done ≡ k
    → length (properties_bytes props) ≡ n
    → k + n ≤ length buf
    → write_properties props k (done ++ drop k buf)
      ≡ ok (k + n, (done ++ properties_bytes props) ++ drop (k + n) buf)
unfolding write_properties
write_properties_step [] done buf k n e en h =
    let en' : k ≡ k + n = omega arith in rw (append-nil, ← en')
write_properties_step ((key, value) ∷ props) done buf k n e en h =
    let kn = length key + 1 in
    let vn = length value + 1 in
    let pn = length (properties_bytes props) in
    let total : kn + vn + pn ≡ n =
      omega (arith, length_property key value (properties_bytes props)) in
    let sum : k + kn + vn + pn ≡ k + n = omega arith in
    rw
      (
        memcpy_step done (key ++ 0 ∷ []) buf k kn e (length_terminated key) (omega arith),
        memcpy_step (done ++ (key ++ 0 ∷ [])) (value ++ 0 ∷ []) buf (k + kn) vn
            (omega (arith, length-append done (key ++ 0 ∷ []), length_terminated key))
            (length_terminated value) (omega arith),
        write_properties_step props ((done ++ (key ++ 0 ∷ [])) ++ (value ++ 0 ∷ [])) buf
            (k + kn + vn) pn
            (omega (
              arith,
              length-append (done ++ (key ++ 0 ∷ [])) (value ++ 0 ∷ []),
              length-append done (key ++ 0 ∷ []),
              length_terminated key,
              length_terminated value,
            ))
            refl (omega arith),
        sum,
      )
      (simp append_assoc)

-- The buffer after a complete write.
pub write_message-encoding :
    (props : List Property) (content buf : List ℕ)
    → encoding_size props content ≤ length buf
    → write_message props content (encoding_size props content) buf
      ≡ ok (encoding props content ++ drop (encoding_size props content) buf)
unfolding write_message encoding
write_message-encoding props content buf h =
    let pn = length (properties_bytes props) in
    let total = encoding_size props content in
    let head = 0xA1 ∷ 0x60 ∷ be32 total in
    let front = head ++ be32 (length props) in
    let mid = front ++ properties_bytes props in
    let mid_length : length mid ≡ 10 + pn = length-append front (properties_bytes props) in
    let size_length : length (mid ++ be32 (length content)) ≡ 10 + pn + 4 =
      omega (arith, length-append mid (be32 (length content))) in
    let sum : 10 + pn + 4 + length content ≡ total = omega arith in
    rw
      (
        memcpy_step [] (0xA1 ∷ 0x60 ∷ []) buf 0 2 refl refl (omega arith),
        memcpy_step (0xA1 ∷ 0x60 ∷ []) (be32 total) buf 2 4 refl refl (omega arith),
        memcpy_step head (be32 (length props)) buf 6 4 refl refl (omega arith),
        write_properties_step props front buf 10 pn refl refl (omega arith),
        memcpy_step mid (be32 (length content)) buf (10 + pn) 4 mid_length refl (omega arith),
        memcpy_step (mid ++ be32 (length content)) content buf (10 + pn + 4) (length content)
            size_length refl (omega arith),
        sum,
      )
      (simp append_assoc)
