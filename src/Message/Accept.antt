-- ===== src/Message/Accept.antt =====
-- Message_CreateFromByteArray (core/src/message.c) as a whole: it reads inside the array, gives back
-- what it took when it fails, and accepts byte array forms only.
use azure_iot_gateway_sdk.Base.{
  ℕ, ◌+◌, ◌≤◌, ◌≡◌, refl, ap, ◌∙◌, inl, inr, Option, some, none, false, ◌&&◌, List, [], ◌∷◌, ◌++◌,
  length, All, drop, ltb, not_ltb→le, Bool-cases, arith,
}
use azure_iot_gateway_sdk.Base.Int.{pos, int32_max}
use azure_iot_gateway_sdk.Base.Outcome.{Outcome, ok, fail, fault, Safe, Safe-mono}
use azure_iot_gateway_sdk.Message.Shared.{SharedLib, Ledger, take_map, free_map}
use azure_iot_gateway_sdk.Message.Serialize.{be32}
use azure_iot_gateway_sdk.Message.Handle.{MessageData, MessageConfig, create_impl}
use azure_iot_gateway_sdk.Message.Parse.{
  content_outside, finish, with_map, after_header, create_from_byte_array,
}
use azure_iot_gateway_sdk.Message.Safety.{IsByte}
use azure_iot_gateway_sdk.Message.RoundTrip.{free_map-with_message}
use azure_iot_gateway_sdk.Message.Forms.{with_message}
use azure_iot_gateway_sdk.Message.Body.{BodyAt, parse_body-Safe, parse_header-Safe}

-- A call that gives no message holds nothing more than before; one that gives a message holds its
-- memory block, its constmap and its constbuffer, and the message has one reference.
abbrev pub Accounted : (s : SharedLib) → Ledger → Option (MessageData s) × Ledger → Type 0
Accounted s l (none, l') = l' ≡ l
Accounted s l (some m, l') = (l' ≡ with_message l) × (m.refs ≡ 1)

pub create_impl-Accounted :
    (s : SharedLib) (cfg : MessageConfig s) (l : Ledger) → Accounted s l (create_impl s cfg l)
unfolding create_impl
create_impl-Accounted s cfg l = ground arith

free_map-take_map : (l : Ledger) → free_map (take_map l) ≡ l
free_map-take_map l = ground arith

abbrev pub config : (s : SharedLib) → List ℕ → s.MapHandle × ℕ × ℕ → MessageConfig s
config s source (config_map, start, n) = record {
  size = n;
  source = some (drop start source);
  source_properties = some config_map;
}

module _ (s : SharedLib) (source : List ℕ) (size : ℕ) (l : Ledger) where
  -- Where a message that was made comes from.
  abbrev pub MadeFrom : (m : MessageData s) → Type 0
  MadeFrom m =
      (empty : s.MapHandle) × (r : s.MapHandle × ℕ × ℕ) × (s.map_create ≡ some empty)
      × BodyAt s source size 6 empty r
      × ((create_impl s (config s source r) (take_map l)).0 ≡ some m)

  abbrev pub Result : Option (MessageData s) × Ledger → Type 0
  Result (none, l') = l' ≡ l
  Result (some m, l') = ((l' ≡ with_message l) × (m.refs ≡ 1)) × MadeFrom m

  settle :
      (empty : s.MapHandle) (r : s.MapHandle × ℕ × ℕ) (p : Option (MessageData s) × Ledger)
      → s.map_create ≡ some empty
      → BodyAt s source size 6 empty r
      → create_impl s (config s source r) (take_map l) ≡ p
      → Accounted s (take_map l) p
      → Result (p.0, free_map p.1)
  settle empty r (none, l') e body made acc = ap free_map acc ∙ free_map-take_map l
  settle empty r (some m, l') e body made (acc, one) = (
    (ap free_map acc ∙ free_map-with_message l, one),
    (empty, r, e, body, ap (λ (q : Option (MessageData s) × Ledger). q.0) made),
  )

  content_inside :
      (start n : ℕ)
      → start + n ≡ size
      → size ≤ length source
      → (s.malloc_message && ltb (length source) (start + n)) ≡ false
  content_inside start n exact inside = ground arith

  finish-Result :
      (empty : s.MapHandle) (r : Outcome (s.MapHandle × ℕ × ℕ))
      → s.map_create ≡ some empty
      → Safe (BodyAt s source size 6 empty) r
      → size ≤ length source
      → Safe Result (finish s source (take_map l) r)
  unfolding finish content_outside
  finish-Result empty (ok (config_map, start, n)) e body inside =
      rw (content_inside start n body.0 inside)
        (settle empty (config_map, start, n) _ e body refl (create_impl-Accounted s _ (take_map l)))
  finish-Result empty fail e body inside = free_map-take_map l
  finish-Result empty fault e body inside = body

module _ (s : SharedLib) (source : List ℕ) (size : ℕ) (l : Ledger) (bytes : All IsByte source)
    (inside : size ≤ length source) (small : size + 4 ≤ int32_max) where
  with_map-Result :
      (o : Option s.MapHandle)
      → s.map_create ≡ o
      → 6 ≤ size
      → Safe (Result s source size l) (with_map s o source size 6 l)
  unfolding with_map
  with_map-Result none e h = refl
  with_map-Result (some m) e h =
      finish-Result s source size l m _ e (parse_body-Safe s source size bytes inside small m 6 h)
        inside

  -- The result, whatever the bytes are; a message also comes with the two marks and the size in front.
  abbrev pub FullResult : Option (MessageData s) × Ledger → Type 0
  FullResult (none, l') = l' ≡ l
  FullResult (some m, l') =
      Result s source size l (some m, l')
      × (source ≡ (0xA1 ∷ 0x60 ∷ []) ++ (be32 size ++ drop 6 source))

  full :
      (r : Option (MessageData s) × Ledger)
      → source ≡ (0xA1 ∷ 0x60 ∷ []) ++ (be32 size ++ drop 6 source)
      → Result s source size l r
      → FullResult r
  full (none, l') e h = h
  full (some m, l') e h = (h, e)

  header-Result :
      (o : Outcome ℕ)
      → 6 ≤ size
      → Safe (λ p. (p ≡ 6) × (source ≡ (0xA1 ∷ 0x60 ∷ []) ++ (be32 size ++ drop 6 source))) o
      → Safe FullResult (after_header s source size l o)
  unfolding after_header
  header-Result (ok p) h (six, e) = rw six (
      Safe-mono (Result s source size l) FullResult _ (with_map-Result s.map_create refl h)
        (λ r. full r e))
  header-Result fail h x = refl
  header-Result fault h x = x

  pub create-Result : Safe FullResult (create_from_byte_array s (some source) (pos size) l)
  unfolding create_from_byte_array
  create-Result = elim (Bool-cases (ltb size 14)) [
    | inl e ↦ rw e refl
    | inr e ↦
        let long = not_ltb→le size 14 e in
        rw e (header-Result _ (omega arith) (parse_header-Safe source size bytes inside small long))
  ]

  -- For an array of bytes that has `size` of them, where four more than `size` is an `int32_t`: no
  -- run reads outside of the array (signed sums are read in two's complement); and whatever the
  -- bytes are and whichever library calls fail, a call that returns no message has given back all
  -- it took, and one that returns a message holds one memory block, one constmap and one
  -- constbuffer more, and the message has one reference.
  pub create_from_byte_array-Safe :
      Safe (Accounted s l) (create_from_byte_array s (some source) (pos size) l)
  create_from_byte_array-Safe = Safe-mono FullResult (Accounted s l) _ create-Result accounted
    where
      accounted : (r : Option (MessageData s) × Ledger) → FullResult r → Accounted s l r
      accounted (none, l') h = h
      accounted (some m, l') h = h.0.0
