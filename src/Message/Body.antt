-- ===== src/Message/Body.antt =====
-- The stages of Message_CreateFromByteArray (core/src/message.c): the header, the properties and the
-- content, inside the array and laid out as the byte array form.
use azure_iot_gateway_sdk.Base.{
  ℕ, zero, suc, ◌+◌, ◌≤◌, ◌≡◌, refl, sym, ap, ◌∙◌, true, some, List, [], ◌∷◌, ◌++◌, length, All,
  drop, ◌==◌, ==_iff, subst, arith,
}
use azure_iot_gateway_sdk.Base.Int.{ℤ, pos, negsuc, int32_max, eq_int, add_int32, to_size}
use azure_iot_gateway_sdk.Base.Outcome.{
  ok, ◌>>=◌, guard, Safe, >>=-Safe, or_fail-Safe, guard-Safe, Safe-mono,
}
use azure_iot_gateway_sdk.Message.Shared.{SharedLib, Property}
use azure_iot_gateway_sdk.Message.Serialize.{be32}
use azure_iot_gateway_sdk.Message.Parse.{
  parse_header, properties_count, parse_properties, parse_content_size, parse_body,
}
use azure_iot_gateway_sdk.Message.Encoding.{properties_bytes, length_property}
use azure_iot_gateway_sdk.Message.Safety.{
  IsByte, ByteAt, Int32At, TextAt, byte_at-Safe, parse_int32_t-Safe, parse_null_terminated-Safe,
  content_size_exact,
}
use azure_iot_gateway_sdk.Message.Forms.{AreStrings, property_layout}

-- `Map_Add` of each property in turn leads from `m` to `m'`.
abbrev pub Adds : (s : SharedLib) → s.MapHandle → List Property → s.MapHandle → Type 0
Adds s m [] m' = m ≡ m'
Adds s m ((k, v) ∷ props) m' =
    (next : s.MapHandle) × (s.map_add m k v ≡ some next) × Adds s next props m'

properties_count-Safe : (n : ℤ) → Safe (λ k. n ≡ pos k) (properties_count n)
unfolding properties_count
properties_count-Safe (pos n) = ground arith
properties_count-Safe (negsuc n) = tt

eq_int→eq : (a b : ℤ) → eq_int a b ≡ true → a ≡ b
eq_int→eq (pos a) (pos b) h = ap pos (ground arith)
eq_int→eq (negsuc a) (negsuc b) h = ap negsuc (ground arith)
eq_int→eq (pos a) (negsuc b) h = cc
eq_int→eq (negsuc a) (pos b) h = cc

module _ (s : SharedLib) (source : List ℕ) (size : ℕ) where
  -- Properties were read between `p` and the position that was reached.
  abbrev PropertiesAt : ℕ → ℕ → s.MapHandle → s.MapHandle × ℕ → Type 0
  PropertiesAt p rounds m r =
      (r.1 ≤ size)
      × (props : List Property) × (length props ≡ rounds)
      × AreStrings props
      × Adds s m props r.0
      × (r.1 ≡ p + length (properties_bytes props))
      × (drop p source ≡ properties_bytes props ++ drop r.1 source)

  -- The content size was read, and is what is left.
  abbrev ContentAt : ℕ → ℕ × ℕ → Type 0
  ContentAt p r = (r.0 ≡ p + 4) × (r.0 + r.1 ≡ size) × (drop p source ≡ be32 r.1 ++ drop r.0 source)

  -- What `parse_body` returns: the map with the properties added, and where the content stands.
  abbrev pub BodyAt : ℕ → s.MapHandle → s.MapHandle × ℕ × ℕ → Type 0
  BodyAt p m r =
      (r.1 + r.2 ≡ size)
      × (props : List Property) × AreStrings props
      × Adds s m props r.0
      × (r.1 ≡ p + 4 + length (properties_bytes props) + 4)
      × (drop p source
          ≡ be32 (length props) ++ (properties_bytes props ++ (be32 r.2 ++ drop r.1 source)))

module _ (s : SharedLib) (source : List ℕ) (size : ℕ) (bytes : All IsByte source)
    (inside : size ≤ length source) (small : size + 4 ≤ int32_max) where
  parse_properties-Safe :
      (rounds : ℕ) (m : s.MapHandle) (p : ℕ)
      → p ≤ size
      → Safe (PropertiesAt s source size p rounds m) (parse_properties s source size rounds m p)
  unfolding parse_properties
  parse_properties-Safe zero m p hp = (hp, [], refl, tt, refl, omega arith, refl)
  parse_properties-Safe (suc rounds) m p hp =
      >>=-Safe (TextAt source size p) _ _ _
        (parse_null_terminated-Safe source size bytes inside small p hp)
        λ k hk.
          >>=-Safe (TextAt source size (p + k.0)) _ _ _
            (parse_null_terminated-Safe source size bytes inside small (p + k.0) hk.0)
            λ v hv.
              >>=-Safe (λ next. s.map_add m k.1 v.1 ≡ some next) _ _ _
                (or_fail-Safe (s.map_add m k.1 v.1))
                λ next added.
                  Safe-mono (PropertiesAt s source size (p + k.0 + v.0) rounds next) _ _
                    (parse_properties-Safe rounds next (p + k.0 + v.0) hv.0)
                    λ r (fits, props, count, strings, adds, reached, layout). (
                      fits,
                      (k.1, v.1) ∷ props,
                      ap suc count,
                      ((hk.3, hv.3), strings),
                      (next, added, adds),
                      omega (arith, length_property k.1 v.1 (properties_bytes props), hk.1, hv.1),
                      hk.2
                          ∙ rw (hv.2, layout)
                              (sym (
                                property_layout k.1 v.1 (properties_bytes props)
                                  (drop r.1 source))),
                    )

  content_step :
      (p : ℕ) (r : ℕ × ℤ)
      → (r.0 ≡ 4) × (p + 4 ≤ size) × Int32At source p r.1
      → Safe (ContentAt s source size p) (
          guard (eq_int (add_int32 (pos (p + r.0)) r.1) (pos size)) >>= λ _.
          ok (p + r.0, to_size r.1))
  content_step p (k, n) (hk, room, h) = rw hk (
      >>=-Safe (λ _. eq_int (add_int32 (pos (p + 4)) n) (pos size) ≡ true) _ _ _
        (guard-Safe (eq_int (add_int32 (pos (p + 4)) n) (pos size)))
        λ _ e.
          let (exact, layout) = content_size_exact source size p n room (omega arith) h e in
          (refl, exact, layout))

  parse_content_size-Safe :
      (p : ℕ) → p ≤ size → Safe (ContentAt s source size p) (parse_content_size source size p)
  unfolding parse_content_size
  parse_content_size-Safe p hp =
      >>=-Safe (λ (r : ℕ × ℤ). (r.0 ≡ 4) × (p + 4 ≤ size) × Int32At source p r.1) _ _ _
        (parse_int32_t-Safe source size bytes inside small p hp) (content_step p)

  pub parse_body-Safe :
      (m : s.MapHandle) (p : ℕ)
      → p ≤ size
      → Safe (BodyAt s source size p m) (parse_body s source size m p)
  unfolding parse_body
  parse_body-Safe m p hp =
      >>=-Safe (λ (r : ℕ × ℤ). (r.0 ≡ 4) × (p + 4 ≤ size) × Int32At source p r.1) _ _ _
        (parse_int32_t-Safe source size bytes inside small p hp)
        λ r (four, room, value).
          >>=-Safe (λ k. r.1 ≡ pos k) _ _ _ (properties_count-Safe r.1)
            λ rounds counted.
              >>=-Safe (PropertiesAt s source size (p + r.0) rounds m) _ _ _
                (parse_properties-Safe rounds m (p + r.0) (omega arith))
                λ q (fits, props, count, strings, adds, reached, layout).
                  >>=-Safe (ContentAt s source size q.1) _ _ _ (parse_content_size-Safe q.1 fits)
                    λ z (start, exact, content_layout).
                      let front : drop p source ≡ be32 rounds ++ drop (p + 4) source =
                        (subst (Int32At source p) counted value).1 in
                      let moved : p + 4 ≡ p + r.0 = omega arith in
                      (
                        exact,
                        props,
                        strings,
                        adds,
                        omega arith,
                        front ∙ rw (moved, layout, content_layout, count),
                      )

pub parse_header-Safe :
    (source : List ℕ) (size : ℕ)
    → All IsByte source
    → size ≤ length source
    → size + 4 ≤ int32_max
    → 14 ≤ size
    → Safe
        (λ p. (p ≡ 6) × (source ≡ (0xA1 ∷ 0x60 ∷ []) ++ (be32 size ++ drop 6 source)))
        (parse_header source size)
unfolding parse_header
parse_header-Safe source size bytes inside small long =
    >>=-Safe (ByteAt source 0 1) _ _ _ (byte_at-Safe source 0 0 1 refl refl bytes (omega arith))
      λ b0 h0.
        >>=-Safe (λ _. (b0 == 0xA1) ≡ true) _ _ _ (guard-Safe (b0 == 0xA1))
          λ _ e0.
            >>=-Safe (ByteAt source 1 2) _ _ _
              (byte_at-Safe source 1 1 2 refl refl bytes (omega arith))
              λ b1 h1.
                >>=-Safe (λ _. (b1 == 0x60) ≡ true) _ _ _ (guard-Safe (b1 == 0x60))
                  λ _ e1.
                    >>=-Safe (λ (r : ℕ × ℤ). (r.0 ≡ 4) × (2 + 4 ≤ size) × Int32At source 2 r.1) _ _
                      _ (parse_int32_t-Safe source size bytes inside small 2 (omega arith))
                      λ r (four, room, value).
                        >>=-Safe (λ _. eq_int r.1 (pos size) ≡ true) _ _ _
                          (guard-Safe (eq_int r.1 (pos size)))
                          λ _ e2.
                            let front =
                              (subst (Int32At source 2) (eq_int→eq r.1 (pos size) e2) value).1 in
                            (
                              omega arith,
                              h0.1 ∙ rw (h1.1, (==_iff b0 0xA1).0 e0, (==_iff b1 0x60).0 e1, front),
                            )
