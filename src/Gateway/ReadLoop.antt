-- ===== src/Gateway/ReadLoop.antt =====
-- core/src/gateway.c: what the two loops of parse_json_internal have read when they stop.
use azure_iot_gateway_sdk.Base.{
  ℕ, zero, suc, ◌+◌, ◌≡◌, refl, subst, ◌∙◌, inl, inr, true, Bool-cases, List, [], ◌∷◌, ◌++◌, length,
  length-append, arith,
}
use azure_iot_gateway_sdk.Gateway.Env.{Env}
use azure_iot_gateway_sdk.Gateway.Parson.{ParseJsonResult, parse_json_success}
use azure_iot_gateway_sdk.Gateway.Json.{is_success, Loop, go_on_parse, read_rest}

-- What a loop does not touch.
pub record Kept (e e' : Env) : Type 0 where
  pub kept_libraries : e'.libraries ≡ e.libraries
  pub kept_instances : e'.instances ≡ e.instances
  pub kept_vectors : e'.vectors ≡ e.vectors
  pub kept_values : e'.json_values ≡ e.json_values

abbrev pub kept :
    {e e' : Env}
    → e'.libraries ≡ e.libraries
    → e'.instances ≡ e.instances
    → e'.vectors ≡ e.vectors
    → e'.json_values ≡ e.json_values
    → Kept e e'
kept libs insts vecs vals = record {
  kept_libraries = libs;
  kept_instances = insts;
  kept_vectors = vecs;
  kept_values = vals;
}

pub kept-trans : (e e' e'' : Env) → Kept e e' → Kept e' e'' → Kept e e''
kept-trans e e' e'' k k' = record {
  kept_libraries = k'.kept_libraries ∙ k.kept_libraries;
  kept_instances = k'.kept_instances ∙ k.kept_instances;
  kept_vectors = k'.kept_vectors ∙ k.kept_vectors;
  kept_values = k'.kept_values ∙ k.kept_values;
}

-- The elements are what stands in the array from `index` on, in its order.
module _ {A : Type 0} (IsAt : ℕ → A → Type 0) where
  unfoldable pub ReadFrom : ℕ → List A → Type 0
  ReadFrom index [] = Unit
  ReadFrom index (x ∷ xs) = IsAt index x × ReadFrom (suc index) xs

  pub ReadFrom-snoc :
      (index : ℕ) (xs : List A) (x : A)
      → ReadFrom index xs
      → IsAt (index + length xs) x
      → ReadFrom index (xs ++ x ∷ [])
  unfolding ReadFrom
  ReadFrom-snoc index [] x r at = (subst (λ i. IsAt i x) (omega arith) at, tt)
  ReadFrom-snoc index (y ∷ ys) x (at_y, r) at =
      (at_y, ReadFrom-snoc (suc index) ys x r (subst (λ i. IsAt i x) (omega arith) at))

module _ {A : Type 0} (texts_of : A → ℕ) where
  unfoldable pub texts : List A → ℕ
  texts [] = 0
  texts (x ∷ xs) = texts_of x + texts xs

  texts-snoc : (xs : List A) (x : A) → texts (xs ++ x ∷ []) ≡ texts xs + texts_of x
  unfolding texts
  texts-snoc [] x = omega arith
  texts-snoc (y ∷ ys) x = omega (arith, texts-snoc ys x)

module _ {A : Type 0} (IsAt : ℕ → A → Type 0) (texts_of : A → ℕ) where
  -- What was read up to `upto`, and the texts that are held for it.
  unfoldable pub ReadUpto : ℕ → List A → Env → (ParseJsonResult × List A) × Env → Type 0
  ReadUpto upto pushed e ((result, pushed'), e') =
      ReadFrom IsAt 0 pushed'
      × (is_success result ≡ true → length pushed' ≡ upto)
      × (e'.json_texts + texts texts_of pushed ≡ e.json_texts + texts texts_of pushed')
      × Kept e e'

  -- An element is pushed with its text held.
  pub snoc-ReadUpto :
      (index : ℕ) (pushed : List A) (x : A) (e e' : Env)
      → ReadFrom IsAt 0 pushed
      → length pushed ≡ index
      → IsAt index x
      → e'.json_texts ≡ e.json_texts + texts_of x
      → Kept e e'
      → ReadUpto (suc index) pushed e ((parse_json_success, pushed ++ x ∷ []), e')
  unfolding ReadUpto
  snoc-ReadUpto index pushed x e e' r len at held same = (
    ReadFrom-snoc IsAt 0 pushed x r (subst (λ i. IsAt i x) (omega arith) at),
    (λ done. omega (arith, length-append pushed (x ∷ []))),
    omega (arith, texts-snoc texts_of pushed x),
    same,
  )

  go_on-ReadUpto :
      (index upto : ℕ) (pushed : List A) (e : Env) (next : List A → Loop A)
      → ((pushed' : List A) (e' : Env)
          → ReadFrom IsAt 0 pushed'
          → length pushed' ≡ index
          → ReadUpto upto pushed' e' (next pushed' e'))
      → (r : (ParseJsonResult × List A) × Env) → ReadUpto index pushed e r
      → ReadUpto upto pushed e (go_on_parse r.0 next r.1)
  unfolding go_on_parse ReadUpto
  go_on-ReadUpto index upto pushed e next reads r (from, len, held, same) =
      elim (Bool-cases (is_success r.0.0)) [
        | inr stopped ↦ rw (stopped, go_on_parse) (from, (λ x. absurd (ground arith)), held, same)
        | inl going ↦
            let (from', len', held', same') = reads r.0.1 r.1 from (len going) in
            rw (going, go_on_parse)
              (from', len', omega (arith, held, held'), kept-trans _ _ _ same same')
      ]

  module _ (read : ℕ → List A → Loop A)
      (reads : (index : ℕ) (pushed : List A) (e : Env)
        → ReadFrom IsAt 0 pushed
        → length pushed ≡ index
        → ReadUpto (suc index) pushed e (read index pushed e)) where
    pub read_rest-ReadUpto :
        (left index upto : ℕ) (pushed : List A) (e : Env)
        → ReadFrom IsAt 0 pushed
        → length pushed ≡ index
        → index + left ≡ upto
        → ReadUpto upto pushed e (read_rest read left index pushed e)
    unfolding read_rest ReadUpto
    read_rest-ReadUpto zero index upto pushed e r len sum =
        (r, (λ x. omega arith), refl, kept refl refl refl refl)
    read_rest-ReadUpto (suc left) index upto pushed e r len sum =
        go_on-ReadUpto (suc index) upto pushed e (read_rest read left (index + 1))
          (λ pushed' e' r' len'.
            read_rest-ReadUpto left (index + 1) upto pushed' e' r' (omega arith) (omega arith))
          (read index pushed e) (reads index pushed e r len)
