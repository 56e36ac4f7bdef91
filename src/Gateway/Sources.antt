-- ===== src/Gateway/Sources.antt =====
-- What Gateway_LL_GetModuleList (core/src/gateway_ll.c) lists: every module with the sources of its links.
use azure_iot_gateway_sdk.Base.{
  ◌≡◌, refl, sym, ap, ◌∙◌, inl, inr, true, false, Option, some, none, List, [], ◌∷◌, ◌++◌, map,
  append_assoc, All, Among, if◌then◌else◌, Bool-cases, arith,
}
use azure_iot_gateway_sdk.Base.Outcome.{Outcome, ok, fault}
use azure_iot_gateway_sdk.Gateway.Env.{Env}
use azure_iot_gateway_sdk.Gateway.State.{
  Name, ModuleData, Link, from_any, from_one, strcmp_eq, find_if,
}
use azure_iot_gateway_sdk.Gateway.ModuleList.{
  GatewayModuleInfo, module_info_name_find, set_sources, push_source, Pass, link_any, link_one,
  link_info,
}
use azure_iot_gateway_sdk.Gateway.Search.{strcmp_eq→eq, strcmp_eq_refl, AreDistinct}
use azure_iot_gateway_sdk.Gateway.LinkEffects.{LinkEnds}

-- The sources of a module: none is listed where a link comes from any source, else the sources of its
-- links in their order.
abbrev cons_source : Name → Option (List Name) → Option (List Name)
cons_source source none = none
cons_source source (some sources) = some (source ∷ sources)

abbrev pub sources_of : List Link → Name → Option (List Name)
sources_of [] name = some []
sources_of (from_any sink ∷ links) name =
    if strcmp_eq name sink.module_name then none else sources_of links name
sources_of (from_one source sink ∷ links) name =
    if strcmp_eq name sink.module_name
    then cons_source source.module_name (sources_of links name)
    else sources_of links name

-- The list after some links, where `st` is the sources of each name.
abbrev pub States : Type 0
States = Name → Option (List Name)

abbrev pub entry : States → ModuleData → GatewayModuleInfo
entry st d = record { module_name = d.module_name; module_sources = st d.module_name }

abbrev set_state : Name → Option (List Name) → States → States
set_state name v st x = if strcmp_eq x name then v else st x

entry_others :
    (n : Name) (v : Option (List Name)) (st : States) (m : ModuleData) (ms : List ModuleData)
    → m.module_name ≡ n
    → All (λ (m' : ModuleData). strcmp_eq m.module_name m'.module_name ≡ false) ms
    → map (entry (set_state n v st)) ms ≡ map (entry st) ms
entry_others n v st m [] same others = refl
entry_others n v st m (m' ∷ ms) same (differs, others) =
    elim (Bool-cases (strcmp_eq m'.module_name n)) [
      | inl hit ↦
          let equal : m.module_name ≡ m'.module_name =
            same ∙ sym (strcmp_eq→eq m'.module_name n hit) in
          absurd (
            true_ne_false
              (sym (strcmp_eq_refl m.module_name) ∙ ap (strcmp_eq m.module_name) equal ∙ differs))
      | inr miss ↦
          let here : entry (set_state n v st) m' ≡ entry st m' = rw miss refl in
          let later = entry_others n v st m ms same others in cc
    ]
  where
    true_ne_false : true ≡ false → ⊥
    true_ne_false x = ground arith

set_sources-entry :
    (n : Name) (v : Option (List Name)) (st : States) (ms : List ModuleData)
    → AreDistinct ms
    → set_sources n v (map (entry st) ms) ≡ map (entry (set_state n v st)) ms
unfolding set_sources module_info_name_find
set_sources-entry n v st [] distinct = refl
set_sources-entry n v st (m ∷ ms) (others, distinct) =
    elim (Bool-cases (strcmp_eq m.module_name n)) [
      | inl hit ↦ rw hit (
          ap (◌∷◌ (record { module_name = m.module_name; module_sources = v }))
            (sym (entry_others n v st m ms (strcmp_eq→eq m.module_name n hit) others)))
      | inr miss ↦ rw miss (ap (◌∷◌ (entry st m)) (set_sources-entry n v st ms distinct))
    ]

pub find_entry :
    (st : States) (ms : List ModuleData) (d : ModuleData)
    → Among d ms
    → (info : GatewayModuleInfo) × (find_if
          (module_info_name_find d.module_name)
          (map (entry st) ms)
        ≡ some info)
      × (info.module_name ≡ d.module_name)
      × (info.module_sources ≡ st d.module_name)
unfolding find_if module_info_name_find
find_entry st [] d a = absurd a
find_entry st (m ∷ ms) d a = elim (Bool-cases (strcmp_eq m.module_name d.module_name)) [
  | inl hit ↦
      let same = strcmp_eq→eq m.module_name d.module_name hit in
      (entry st m, rw hit refl, same, ap st same)
  | inr miss ↦ elim a [
    | inl here ↦ absurd (
        true_ne_false (
          sym (strcmp_eq_refl d.module_name)
          ∙ ap (λ (x : ModuleData). strcmp_eq x.module_name d.module_name) here
          ∙ miss))
    | inr later ↦
        let (info, found, named, sources) = find_entry st ms d later in
        (info, rw miss found, named, sources)
  ]
]
  where
    true_ne_false : true ≡ false → ⊥
    true_ne_false x = ground arith

abbrev snoc_source : Name → Option (List Name) → Option (List Name)
snoc_source source none = none
snoc_source source (some sources) = some (sources ++ source ∷ [])

abbrev pub step : Link → States → States
step (from_any sink) st = set_state sink.module_name none st
step (from_one source sink) st =
    set_state sink.module_name (snoc_source source.module_name (st sink.module_name)) st

abbrev pub join : Option (List Name) → Option (List Name) → Option (List Name)
join none back = none
join (some front) none = none
join (some front) (some back) = some (front ++ back)

join-snoc_source :
    (source : Name) (front back : Option (List Name))
    → join (snoc_source source front) back ≡ join front (cons_source source back)
join-snoc_source source none back = refl
join-snoc_source source (some front) none = refl
join-snoc_source source (some front) (some back) = ap some (append_assoc front (source ∷ []) back)

join-none : (front : Option (List Name)) → join front none ≡ none
join-none none = refl
join-none (some front) = refl

-- A pass over the rest from the state after a link is one over the link and the rest.
pub join-step :
    (l : Link) (ls : List Link) (st : States) (n : Name)
    → join (step l st n) (sources_of ls n) ≡ join (st n) (sources_of (l ∷ ls) n)
join-step (from_any sink) ls st n = elim (Bool-cases (strcmp_eq n sink.module_name)) [
  | inl hit ↦ rw hit (sym (join-none (st n)))
  | inr miss ↦ rw miss refl
]
join-step (from_one source sink) ls st n = elim (Bool-cases (strcmp_eq n sink.module_name)) [
  | inl hit ↦
      let same = strcmp_eq→eq n sink.module_name hit in
      rw hit (
        ap (λ (x : Name). join (snoc_source source.module_name (st x)) (sources_of ls n)) (sym same)
        ∙ join-snoc_source source.module_name (st n) (sources_of ls n))
  | inr miss ↦ rw miss refl
]

pub map-entry :
    (st st' : States) (ms : List ModuleData)
    → ((n : Name) → st n ≡ st' n)
    → map (entry st) ms ≡ map (entry st') ms
map-entry st st' [] same = refl
map-entry st st' (m ∷ ms) same =
    let here = same m.module_name in let later = map-entry st st' ms same in cc

-- A pass that goes on has the list for `st`; none is undefined.
abbrev pub PassTo : States → List ModuleData → Pass × Env → Type 0
PassTo st ms (ok (true, infos), e) = infos ≡ map (entry st) ms
PassTo st ms (ok (false, infos), e) = Unit {0}
PassTo st ms (Outcome.fail, e) = ⊥
PassTo st ms (fault, e) = ⊥

module _ (ms : List ModuleData) (distinct : AreDistinct ms) where
  push_source-PassTo :
      (source : Name) (sink : ModuleData) (sources : Option (List Name)) (st : States) (e : Env)
      → sources ≡ st sink.module_name
      → let r = push_source source sink.module_name sources (map (entry st) ms) e in
        PassTo
          (set_state sink.module_name (snoc_source source (st sink.module_name)) st)
          ms
          (ok r.0, r.1)
  unfolding push_source
  push_source-PassTo source sink none st e same = tt
  push_source-PassTo source sink (some sources) st e same =
      elim (Bool-cases (e.world.oracle e.world.calls)) [
        | inl pushed ↦ rw pushed (
            set_sources-entry sink.module_name (some (sources ++ source ∷ [])) st ms distinct
            ∙ ap
                (λ (v : Option (List Name)).
                  map (entry (set_state sink.module_name (snoc_source source v) st)) ms)
                same)
        | inr failed ↦ rw failed tt
      ]

  pub link_info-PassTo :
      (l : Link) (st : States) (e : Env)
      → LinkEnds ms l
      → PassTo (step l st) ms (link_info l (map (entry st) ms) e)
  unfolding link_info link_any link_one
  link_info-PassTo (from_any sink) st e a =
      let (info, found, _, _) = find_entry st ms sink a in
      rw (found, link_info) (set_sources-entry sink.module_name none st ms distinct)
  link_info-PassTo (from_one source sink) st e (a, b) =
      let (info, found, _, sources) = find_entry st ms sink b in
      let (src, found', named, _) = find_entry st ms source a in
      rw (found, found', link_info, named)
        (push_source-PassTo source.module_name sink info.module_sources st e sources)
