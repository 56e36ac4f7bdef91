-- ===== src/Gateway/Mixed.antt =====
-- Gateway_LL_GetModuleList (core/src/gateway_ll.c) where a sink has a link from any source and a link
-- from one source behind it.
use azure_iot_gateway_sdk.Base.{
  ℕ, ◌+◌, ◌≡◌, ◌≢◌, refl, sym, ap, ◌∙◌, subst, inl, inr, Bool, true, false, Option, some, none,
  List, [], ◌∷◌, ◌++◌, map, length, All, Among, ltb, Bool-cases, arith,
}
use azure_iot_gateway_sdk.Base.Outcome.{Outcome, ok, fault}
use azure_iot_gateway_sdk.Gateway.Env.{Env, G}
use azure_iot_gateway_sdk.Gateway.State.{
  Name, ModuleData, Link, from_any, from_one, Gateway, strcmp_eq,
}
use azure_iot_gateway_sdk.Gateway.ModuleList.{
  GatewayModuleInfo, push_source, create_infos, Pass, link_one, link_info, go_on_pass, link_infos,
  leave_list, leave_pass, fill_list, resize_list, gateway_ll_get_module_list,
}
use azure_iot_gateway_sdk.Gateway.Search.{strcmp_eq→eq, strcmp_eq_refl, AreDistinct}
use azure_iot_gateway_sdk.Gateway.LinkEffects.{LinkEnds}
use azure_iot_gateway_sdk.Gateway.Catalog.{WellFormed}
use azure_iot_gateway_sdk.Gateway.Sources.{
  entry, States, step, find_entry, PassTo, link_info-PassTo,
}
use azure_iot_gateway_sdk.Gateway.Listing.{
  InfosFor, create_infos-InfosFor, after, link_infos-PassTo,
}

-- The states before each link have sources to which a link from one source can add its own.
abbrev Opens : States → List Link → Type 0
Opens st [] = Unit {0}
Opens st (from_any sink ∷ ls) = Opens (step (from_any sink) st) ls
Opens st (from_one source sink ∷ ls) =
    (st sink.module_name ≢ none) × Opens (step (from_one source sink) st) ls

step-none : (l : Link) (st : States) (n : Name) → st n ≡ none → step l st n ≡ none
step-none (from_any sink) st n h = elim (Bool-cases (strcmp_eq n sink.module_name)) [
  | inl hit ↦ rw hit refl
  | inr miss ↦ rw miss h
]
step-none (from_one source sink) st n h = elim (Bool-cases (strcmp_eq n sink.module_name)) [
  | inl hit ↦
      let same = strcmp_eq→eq n sink.module_name hit in
      let closed : st sink.module_name ≡ none = ap st (sym same) ∙ h in rw (hit, closed) refl
  | inr miss ↦ rw miss h
]

not_open :
    (mid back : List Link) (source sink : ModuleData) (st : States)
    → st sink.module_name ≡ none
    → Opens st (mid ++ from_one source sink ∷ back)
    → ⊥
not_open [] back source sink st h opens = opens.0 h
not_open (from_any k ∷ mid) back source sink st h opens =
    not_open mid back source sink _ (step-none (from_any k) st sink.module_name h) opens
not_open (from_one s k ∷ mid) back source sink st h opens =
    not_open mid back source sink _ (step-none (from_one s k) st sink.module_name h) opens.1

not_open_behind :
    (front mid back : List Link) (any source sink : ModuleData) (st : States)
    → sink.module_name ≡ any.module_name
    → Opens st (front ++ from_any any ∷ (mid ++ from_one source sink ∷ back))
    → ⊥
not_open_behind [] mid back any source sink st same opens =
    not_open mid back source sink (step (from_any any) st) closed opens
  where
    closed : step (from_any any) st sink.module_name ≡ none
    closed = rw (same, strcmp_eq_refl any.module_name) refl
not_open_behind (from_any k ∷ front) mid back any source sink st same opens =
    not_open_behind front mid back any source sink _ same opens
not_open_behind (from_one s k ∷ front) mid back any source sink st same opens =
    not_open_behind front mid back any source sink _ same opens.1

-- A link that was taken in had open sources, and so had all links of a pass that went to its end.
abbrev HeadOpen : States → Link → Pass × Env → Type 0
HeadOpen st (from_any sink) r = Unit {0}
HeadOpen st (from_one source sink) (ok (true, infos), e) = st sink.module_name ≢ none
HeadOpen st (from_one source sink) (ok (false, infos), e) = Unit {0}
HeadOpen st (from_one source sink) (Outcome.fail, e) = Unit {0}
HeadOpen st (from_one source sink) (fault, e) = Unit {0}

abbrev OpenIf : States → List Link → Pass × Env → Type 0
OpenIf st ls (ok (true, infos), e) = Opens st ls
OpenIf st ls (ok (false, infos), e) = Unit {0}
OpenIf st ls (Outcome.fail, e) = Unit {0}
OpenIf st ls (fault, e) = Unit {0}

one_more :
    (st : States) (l : Link) (ls : List Link) (infos : List GatewayModuleInfo) (e : Env)
    (r : Pass × Env)
    → HeadOpen st l (ok (true, infos), e)
    → OpenIf (step l st) ls r
    → OpenIf st (l ∷ ls) r
one_more st (from_any sink) ls infos e (ok (true, infos'), e') h more = more
one_more st (from_one source sink) ls infos e (ok (true, infos'), e') h more = (h, more)
one_more st l ls infos e (ok (false, infos'), e') h more = tt
one_more st l ls infos e (Outcome.fail, e') h more = tt
one_more st l ls infos e (fault, e') h more = tt

push_source-HeadOpen :
    (source : Name) (sink m : ModuleData) (sources : Option (List Name)) (st : States)
    (infos : List GatewayModuleInfo) (e : Env)
    → sources ≡ st sink.module_name
    → let r = push_source source sink.module_name sources infos e in
      HeadOpen st (from_one m sink) (ok r.0, r.1)
unfolding push_source
push_source-HeadOpen source sink m none st infos e same = tt
push_source-HeadOpen source sink m (some sources) st infos e same =
    elim (Bool-cases (e.world.oracle e.world.calls)) [
      | inl pushed ↦ rw pushed (λ closed. some_not_none (same ∙ closed))
      | inr failed ↦ rw failed tt
    ]
  where
    some_not_none : some sources ≡ none → ⊥
    some_not_none x = ground arith

module _ (ms : List ModuleData) (distinct : AreDistinct ms) where
  link_info-HeadOpen :
      (l : Link) (st : States) (e : Env)
      → LinkEnds ms l
      → HeadOpen st l (link_info l (map (entry st) ms) e)
  unfolding link_info link_one
  link_info-HeadOpen (from_any sink) st e a = tt
  link_info-HeadOpen (from_one source sink) st e (a, b) =
      let (info, found, _, sources) = find_entry st ms sink b in
      let (src, found', named, _) = find_entry st ms source a in
      rw (found, found', link_info)
        (push_source-HeadOpen src.module_name sink source info.module_sources st (map (entry st) ms)
          e sources)

  go_on_pass-OpenIf :
      (l : Link) (ls : List Link) (st : States) (r : Pass × Env)
      (next : List GatewayModuleInfo → G Pass)
      → PassTo (step l st) ms r
      → HeadOpen st l r
      → ((e : Env) → OpenIf (step l st) ls (next (map (entry (step l st)) ms) e))
      → OpenIf st (l ∷ ls) (go_on_pass r.0 next r.1)
  unfolding go_on_pass
  go_on_pass-OpenIf l ls st (ok (true, infos), e) next h head k =
      one_more st l ls infos e (next infos e) head (rw h (k e))
  go_on_pass-OpenIf l ls st (ok (false, infos), e) next h head k = tt
  go_on_pass-OpenIf l ls st (Outcome.fail, e) next h head k = tt
  go_on_pass-OpenIf l ls st (fault, e) next h head k = tt

  link_infos-OpenIf :
      (ls : List Link) (st : States) (e : Env)
      → All (LinkEnds ms) ls
      → OpenIf st ls (link_infos ls (map (entry st) ms) e)
  unfolding link_infos
  link_infos-OpenIf [] st e ends = tt
  link_infos-OpenIf (l ∷ ls) st e ends =
      go_on_pass-OpenIf l ls st (link_info l (map (entry st) ms) e) (link_infos ls)
        (link_info-PassTo ms distinct l st e ends.0) (link_info-HeadOpen l st e ends.0)
        (λ e'. link_infos-OpenIf ls (step l st) e' ends.1)

leave_pass-none :
    (st st' : States) (ms : List ModuleData) (ls : List Link) (r : Pass × Env)
    → PassTo st' ms r
    → OpenIf st ls r
    → (Opens st ls → ⊥)
    → (leave_pass r.0 r.1).0 ≡ ok none
unfolding leave_pass leave_list
leave_pass-none st st' ms ls (ok (true, infos), e) h opens closed = absurd (closed opens)
leave_pass-none st st' ms ls (ok (false, infos), e) h opens closed = refl
leave_pass-none st st' ms ls (Outcome.fail, e) h opens closed = absurd h
leave_pass-none st st' ms ls (fault, e) h opens closed = absurd h

module _ (gw : Gateway) (distinct : AreDistinct gw.modules)
    (ends : All (LinkEnds gw.modules) gw.links) (closed : Opens (λ n. some []) gw.links → ⊥) where
  fill_list-none :
      (r : (Bool × List GatewayModuleInfo) × Env)
      → InfosFor gw.modules r
      → (fill_list r.0.0 r.0.1 gw.links r.1).0 ≡ ok none
  unfolding fill_list leave_list
  fill_list-none ((false, infos), e) h = refl
  fill_list-none ((true, infos), e) h = rw h (
      leave_pass-none (λ n. some []) (after gw.modules distinct (λ n. some []) gw.links) gw.modules
        gw.links (link_infos gw.links (map (entry (λ n. some [])) gw.modules) e)
        (link_infos-PassTo gw.modules distinct gw.links (λ n. some []) e ends)
        (link_infos-OpenIf gw.modules distinct gw.links (λ n. some []) e ends) closed)

  resize_list-none : (e : Env) → (resize_list gw e).0 ≡ ok none
  unfolding resize_list
  resize_list-none e = elim (Bool-cases (e.world.oracle e.world.calls)) [
    | inr failed ↦ rw (failed, resize_list) refl
    | inl resized ↦
        rw (resized, resize_list)
          (elim (Bool-cases (e.world.oracle (e.world.calls + 1))) [
            | inr failed ↦ rw (failed, resize_list) refl
            | inl pushed ↦
                rw (pushed, resize_list)
                  (fill_list-none (create_infos gw.modules _) (create_infos-InfosFor gw.modules _))
          ])
  ]

sink-Among :
    (ms : List ModuleData) (front back : List Link) (any : ModuleData)
    → All (LinkEnds ms) (front ++ from_any any ∷ back)
    → Among any ms
sink-Among ms [] back any ends = ends.0
sink-Among ms (l ∷ front) back any ends = sink-Among ms front back any ends.1

not_empty : (ms : List ModuleData) (m : ModuleData) → Among m ms → ltb 0 (length ms) ≡ true
not_empty [] m a = absurd a
not_empty (x ∷ xs) m a = ground arith

-- Where a well-formed gateway has a link from any source to a sink and behind it a link from one
-- source to the same sink, Gateway_LL_GetModuleList returns NULL, also if every platform call
-- succeeds.
pub gateway_ll_get_module_list-none :
    (libraries instances : ℕ) (gw : Gateway) (e : Env) (front mid back : List Link)
    (any source sink : ModuleData)
    → WellFormed libraries instances gw e
    → gw.links ≡ front ++ from_any any ∷ (mid ++ from_one source sink ∷ back)
    → sink.module_name ≡ any.module_name
    → (gateway_ll_get_module_list (some gw) e).0 ≡ ok none
unfolding gateway_ll_get_module_list
gateway_ll_get_module_list-none libraries instances gw e front mid back any source sink wf mixed
      same =
    elim (Bool-cases (e.world.oracle e.world.calls)) [
      | inr failed ↦ rw (failed, gateway_ll_get_module_list) refl
      | inl created ↦
          rw (created, gateway_ll_get_module_list)
            (rw (not_empty gw.modules any among, gateway_ll_get_module_list)
              (resize_list-none gw wf.distinct wf.ends closed _))
    ]
  where
    among : Among any gw.modules
    among =
        sink-Among gw.modules front (mid ++ from_one source sink ∷ back) any
          (subst (All (LinkEnds gw.modules)) mixed wf.ends)

    closed : Opens (λ n. some []) gw.links → ⊥
    closed opens =
        not_open_behind front mid back any source sink (λ n. some []) same
          (subst (Opens (λ n. some [])) mixed opens)
