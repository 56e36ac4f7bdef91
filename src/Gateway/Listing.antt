-- ===== src/Gateway/Listing.antt =====
-- Gateway_LL_GetModuleList (core/src/gateway_ll.c) as a whole.
use azure_iot_gateway_sdk.Base.{
  ℕ, ◌+◌, ◌≡◌, refl, sym, ap, ◌∙◌, inl, inr, Bool, true, false, Option, some, none, List, [], ◌∷◌,
  map, append-nil, length, All, ltb, Bool-cases, Option-cases, arith,
}
use azure_iot_gateway_sdk.Base.Outcome.{Outcome, ok, fault}
use azure_iot_gateway_sdk.Gateway.Env.{Env, G}
use azure_iot_gateway_sdk.Gateway.State.{Name, ModuleData, Link, Gateway}
use azure_iot_gateway_sdk.Gateway.ModuleList.{
  GatewayModuleInfo, add_info, create_infos, Pass, link_info, go_on_pass, link_infos, leave_list,
  leave_pass, fill_list, resize_list, gateway_ll_get_module_list,
}
use azure_iot_gateway_sdk.Gateway.Search.{AreDistinct}
use azure_iot_gateway_sdk.Gateway.LinkEffects.{LinkEnds}
use azure_iot_gateway_sdk.Gateway.Catalog.{WellFormed}
use azure_iot_gateway_sdk.Gateway.Sources.{
  sources_of, entry, States, step, join, join-step, map-entry, PassTo, link_info-PassTo,
}

module _ (ms : List ModuleData) (distinct : AreDistinct ms) where
  abbrev pub after : States → List Link → States
  after st ls n = join (st n) (sources_of ls n)

  go_on_pass-PassTo :
      (st1 st2 : States) (r : Pass × Env) (next : List GatewayModuleInfo → G Pass)
      → PassTo st1 ms r
      → ((e : Env) → PassTo st2 ms (next (map (entry st1) ms) e))
      → PassTo st2 ms (go_on_pass r.0 next r.1)
  unfolding go_on_pass
  go_on_pass-PassTo st1 st2 (ok (true, infos), e) next h k = rw h (k e)
  go_on_pass-PassTo st1 st2 (ok (false, infos), e) next h k = tt
  go_on_pass-PassTo st1 st2 (Outcome.fail, e) next h k = absurd h
  go_on_pass-PassTo st1 st2 (fault, e) next h k = absurd h

  restate :
      (st st' : States) (r : Pass × Env)
      → ((n : Name) → st n ≡ st' n)
      → PassTo st ms r
      → PassTo st' ms r
  restate st st' (ok (true, infos), e) same h = h ∙ map-entry st st' ms same
  restate st st' (ok (false, infos), e) same h = tt
  restate st st' (Outcome.fail, e) same h = absurd h
  restate st st' (fault, e) same h = absurd h

  after_nil : (st : States) (n : Name) → st n ≡ after st [] n
  after_nil st n = elim (Option-cases (st n)) [
    | inl e ↦ rw e refl
    | inr (xs, e) ↦ rw e (ap some (sym (append-nil xs)))
  ]

  pub link_infos-PassTo :
      (ls : List Link) (st : States) (e : Env)
      → All (LinkEnds ms) ls
      → PassTo (after st ls) ms (link_infos ls (map (entry st) ms) e)
  unfolding link_infos
  link_infos-PassTo [] st e ends = map-entry st (after st []) ms (after_nil st)
  link_infos-PassTo (l ∷ ls) st e ends =
      let r = link_info l (map (entry st) ms) e in
      go_on_pass-PassTo (step l st) (after st (l ∷ ls)) r (link_infos ls)
        (link_info-PassTo ms distinct l st e ends.0)
        (λ e'.
          restate (after (step l st) ls) (after st (l ∷ ls))
            (link_infos ls (map (entry (step l st)) ms) e') (join-step l ls st)
            (link_infos-PassTo ls (step l st) e' ends.1))

abbrev pub InfosFor : List ModuleData → (Bool × List GatewayModuleInfo) × Env → Type 0
InfosFor ms ((true, infos), e) = infos ≡ map (entry (λ n. some [])) ms
InfosFor ms ((false, infos), e) = Unit {0}

add_info-InfosFor :
    (created : Bool) (d : ModuleData) (ds : List ModuleData)
    (next : G (Bool × List GatewayModuleInfo)) (e : Env)
    → InfosFor ds (next e)
    → InfosFor (d ∷ ds) (add_info created d next e)
unfolding add_info
add_info-InfosFor false d ds next e h = tt
add_info-InfosFor true d ds next e h = one_more (next e) h
  where
    one_more :
        (r : (Bool × List GatewayModuleInfo) × Env)
        → InfosFor ds r
        → InfosFor (d ∷ ds) ((r.0.0, entry (λ n. some []) d ∷ r.0.1), r.1)
    one_more ((true, infos), e') h' = ap (◌∷◌ (entry (λ n. some []) d)) h'
    one_more ((false, infos), e') h' = tt

pub create_infos-InfosFor : (ds : List ModuleData) (e : Env) → InfosFor ds (create_infos ds e)
unfolding create_infos
create_infos-InfosFor [] e = refl
create_infos-InfosFor (d ∷ ds) e =
    add_info-InfosFor _ d ds (create_infos ds) _ (create_infos-InfosFor ds _)

-- NULL, or a list with each module and the sources of its links.
abbrev pub Lists : Gateway → Outcome (Option (List GatewayModuleInfo)) × Env → Type 0
Lists gw (ok none, e) = Unit {0}
Lists gw (ok (some infos), e) = infos ≡ map (entry (sources_of gw.links)) gw.modules
Lists gw (Outcome.fail, e) = ⊥
Lists gw (fault, e) = ⊥

module _ (gw : Gateway) (distinct : AreDistinct gw.modules)
    (ends : All (LinkEnds gw.modules) gw.links) where
  leave_pass-Lists :
      (r : Pass × Env)
      → PassTo (λ n. join (some []) (sources_of gw.links n)) gw.modules r
      → Lists gw (leave_pass r.0 r.1)
  unfolding leave_pass leave_list
  leave_pass-Lists (ok (true, infos), e) h = h ∙ map-entry _ (sources_of gw.links) gw.modules same
    where
      same : (n : Name) → join (some []) (sources_of gw.links n) ≡ sources_of gw.links n
      same n = elim (Option-cases (sources_of gw.links n)) [
        | inl e' ↦ rw e' refl
        | inr (xs, e') ↦ rw e' refl
      ]
  leave_pass-Lists (ok (false, infos), e) h = tt
  leave_pass-Lists (Outcome.fail, e) h = absurd h
  leave_pass-Lists (fault, e) h = absurd h

  fill_list-Lists :
      (r : (Bool × List GatewayModuleInfo) × Env)
      → InfosFor gw.modules r
      → Lists gw (fill_list r.0.0 r.0.1 gw.links r.1)
  unfolding fill_list leave_list
  fill_list-Lists ((false, infos), e) h = tt
  fill_list-Lists ((true, infos), e) h =
      leave_pass-Lists (link_infos gw.links infos e)
        (rw h (link_infos-PassTo gw.modules distinct gw.links (λ n. some []) e ends))

  resize_list-Lists : (e : Env) → Lists gw (resize_list gw e)
  unfolding resize_list
  resize_list-Lists e = elim (Bool-cases (e.world.oracle e.world.calls)) [
    | inr failed ↦ rw (failed, resize_list) tt
    | inl resized ↦
        rw (resized, resize_list)
          (elim (Bool-cases (e.world.oracle (e.world.calls + 1))) [
            | inr failed ↦ rw (failed, resize_list) tt
            | inl pushed ↦
                rw (pushed, resize_list)
                  (fill_list-Lists (create_infos gw.modules _) (create_infos-InfosFor gw.modules _))
          ])
  ]

-- For a well-formed gateway Gateway_LL_GetModuleList runs into no failing `assert`, and returns
-- NULL or a list with the modules in their order, each with its name and its sources: NULL where a
-- link comes from any source, and else the names of the sources of its links, in the order of the
-- links.
pub gateway_ll_get_module_list-Lists :
    (libraries instances : ℕ) (gw : Gateway) (e : Env)
    → WellFormed libraries instances gw e
    → Lists gw (gateway_ll_get_module_list (some gw) e)
unfolding gateway_ll_get_module_list
gateway_ll_get_module_list-Lists libraries instances gw e wf =
    elim (Bool-cases (e.world.oracle e.world.calls)) [
      | inr failed ↦ rw (failed, gateway_ll_get_module_list) tt
      | inl created ↦
          rw (created, gateway_ll_get_module_list)
            (elim (Bool-cases (ltb 0 (length gw.modules))) [
              | inl some_there ↦
                  rw (some_there, gateway_ll_get_module_list)
                    (resize_list-Lists gw wf.distinct wf.ends _)
              | inr none_there ↦
                  rw (none_there, gateway_ll_get_module_list) (no_modules gw.modules none_there)
            ])
    ]
  where
    no_modules :
        (ms : List ModuleData)
        → ltb 0 (length ms) ≡ false
        → [] ≡ map (entry (sources_of gw.links)) ms
    no_modules [] h = refl
    no_modules (m ∷ ms) h = ground arith
