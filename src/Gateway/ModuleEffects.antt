-- ===== src/Gateway/ModuleEffects.antt =====
-- What adding a module does to the vectors of core/src/gateway_ll.c, on every path.
use azure_iot_gateway_sdk.Base.{
  ℕ, ◌+◌, ◌≡◌, ◌≢◌, ◌⊎◌, refl, sym, ap, inl, inr, true, false, Option, some, none, [], ◌∷◌, ◌++◌,
  All, ◌==◌, Bool-cases, Option-cases, arith,
}
use azure_iot_gateway_sdk.Broker.State.{Broker, Module}
use azure_iot_gateway_sdk.Broker.Create.{broker_inc_ref}
use azure_iot_gateway_sdk.Broker.Modules.{broker_add_module}
use azure_iot_gateway_sdk.Gateway.Env.{Env}
use azure_iot_gateway_sdk.Gateway.State.{
  Name, ModuleData, Gateway, gateway_all, strcmp_eq, find_if, module_name_find,
  check_if_module_exists,
}
use azure_iot_gateway_sdk.Gateway.BrokerLinks.{is_ok, add_module_to_any_source}
use azure_iot_gateway_sdk.Gateway.Modules.{
  link_new, store_new, name_new, attach_new, create_new, load_new, gateway_addmodule_internal,
}
use azure_iot_gateway_sdk.Gateway.Search.{find_if-none}
use azure_iot_gateway_sdk.Gateway.LinkEffects.{Same}

-- `libraries` and `instances` are held over what `e` holds.
abbrev pub Holding : ℕ → Env → Env → Type 0
Holding n e e' = (e'.libraries ≡ e.libraries + n) × (e'.instances ≡ e.instances + n)

-- NULL was returned, the vectors are as before and nothing more is held; or the handle of a module
-- that stands at the end of the vector now.
abbrev pub NewModule : Gateway → Name → Env → (ℕ × Gateway) × Env → Type 0
NewModule gw name e ((handle, gw'), e') =
    ((handle ≡ 0) × (gw'.modules ≡ gw.modules) × (gw'.links ≡ gw.links) × Same e e')
    ⊎ ((new : ModuleData) × (handle ≢ 0)
        × (new.module_handle ≡ handle)
        × (new.module_name ≡ name)
        × (gw'.modules ≡ gw.modules ++ new ∷ [])
        × (gw'.links ≡ gw.links)
        × Holding 1 e e')

module _ (gw : Gateway) (m : Module) (new : ModuleData) (e0 : Env)
    (real : new.module_handle ≢ 0) where
  link_new-NewModule :
      (b : Option Broker) (e : Env)
      → Holding 1 e0 e
      → NewModule gw new.module_name e0 (link_new (record gw { broker = b }) m new e)
  unfolding link_new
  link_new-NewModule b e (libs, insts) =
      elim (Bool-cases
        (add_module_to_any_source gw.links (gw.modules ++ new ∷ []) new.module_handle b
          e.world).0.0) [
            | inl done ↦
                rw (done, link_new) (inr (new, real, refl, refl, refl, refl, (libs, insts)))
            | inr failed ↦
                rw (failed, link_new) (inl (refl, refl, refl, (omega arith, omega arith)))
          ]

  store_new-NewModule :
      (b : Option Broker) (e : Env)
      → Holding 1 e0 e
      → NewModule gw new.module_name e0 (store_new (record gw { broker = b }) m new e)
  unfolding store_new
  store_new-NewModule b e (libs, insts) = elim (Bool-cases (e.world.oracle e.world.calls)) [
    | inl pushed ↦ rw (pushed, store_new) (link_new-NewModule (broker_inc_ref b) _ (libs, insts))
    | inr failed ↦ rw (failed, store_new) (inl (refl, refl, refl, (omega arith, omega arith)))
  ]

  name_new-NewModule :
      (b : Option Broker) (e : Env)
      → Holding 1 e0 e
      → NewModule gw new.module_name e0 (name_new (record gw { broker = b }) m new e)
  unfolding name_new
  name_new-NewModule b e (libs, insts) = elim (Bool-cases (e.world.oracle e.world.calls)) [
    | inl copied ↦ rw (copied, name_new) (store_new-NewModule b _ (libs, insts))
    | inr failed ↦ rw (failed, name_new) (inl (refl, refl, refl, (omega arith, omega arith)))
  ]

  attach_new-NewModule :
      (e : Env) → Holding 1 e0 e → NewModule gw new.module_name e0 (attach_new gw m new e)
  unfolding attach_new
  attach_new-NewModule e (libs, insts) =
      let r = broker_add_module gw.broker (some m) e.world in
      elim (Bool-cases (is_ok r.0.0)) [
        | inl attached ↦ rw (attached, attach_new) (name_new-NewModule r.0.1 _ (libs, insts))
        | inr failed ↦ rw (failed, attach_new) (inl (refl, refl, refl, (omega arith, omega arith)))
      ]

create_new-NewModule :
    (gw : Gateway) (library : ℕ) (name : Name) (e0 e : Env)
    → e.libraries ≡ e0.libraries + 1
    → e.instances ≡ e0.instances
    → NewModule gw name e0 (create_new gw library name e)
unfolding create_new
create_new-NewModule gw library name e0 e libs insts =
    elim (Bool-cases (e.handles e.world.calls == 0)) [
      | inl null ↦ rw (null, create_new) (inl (refl, refl, refl, (omega arith, insts)))
      | inr real ↦
          rw (real, create_new)
            (attach_new-NewModule gw _
              (record {
                module_name = name;
                module_library_handle = library;
                module_handle = e.handles e.world.calls;
              })
              e0 (λ z. ground (arith, real)) _ (libs, omega arith))
    ]

load_new-NewModule :
    (gw : Gateway) (name : Name) (e : Env) → NewModule gw name e (load_new gw name e)
unfolding load_new
load_new-NewModule gw name e = elim (Bool-cases (e.world.oracle e.world.calls)) [
  | inr failed ↦ rw (failed, load_new) (inl (refl, refl, refl, (refl, refl)))
  | inl made ↦
      rw (made, load_new)
        (elim (Bool-cases (e.handles (e.world.calls + 1) == 0)) [
          | inl null ↦ rw (null, load_new) (inl (refl, refl, refl, (refl, refl)))
          | inr real ↦ rw (real, load_new) (create_new-NewModule gw _ name e _ refl refl)
        ])
]

-- What gateway_addmodule_internal does for the path and the name that it is given.
abbrev pub ModuleAdded : Gateway → Option Name → Env → (ℕ × Gateway) × Env → Type 0
ModuleAdded gw entry_name e ((handle, gw'), e') =
    ((handle ≡ 0) × (gw'.modules ≡ gw.modules) × (gw'.links ≡ gw.links) × Same e e')
    ⊎ ((new : ModuleData) × (handle ≢ 0)
        × (new.module_handle ≡ handle)
        × (entry_name ≡ some new.module_name)
        × (strcmp_eq new.module_name gateway_all ≡ false)
        × All (λ (d : ModuleData). module_name_find new.module_name d ≡ false) gw.modules
        × (gw'.modules ≡ gw.modules ++ new ∷ [])
        × (gw'.links ≡ gw.links)
        × Holding 1 e e')

not_there :
    (gw : Gateway) (name : Name)
    → check_if_module_exists gw name ≡ false
    → All (λ (d : ModuleData). module_name_find name d ≡ false) gw.modules
unfolding check_if_module_exists
not_there gw name h = elim (Option-cases (find_if (module_name_find name) gw.modules)) [
  | inl e ↦ find_if-none (module_name_find name) gw.modules e
  | inr (d, e) ↦ absurd (true_ne_false (rw (e, check_if_module_exists) at h))
]
  where
    true_ne_false : true ≡ false → ⊥
    true_ne_false x = ground arith

with_name :
    (gw : Gateway) (name : Name) (e : Env) (r : (ℕ × Gateway) × Env)
    → strcmp_eq name gateway_all ≡ false
    → All (λ (d : ModuleData). module_name_find name d ≡ false) gw.modules
    → NewModule gw name e r
    → ModuleAdded gw (some name) e r
with_name gw name e r star fresh (inl kept) = inl kept
with_name gw name e r star fresh (inr (new, real, is_handle, is_name, ms, ls, held)) =
    inr
      (new, real, is_handle, ap some (sym is_name), rw is_name star, rw is_name fresh, ms, ls, held)

-- A module is added only under a name that is not "*" and that no module of the gateway has, and then
-- stands at the end of the gateway's modules with the handle that is returned, and its library and
-- one instance are held. Where NULL is returned, whichever step failed, the modules and the links are
-- as before, and no library and no instance is held more.
pub gateway_addmodule_internal-ModuleAdded :
    (gw : Gateway) (path name : Option Name) (e : Env)
    → ModuleAdded gw name e (gateway_addmodule_internal gw path name e)
unfolding gateway_addmodule_internal
gateway_addmodule_internal-ModuleAdded gw none name e = inl (refl, refl, refl, (refl, refl))
gateway_addmodule_internal-ModuleAdded gw (some path) none e = inl (refl, refl, refl, (refl, refl))
gateway_addmodule_internal-ModuleAdded gw (some path) (some name) e =
    elim (Bool-cases (strcmp_eq name gateway_all)) [
      | inl star ↦ rw (star, gateway_addmodule_internal) (inl (refl, refl, refl, (refl, refl)))
      | inr star ↦
          rw (star, gateway_addmodule_internal)
            (elim (Bool-cases (check_if_module_exists gw name)) [
              | inl there ↦
                  rw (there, gateway_addmodule_internal) (inl (refl, refl, refl, (refl, refl)))
              | inr fresh ↦
                  rw (fresh, gateway_addmodule_internal)
                    (with_name gw name e (load_new gw name e) star (not_there gw name fresh)
                      (load_new-NewModule gw name e))
            ])
    ]
