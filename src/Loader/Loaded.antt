-- ===== src/Loader/Loaded.antt =====
-- core/src/module_loader.c: what a load leaves, and what the unload gives back.
use azure_iot_gateway_sdk.Base.{
  ℕ, ◌+◌, ◌≡◌, ◌≢◌, refl, inl, inr, Bool, true, false, Bool-cases, Option, some, none, ◌==◌,
  if◌then◌else◌, arith,
}
use azure_iot_gateway_sdk.Gateway.Env.{Env}
use azure_iot_gateway_sdk.Gateway.State.{Name}
use azure_iot_gateway_sdk.Loader.Load.{
  ModuleApis, LibraryHandleData, has_required, no_apis, check_apis, call_get_apis, with_apis,
  with_library, module_loader_load, module_loader_get_module_apis, module_loader_unload,
}

-- Nothing else than what `libraries` and `memory` more say is held beside what was.
pub record Beside (libraries memory : ℕ) (e e' : Env) : Type 0 where
  pub libraries_eq : e'.libraries ≡ e.libraries + libraries
  pub memory_eq : e'.world.memory ≡ e.world.memory + memory
  pub instances_eq : e'.instances ≡ e.instances
  pub vectors_eq : e'.vectors ≡ e.vectors

has_required-there :
    (apis : ModuleApis)
    → has_required apis ≡ true
    → (apis.module_create ≢ 0) × (apis.module_destroy ≢ 0) × (apis.module_receive ≢ 0)
unfolding has_required
has_required-there apis h = ground arith

beside :
    {libraries memory : ℕ} {e e' : Env}
    → e'.libraries ≡ e.libraries + libraries
    → e'.world.memory ≡ e.world.memory + memory
    → e'.instances ≡ e.instances
    → e'.vectors ≡ e.vectors
    → Beside libraries memory e e'
beside libs mem insts vecs = record {
  libraries_eq = libs;
  memory_eq = mem;
  instances_eq = insts;
  vectors_eq = vecs;
}

module _ (get_apis : ℕ → ModuleApis → ModuleApis) (e : Env) where
  -- The functions are those that the library sets, and the three that every module has are there.
  pub record Usable (loader_data : LibraryHandleData) : Type 0 where
    pub library_there : loader_data.library ≢ 0
    pub apis_eq :
        module_loader_get_module_apis (some loader_data)
        ≡ some (get_apis loader_data.library no_apis)
    pub create_there : loader_data.apis.module_create ≢ 0
    pub destroy_there : loader_data.apis.module_destroy ≢ 0
    pub receive_there : loader_data.apis.module_receive ≢ 0

  unfoldable pub Loaded : Option LibraryHandleData × Env → Type 0
  Loaded (none, e') = Beside 0 0 e e'
  Loaded (some loader_data, e') =
      Usable loader_data
      × Beside 1 2 e e'
      × Beside 0 0 e (module_loader_unload (some loader_data) e').1

  check_apis-Loaded :
      (library : ℕ) (e' : Env)
      → library ≢ 0
      → Beside 1 2 e e'
      → Loaded (check_apis get_apis library (get_apis library no_apis) e')
  unfolding check_apis has_required module_loader_unload module_loader_get_module_apis Loaded
  check_apis-Loaded library e' there h =
      elim (Bool-cases (has_required (get_apis library no_apis))) [
        | inr unusable ↦
            rw (unusable, check_apis)
              (beside (omega (arith, h.libraries_eq)) (omega (arith, h.memory_eq)) h.instances_eq
                h.vectors_eq)
        | inl usable ↦
            let (create, destroy, receive) = has_required-there (get_apis library no_apis) usable in
            rw (usable, check_apis)
              (
                record {
                  library_there = there;
                  apis_eq = refl;
                  create_there = create;
                  destroy_there = destroy;
                  receive_there = receive;
                },
                h,
                beside (omega (arith, h.libraries_eq)) (omega (arith, h.memory_eq)) h.instances_eq
                    h.vectors_eq,
              )
      ]

  call_get_apis-Loaded :
      (library : ℕ) (found : Bool) (e' : Env)
      → library ≢ 0
      → Beside 1 2 e e'
      → Loaded (call_get_apis get_apis library found e')
  unfolding call_get_apis Loaded
  call_get_apis-Loaded library true e' there h = check_apis-Loaded library e' there h
  call_get_apis-Loaded library false e' there h =
      beside (omega (arith, h.libraries_eq)) (omega (arith, h.memory_eq)) h.instances_eq
        h.vectors_eq

  with_apis-Loaded :
      (library : ℕ) (allocated : Bool) (e' : Env)
      → library ≢ 0
      → Beside 1 (if allocated then 2 else 1) e e'
      → Loaded (with_apis get_apis library allocated e')
  unfolding with_apis Loaded
  with_apis-Loaded library true e' there h =
      call_get_apis-Loaded library _ _ there
        (beside h.libraries_eq h.memory_eq h.instances_eq h.vectors_eq)
  with_apis-Loaded library false e' there h =
      beside (omega (arith, h.libraries_eq)) (omega (arith, h.memory_eq)) h.instances_eq
        h.vectors_eq

  with_library-Loaded :
      (library : ℕ) (e' : Env)
      → Beside (if library == 0 then 0 else 1) 1 e e'
      → Loaded (with_library get_apis library e')
  unfolding with_library Loaded
  with_library-Loaded library e' h = elim (Bool-cases (library == 0)) [
    | inl missing ↦
        rw (missing, with_library)
          (beside (ground arith) (omega (arith, h.memory_eq)) h.instances_eq h.vectors_eq)
    | inr there ↦
        rw (there, with_library)
          (with_apis-Loaded library _ _ (λ zero. ground arith)
            (beside (ground arith) (ground arith) h.instances_eq h.vectors_eq))
  ]

  -- Whichever calls fail, and whatever the library sets, ModuleLoader_Load returns NULL with nothing
  -- more held than before; or a handle of a library that is there, whose table is what the library's
  -- Module_GetAPIS made of an empty one and has the three functions that every module needs, and then
  -- one library and two blocks of memory are held, which ModuleLoader_Unload gives back.
  pub module_loader_load-Loaded : (name : Option Name) → Loaded (module_loader_load get_apis name e)
  unfolding module_loader_load Loaded
  module_loader_load-Loaded none = beside (omega arith) (omega arith) refl refl
  module_loader_load-Loaded (some name) = elim (Bool-cases (e.world.oracle e.world.calls)) [
    | inr failed ↦ rw (failed, module_loader_load) (beside (omega arith) (omega arith) refl refl)
    | inl allocated ↦
        rw (allocated, module_loader_load)
          (with_library-Loaded _ _
            (beside (ground arith) (ground arith) (ground arith) (ground arith)))
  ]
