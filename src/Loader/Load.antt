-- ===== src/Loader/Load.antt =====
-- core/src/module_loader.c: ModuleLoader_Load, ModuleLoader_GetModuleAPIs and ModuleLoader_Unload. The
-- dynamic libraries of the platform, and what their Module_GetAPIS sets, are parameters.
use azure_iot_gateway_sdk.Base.{
  ℕ, ◌+◌, ◌-◌, Bool, true, false, Option, some, none, ◌==◌, if◌then◌else◌,
}
use azure_iot_gateway_sdk.Gateway.Env.{G, pure, ◌>>=◌, ◌>>◌, malloc, free, ask}
use azure_iot_gateway_sdk.Gateway.State.{Name}

-- MODULE_APIS: the addresses of the functions, 0 for NULL.
pub record ModuleApis : Type 0 where
  pub module_create : ℕ
  pub module_destroy : ℕ
  pub module_receive : ℕ
  pub module_start : ℕ

-- MODULE_LIBRARY_HANDLE_DATA
pub record LibraryHandleData : Type 0 where
  pub library : ℕ
  pub apis : ModuleApis

-- The table behind memset.
abbrev pub no_apis : ModuleApis
no_apis = record { module_create = 0; module_destroy = 0; module_receive = 0; module_start = 0 }

unfoldable pub has_required : ModuleApis → Bool
has_required apis =
    if apis.module_create == 0
    then false
    else (if apis.module_destroy == 0
        then false
        else (if apis.module_receive == 0 then false else true))

-- DynamicLibrary_LoadLibrary, which returns an address, and DynamicLibrary_UnloadLibrary.
abbrev load_library : Name → G ℕ
load_library name e =
    let (_, e') = ask e in
    let handle = e.handles e.world.calls in
    (handle, if handle == 0 then e' else record e' { libraries = e'.libraries + 1 })

abbrev unload_library : ℕ → G (Unit {0})
unload_library library e = (tt, record e { libraries = e.libraries - 1 })

-- `get_apis` is the Module_GetAPIS of each library, which writes to the table that it is given.
module _ (get_apis : ℕ → ModuleApis → ModuleApis) where
  unfoldable pub check_apis : ℕ → ModuleApis → G (Option LibraryHandleData)
  check_apis library apis =
      if has_required apis
      then pure (some (record { library = library; apis = apis }))
      else (do unload_library library; free; free; pure none)

  -- Whether DynamicLibrary_FindSymbol found the function is the second argument.
  unfoldable pub call_get_apis : ℕ → Bool → G (Option LibraryHandleData)
  call_get_apis library found =
      if found
      then check_apis library (get_apis library no_apis)
      else (do unload_library library; free; free; pure none)

  unfoldable pub with_apis : ℕ → Bool → G (Option LibraryHandleData)
  with_apis library allocated =
      if allocated
      then (do found ← ask; call_get_apis library found)
      else (do unload_library library; free; pure none)

  unfoldable pub with_library : ℕ → G (Option LibraryHandleData)
  with_library library =
      if library == 0
      then (do free; pure none)
      else (do allocated ← malloc; with_apis library allocated)

  -- ModuleLoader_Load. NULL is `none`.
  unfoldable pub module_loader_load : Option Name → G (Option LibraryHandleData)
  module_loader_load none = pure none
  module_loader_load (some name) = do
    allocated ← malloc
    if allocated then (do library ← load_library name; with_library library) else pure none

unfoldable pub module_loader_get_module_apis : Option LibraryHandleData → Option ModuleApis
module_loader_get_module_apis none = none
module_loader_get_module_apis (some loader_data) = some loader_data.apis

unfoldable pub module_loader_unload : Option LibraryHandleData → G (Unit {0})
module_loader_unload none = pure tt
module_loader_unload (some loader_data) = do unload_library loader_data.library; free; free
