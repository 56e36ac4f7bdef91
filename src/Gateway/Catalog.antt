-- ===== src/Gateway/Catalog.antt =====
-- The invariant of the vectors of core/src/gateway_ll.c, and that each operation keeps it.
use azure_iot_gateway_sdk.Base.{
  ℕ, ◌+◌, ◌≡◌, ◌≢◌, sym, ap, ◌∙◌, inl, inr, Bool, true, false, Option, some, List, [], ◌∷◌, ◌++◌,
  length, length-append, All, arith,
}
use azure_iot_gateway_sdk.Gateway.Env.{Env}
use azure_iot_gateway_sdk.Gateway.State.{
  Name, ModuleData, Link, from_any, from_one, Gateway, LinkEntry, gateway_all, strcmp_eq, find_if,
  erase_if, link_name_both_find,
}
use azure_iot_gateway_sdk.Gateway.Search.{
  strcmp_eq_refl, erase_if-Among, erase_if-All, length-erase_if, All-append, All-mono, Among-append,
  AreDistinct, append-AreDistinct, erase_if-AreDistinct,
}
use azure_iot_gateway_sdk.Gateway.LinkEffects.{Same, LinkEnds, LinkAdded, LinkErased}
use azure_iot_gateway_sdk.Gateway.ModuleEffects.{ModuleAdded}
use azure_iot_gateway_sdk.Gateway.RemoveEffects.{without, without-All, ModuleRemoved}

-- Over `libraries` and `instances`, one of each is held for every module; the modules' names differ,
-- none is "*"; and every link is between modules of the gateway.
pub record WellFormed (libraries instances : ℕ) (gw : Gateway) (e : Env) : Type 0 where
  pub libraries_eq : e.libraries ≡ libraries + length gw.modules
  pub instances_eq : e.instances ≡ instances + length gw.modules
  pub distinct : AreDistinct gw.modules
  pub no_all : All (λ (d : ModuleData). strcmp_eq d.module_name gateway_all ≡ false) gw.modules
  pub ends : All (LinkEnds gw.modules) gw.links

LinkEnds-append :
    (ms : List ModuleData) (new : ModuleData) (l : Link)
    → LinkEnds ms l
    → LinkEnds (ms ++ new ∷ []) l
LinkEnds-append ms new (from_any sink) a = Among-append ms sink new a
LinkEnds-append ms new (from_one source sink) (a, b) =
    (Among-append ms source new a, Among-append ms sink new b)

-- A link that does not name the removed module is still between modules.
module _ (p : ModuleData → Bool) (ms : List ModuleData) (d : ModuleData)
    (found : find_if p ms ≡ some d) where
  other : (m : ModuleData) → strcmp_eq m.module_name d.module_name ≡ false → m ≢ d
  other m differs same = absurd (
      true_ne_false (
        sym (strcmp_eq_refl d.module_name)
        ∙ ap (λ (x : ModuleData). strcmp_eq x.module_name d.module_name) (sym same)
        ∙ differs))
    where
      true_ne_false : true ≡ false → ⊥
      true_ne_false x = ground arith

  LinkEnds-erase :
      (l : Link)
      → LinkEnds ms l × (link_name_both_find d.module_name l ≡ false)
      → LinkEnds (erase_if p ms) l
  unfolding link_name_both_find
  LinkEnds-erase (from_any sink) (a, unnamed) =
      erase_if-Among p ms d sink found (other sink unnamed) a
  LinkEnds-erase (from_one source sink) ((a, b), unnamed) = (
    erase_if-Among p ms d source found (other source (ground arith)) a,
    erase_if-Among p ms d sink found (other sink (ground arith)) b,
  )

module _ (libraries instances : ℕ) (gw : Gateway) (e : Env)
    (wf : WellFormed libraries instances gw e) where
  -- The vectors of modules and what is held are as before, and the links are among those from before.
  pub kept-WellFormed :
      (gw' : Gateway) (e' : Env)
      → gw'.modules ≡ gw.modules
      → All (LinkEnds gw.modules) gw'.links
      → Same e e'
      → WellFormed libraries instances gw' e'
  kept-WellFormed gw' e' ms ends (libs, insts) = record {
    libraries_eq =
        libs ∙ wf.libraries_eq ∙ ap (λ (l : List ModuleData). libraries + length l) (sym ms);
    instances_eq =
        insts ∙ wf.instances_eq ∙ ap (λ (l : List ModuleData). instances + length l) (sym ms);
    distinct = rw ms wf.distinct;
    no_all = rw ms wf.no_all;
    ends = rw ms ends;
  }

  pub LinkAdded-WellFormed :
      (entry : LinkEntry) (r : (Bool × Gateway) × Env)
      → LinkAdded gw entry e r
      → WellFormed libraries instances r.0.1 r.1
  LinkAdded-WellFormed entry ((false, gw'), e') (ms, ls, same) =
      kept-WellFormed gw' e' ms (rw ls wf.ends) same
  LinkAdded-WellFormed entry ((true, gw'), e') (link, ms, ls, ends, _, _, same) =
      kept-WellFormed gw' e' ms
        (rw ls (All-append (LinkEnds gw.modules) gw.links link wf.ends ends)) same

  pub LinkErased-WellFormed :
      (p : Link → Bool) (r : Gateway × Env)
      → LinkErased p gw e r
      → WellFormed libraries instances r.0 r.1
  LinkErased-WellFormed p (gw', e') (ms, ls, same) =
      kept-WellFormed gw' e' ms (rw ls (erase_if-All p (LinkEnds gw.modules) gw.links wf.ends)) same

  pub ModuleAdded-WellFormed :
      (name : Option Name) (r : (ℕ × Gateway) × Env)
      → ModuleAdded gw name e r
      → WellFormed libraries instances r.0.1 r.1
  ModuleAdded-WellFormed name ((h, gw'), e') (inl (_, ms, ls, same)) =
      kept-WellFormed gw' e' ms (rw ls wf.ends) same
  ModuleAdded-WellFormed name ((h, gw'), e')
        (inr (new, _, _, _, star, fresh, ms, ls, (libs, insts))) =
      record {
        libraries_eq =
            omega (arith, wf.libraries_eq, ap length ms, length-append gw.modules (new ∷ []));
        instances_eq =
            omega (arith, wf.instances_eq, ap length ms, length-append gw.modules (new ∷ []));
        distinct = rw ms (append-AreDistinct gw.modules new wf.distinct fresh);
        no_all = rw ms (All-append _ gw.modules new wf.no_all star);
        ends =
            rw (ms, ls)
              (All-mono (LinkEnds gw.modules) (LinkEnds (gw.modules ++ new ∷ [])) gw.links
                (LinkEnds-append gw.modules new) wf.ends);
      }

  pub ModuleRemoved-WellFormed :
      (p : ModuleData → Bool) (d : ModuleData) (r : Gateway × Env)
      → find_if p gw.modules ≡ some d
      → ModuleRemoved p gw d e r
      → WellFormed libraries instances r.0 r.1
  ModuleRemoved-WellFormed p d (gw', e') found (ms, ls, libs, insts) = record {
    libraries_eq =
        omega (arith, wf.libraries_eq, ap length ms, length-erase_if p gw.modules d found);
    instances_eq =
        omega (arith, wf.instances_eq, ap length ms, length-erase_if p gw.modules d found);
    distinct = rw ms (erase_if-AreDistinct p gw.modules wf.distinct);
    no_all = rw ms (erase_if-All p _ gw.modules wf.no_all);
    ends =
        rw (ms, ls)
          (All-mono _ (LinkEnds (erase_if p gw.modules))
            (without (link_name_both_find d.module_name) gw.links)
            (LinkEnds-erase p gw.modules d found)
            (without-All (link_name_both_find d.module_name) (LinkEnds gw.modules) gw.links
              wf.ends));
  }
