-- ===== src/PathManager/Upkeep.antt =====
-- What holds of internal/core/path_manager.go between two events, and the steps that keep it.
use mediamtx.Base.{
  ◌≡◌, refl, sym, ap, ◌∙◌, ◌≢◌, ◌⊎◌, inl, inr, arith, List, Option, none, some, ◌==◌, Bool, true,
  false, if◌then◌else◌, not, is_none,
}
use mathlib.Core.Path.{subst}
use mediamtx.Base.Text.{Text}
use mediamtx.PathManager.Conf.{ConfEntry, Confs, lookup, Found}
use mediamtx.PathManager.State.{PathRef, PathManager, Action, emit, create_path, remove_path}
use mediamtx.PathManager.Reload.{do_reload_conf}
use mediamtx.PathManager.Handlers.{Event, reload_conf, close_path, do_close_path, ensure_path}
use mediamtx.PathManager.Invariant.{
  Inv, create_path-Inv, remove_path-Inv, registered-IsAlone, IsConfigured, emit-Inv,
  paths-remove_path,
}
use mediamtx.PathManager.Reloading.{Distinct}
use mediamtx.PathManager.Reloaded.{
  do_reload_conf-Inv, do_reload_conf-IsConfigured, path_confs-do_reload_conf,
}

pub record Good (pm : PathManager) : Type 0 where
  pub inv : Inv pm
  pub configured : IsConfigured pm
  pub keys : Distinct pm.path_confs

-- A path that asks to be closed is an object: it differs from the one listed under its name, or it
-- is that very one.
abbrev pub IsAllowed : Event → PathManager → Type 0
IsAllowed (close_path pa) pm =
    (q : PathRef) → pm.paths pa.name ≡ some q → q.pointer ≡ pa.pointer → q ≡ pa
IsAllowed (reload_conf confs) pm = Distinct confs
IsAllowed e pm = Unit

pub emit-Good : (a : Action) (pm : PathManager) → Good pm → Good (emit a pm)
emit-Good a pm g = record { inv = emit-Inv a pm g.inv; configured = g.configured; keys = g.keys }

paths-create_path :
    (c : Text) (conf : ConfEntry) (name : Text) (matches : List Text) (pm : PathManager) (n : Text)
    (x : PathRef)
    → (create_path c conf name matches pm).paths n ≡ some x
    → (pm.paths n ≡ some x) ⊎ ((name ≡ n) × (c ≡ x.conf_name))
unfolding create_path
paths-create_path c conf name matches pm n x e = ground arith

create_path-IsConfigured :
    (c : Text) (conf : ConfEntry) (name : Text) (matches : List Text) (pm : PathManager)
    → IsConfigured pm
    → lookup c pm.path_confs ≢ none
    → IsConfigured (create_path c conf name matches pm)
unfolding create_path
create_path-IsConfigured c conf name matches pm h hc n x e =
    elim (paths-create_path c conf name matches pm n x e) [
      | inl old ↦ h n x old
      | inr (en, ec) ↦ subst (λ k. lookup k pm.path_confs ≢ none) ec hc
    ]

pub create_path-Good :
    (c : Text) (conf : ConfEntry) (name : Text) (matches : List Text) (pm : PathManager)
    → Good pm
    → pm.paths name ≡ none
    → lookup c pm.path_confs ≢ none
    → Good (create_path c conf name matches pm)
unfolding create_path
create_path-Good c conf name matches pm g free hc = record {
  inv = create_path-Inv c conf name matches pm g.inv free;
  configured = create_path-IsConfigured c conf name matches pm g.configured hc;
  keys = g.keys;
}

pub ensure_path-Good :
    (f : Found) (name : Text) (pm : PathManager)
    → Good pm
    → lookup f.conf_name pm.path_confs ≢ none
    → Good (ensure_path f name pm)
unfolding ensure_path
ensure_path-Good f name pm g hf = go (pm.paths name) refl
  where
    go :
        (o : Option PathRef)
        → pm.paths name ≡ o
        → Good (if is_none o then create_path f.conf_name f.conf name f.matches pm else pm)
    go none e = create_path-Good f.conf_name f.conf name f.matches pm g e hf
    go (some x) e = g

pub do_close_path-Good :
    (pa : PathRef) (pm : PathManager)
    → Good pm
    → IsAllowed (close_path pa) pm
    → Good (do_close_path pa pm)
unfolding do_close_path remove_path
do_close_path-Good pa pm g a = go (pm.paths pa.name) refl
  where
    removed :
        (q : PathRef)
        → pm.paths pa.name ≡ some q
        → (b : Bool) → (b ≡ true → q ≡ pa)
        → Good (if not b then pm else remove_path pa pm)
    removed q e false s = g
    removed q e true s = record {
      inv = remove_path-Inv pa pm g.inv (registered-IsAlone pa pm g.inv (e ∙ ap some (s refl)));
      configured = λ n x ex. let (old, k) = paths-remove_path pa pm n x ex in g.configured n x old;
      keys = g.keys;
    }

    go :
        (o : Option PathRef)
        → pm.paths pa.name ≡ o
        → Good (elim o [
          | none ↦ pm
          | some q ↦ if not (q.pointer == pa.pointer) then pm else remove_path pa pm
        ])
    go none e = g
    go (some q) e = removed q e (q.pointer == pa.pointer) (λ b. a q e (ground arith))

pub do_reload_conf-Good :
    (equal : ConfEntry → ConfEntry → Bool) (confs : Confs) (pm : PathManager)
    → Good pm
    → Distinct confs
    → Good (do_reload_conf equal confs pm)
do_reload_conf-Good equal confs pm g d = record {
  inv = do_reload_conf-Inv equal confs pm g.inv;
  configured = do_reload_conf-IsConfigured equal confs pm g.inv g.keys g.configured;
  keys = subst Distinct (sym (path_confs-do_reload_conf equal confs pm)) d;
}
