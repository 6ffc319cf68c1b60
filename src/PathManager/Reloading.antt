-- ===== src/PathManager/Reloading.antt =====
-- doReloadConf of internal/core/path_manager.go: which paths stay, and which configurations get one.
use mediamtx.Base.{
  ◌≡◌, refl, ap, ◌∙◌, arith, [], ◌∷◌, Option, none, some, Bool, true, false, if◌then◌else◌, ◌||◌,
  not,
}
use mediamtx.Base.Text.{Text, dec_text}
use mediamtx.PathManager.Conf.{ConfEntry, Confs, lookup, path_conf_can_be_updated}
use mediamtx.PathManager.State.{PathRef, PathManager}
use mediamtx.PathManager.Reload.{close_all, reload_all, reload_entry, reload_entries}
use mediamtx.PathManager.Invariant.{Inv}
use mediamtx.PathManager.Closing.{
  unless_conf, paths-close_all_conf, close_all-Inv, reload_all-Inv, paths-reload_all,
  next_pointer-close_all, next_pointer-reload_all,
}

-- The keys of a map.
abbrev pub Distinct : Confs → Type 0
Distinct [] = Unit
Distinct ((n, c) ∷ confs) = (lookup n confs ≡ none) × Distinct confs

module _ (equal : ConfEntry → ConfEntry → Bool) where
  -- Whether the paths of a configuration go on, by what the new configurations have in its place.
  abbrev pub survives : ConfEntry → Option ConfEntry → Bool
  survives old none = false
  survives old (some new) = equal new old || path_conf_can_be_updated equal old new

  reload_entry-Inv :
      (n : Text) (old : ConfEntry) (o : Option ConfEntry) (pm : PathManager)
      → Inv pm
      → Inv (reload_entry equal n old o pm)
  unfolding reload_entry
  reload_entry-Inv n old none pm v = close_all-Inv n pm v
  reload_entry-Inv n old (some new) pm v =
      go (equal new old) (path_conf_can_be_updated equal old new)
    where
      go :
          (same_conf updated : Bool)
          → Inv (
              if not same_conf
              then if updated
                then reload_all (pm.paths_by_conf n) new pm
                else close_all (pm.paths_by_conf n) pm
              else pm)
      go true u = v
      go false true = reload_all-Inv (pm.paths_by_conf n) new pm v
      go false false = close_all-Inv n pm v

  paths-reload_entry :
      (n : Text) (old : ConfEntry) (o : Option ConfEntry) (pm : PathManager) (k : Text)
      → Inv pm
      → (reload_entry equal n old o pm).paths k
        ≡ (if survives old o then pm.paths k else unless_conf n (pm.paths k))
  unfolding reload_entry
  paths-reload_entry n old none pm k v = paths-close_all_conf n pm k v
  paths-reload_entry n old (some new) pm k v = ground (
    arith,
    paths-close_all_conf n pm k v,
    ap (λ (m : Text → Option PathRef). m k) (paths-reload_all (pm.paths_by_conf n) new pm),
  )

  next_pointer-reload_entry :
      (n : Text) (old : ConfEntry) (o : Option ConfEntry) (pm : PathManager)
      → (reload_entry equal n old o pm).next_pointer ≡ pm.next_pointer
  unfolding reload_entry
  next_pointer-reload_entry n old none pm = next_pointer-close_all (pm.paths_by_conf n) pm
  next_pointer-reload_entry n old (some new) pm = ground (
    arith,
    next_pointer-close_all (pm.paths_by_conf n) pm,
    next_pointer-reload_all (pm.paths_by_conf n) new pm,
  )

  pub reload_entries-Inv :
      (confs new_confs : Confs) (pm : PathManager)
      → Inv pm
      → Inv (reload_entries equal confs new_confs pm)
  unfolding reload_entries
  reload_entries-Inv [] new_confs pm v = v
  reload_entries-Inv ((n, c) ∷ confs) new_confs pm v =
      reload_entries-Inv confs new_confs (reload_entry equal n c (lookup n new_confs) pm)
        (reload_entry-Inv n c (lookup n new_confs) pm v)

  pub next_pointer-reload_entries :
      (confs new_confs : Confs) (pm : PathManager)
      → (reload_entries equal confs new_confs pm).next_pointer ≡ pm.next_pointer
  unfolding reload_entries
  next_pointer-reload_entries [] new_confs pm = refl
  next_pointer-reload_entries ((n, c) ∷ confs) new_confs pm =
      next_pointer-reload_entries confs new_confs (reload_entry equal n c (lookup n new_confs) pm)
      ∙ next_pointer-reload_entry n c (lookup n new_confs) pm

  -- A path stays if its configuration is there and has not changed, or can be updated.
  unfoldable pub stays : Confs → Confs → PathRef → Bool
  stays confs new_confs x = elim (lookup x.conf_name confs) [
    | none ↦ true
    | some c ↦ survives c (lookup x.conf_name new_confs)
  ]

  abbrev pub if_stays : Confs → Confs → Option PathRef → Option PathRef
  if_stays confs new_confs none = none
  if_stays confs new_confs (some x) = if stays confs new_confs x then some x else none

  stays-cons :
      (n : Text) (c : ConfEntry) (confs new_confs : Confs) (o : Option PathRef)
      → lookup n confs ≡ none
      → if_stays confs new_confs (if survives c (lookup n new_confs) then o else unless_conf n o)
        ≡ if_stays ((n, c) ∷ confs) new_confs o
  unfolding stays lookup
  stays-cons n c confs new_confs none e = ground arith
  stays-cons n c confs new_confs (some x) e = elim (dec_text n x.conf_name) [
    | yes q ↦ ground (arith, ap (λ m. lookup m confs) q, ap (λ m. lookup m new_confs) q)
    | no q ↦ ground (arith)
  ]

  pub paths-reload_entries :
      (confs new_confs : Confs) (pm : PathManager) (k : Text)
      → Inv pm
      → Distinct confs
      → (reload_entries equal confs new_confs pm).paths k ≡ if_stays confs new_confs (pm.paths k)
  unfolding reload_entries stays lookup
  paths-reload_entries [] new_confs pm k v d = ground arith
  paths-reload_entries ((n, c) ∷ confs) new_confs pm k v (fresh, d) =
      paths-reload_entries confs new_confs (reload_entry equal n c (lookup n new_confs) pm) k
        (reload_entry-Inv n c (lookup n new_confs) pm v) d
      ∙ ap (if_stays confs new_confs) (paths-reload_entry n c (lookup n new_confs) pm k v)
      ∙ stays-cons n c confs new_confs (pm.paths k) fresh
