-- ===== src/PathManager/Reloaded.antt =====
-- What holds after doReloadConf of internal/core/path_manager.go.
use mediamtx.Base.{
  ◌≡◌, refl, sym, ap, ◌∙◌, ◌≢◌, ◌⊎◌, inl, inr, ◌≤◌, arith, Option, none, some, Bool, true, false,
  Option-cases, is_some,
}
use mathlib.Core.Path.{subst}
use mediamtx.Base.Text.{Text}
use mediamtx.PathManager.Conf.{ConfEntry, Confs, lookup}
use mediamtx.PathManager.State.{PathRef, PathManager}
use mediamtx.PathManager.Reload.{reload_entries, do_reload_conf}
use mediamtx.PathManager.Invariant.{Inv, IsConfigured}
use mediamtx.PathManager.Creating.{
  create_missing-Inv, create_missing-IsNew, create_missing-keeps, create_missing-is_some,
  path_confs-create_missing,
}
use mediamtx.PathManager.Reloading.{
  Distinct, stays, if_stays, reload_entries-Inv, paths-reload_entries, next_pointer-reload_entries,
}

set_confs-Inv : (confs : Confs) (pm : PathManager) → Inv pm → Inv (record pm { path_confs = confs })
set_confs-Inv confs pm v = record {
  named = v.named;
  indexed = v.indexed;
  registered = v.registered;
  below = v.below;
  distinct = v.distinct;
}

module _ (equal : ConfEntry → ConfEntry → Bool) where
  pub do_reload_conf-Inv :
      (confs : Confs) (pm : PathManager) → Inv pm → Inv (do_reload_conf equal confs pm)
  unfolding do_reload_conf
  do_reload_conf-Inv confs pm v =
      create_missing-Inv confs _
        (set_confs-Inv confs _ (reload_entries-Inv equal pm.path_confs confs pm v))

  -- When the configurations are reloaded, a path whose configuration is unchanged, or may be
  -- updated while it runs, stays in the map as the same object.
  pub do_reload_conf-keeps :
      (confs : Confs) (pm : PathManager) (k : Text) (x : PathRef)
      → Inv pm
      → Distinct pm.path_confs
      → pm.paths k ≡ some x
      → stays equal pm.path_confs confs x ≡ true
      → (do_reload_conf equal confs pm).paths k ≡ some x
  unfolding do_reload_conf
  do_reload_conf-keeps confs pm k x v d e s = create_missing-keeps confs _ k x (
      paths-reload_entries equal pm.path_confs confs pm k v d
      ∙ (ap (if_stays equal pm.path_confs confs) e ∙ ground arith))

  -- After the configurations are reloaded, each path either was there and its configuration lets it
  -- stay, or is a new object, of the new configuration that has the path's name.
  pub do_reload_conf-origin :
      (confs : Confs) (pm : PathManager) (k : Text) (y : PathRef)
      → Inv pm
      → Distinct pm.path_confs
      → (do_reload_conf equal confs pm).paths k ≡ some y
      → ((pm.paths k ≡ some y) × (stays equal pm.path_confs confs y ≡ true))
        ⊎ ((y.conf_name ≡ k) × ((lookup k confs ≢ none) × (pm.next_pointer ≤ y.pointer)))
  unfolding do_reload_conf
  do_reload_conf-origin confs pm k y v d e =
      elim (create_missing-IsNew confs
        (record (reload_entries equal pm.path_confs confs pm) { path_confs = confs }) k y e) [
          | inl old ↦ inl (
              from_before (pm.paths k) refl
                (sym (paths-reload_entries equal pm.path_confs confs pm k v d) ∙ old))
          | inr (free, (en, (hl, hp))) ↦
              ground (arith, next_pointer-reload_entries equal pm.path_confs confs pm)
        ]
    where
      from_before :
          (o : Option PathRef)
          → pm.paths k ≡ o
          → if_stays equal pm.path_confs confs o ≡ some y
          → (pm.paths k ≡ some y) × (stays equal pm.path_confs confs y ≡ true)
      from_before none eo h = cc
      from_before (some x) eo h = ground (arith)

  -- After the configurations are reloaded, each of them that stands for one path has a path of its
  -- name.
  pub do_reload_conf_complete :
      (confs : Confs) (pm : PathManager) (k : Text) (c : ConfEntry)
      → lookup k confs ≡ some c
      → c.has_regexp ≡ false
      → is_some ((do_reload_conf equal confs pm).paths k) ≡ true
  unfolding do_reload_conf
  do_reload_conf_complete confs pm k c e r = create_missing-is_some confs _ k c e r

  pub path_confs-do_reload_conf :
      (confs : Confs) (pm : PathManager) → (do_reload_conf equal confs pm).path_confs ≡ confs
  unfolding do_reload_conf
  path_confs-do_reload_conf confs pm = path_confs-create_missing confs _

  stays-lookup :
      (confs new_confs : Confs) (x : PathRef)
      → lookup x.conf_name confs ≢ none
      → stays equal confs new_confs x ≡ true
      → lookup x.conf_name new_confs ≢ none
  unfolding stays
  stays-lookup confs new_confs x h s e = elim (Option-cases (lookup x.conf_name confs)) [
    | inl o ↦ h o
    | inr (c, o) ↦ ground arith
  ]

  configured_after :
      (confs : Confs) (pm : PathManager)
      → Inv pm
      → Distinct pm.path_confs
      → IsConfigured pm
      → (n : Text) (x : PathRef) → (do_reload_conf equal confs pm).paths n ≡ some x
      → lookup x.conf_name confs ≢ none
  configured_after confs pm v d h n x e = elim (do_reload_conf-origin confs pm n x v d e) [
    | inl (old, s) ↦ stays-lookup pm.path_confs confs x (h n x old) s
    | inr (en, (hl, hp)) ↦ subst (λ k. lookup k confs ≢ none) (sym en) hl
  ]

  pub do_reload_conf-IsConfigured :
      (confs : Confs) (pm : PathManager)
      → Inv pm
      → Distinct pm.path_confs
      → IsConfigured pm
      → IsConfigured (do_reload_conf equal confs pm)
  do_reload_conf-IsConfigured confs pm v d h n x e bad =
      configured_after confs pm v d h n x e
        (ap (lookup x.conf_name) (sym (path_confs-do_reload_conf confs pm)) ∙ bad)
