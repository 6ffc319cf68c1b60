-- ===== src/PathManager/Access.antt =====
-- Who makes internal/core/path_manager.go create a path.
use mediamtx.Base.{
  ◌≡◌, refl, sym, ap, ◌∙◌, ◌≢◌, ◌⊎◌, inl, inr, arith, none, some, Bool, true, false,
}
use mediamtx.Base.Text.{Text}
use mediamtx.PathManager.Conf.{lookup, Found, find_path_conf}
use mediamtx.PathManager.Auth.{do_authentication}
use mediamtx.PathManager.State.{PathRef, PathManager, Reply, create_path, remove_path}
use mediamtx.PathManager.Handlers.{
  Env, Request, Event, handle, reload_conf, set_hls_server, close_path, path_ready, path_not_ready,
  find_conf, describe, add_reader, add_publisher, api_paths_list, api_paths_get, do_set_hls_server,
  do_close_path, do_path_ready, do_path_not_ready, do_find_path_conf, do_describe, do_add_reader,
  do_add_publisher, do_api_paths_list, do_api_paths_get, ensure_path, answer_path, authorize,
}
use mediamtx.PathManager.Upkeep.{Good}
use mediamtx.PathManager.Running.{answer, authorize-inr}
use mediamtx.PathManager.Reloaded.{do_reload_conf-origin}

module _ (env : Env) where
  -- The request was let in, by the rules of the configuration that the new path got.
  abbrev pub IsAdmitted : Bool → Request → PathManager → Text → PathRef → Type 0
  IsAdmitted skip req pm k y =
      (req.access.name ≡ k)
      × ((f : Found) × ((find_path_conf env.find_submatch pm.path_confs k ≡ inr f)
            × ((y.conf_name ≡ f.conf_name)
                × ((skip ≡ true)
                    ⊎ (do_authentication env.auth env.has_external_url f.conf.access req.access
                        ≡ none)))))

  abbrev pub IsReason : Event → PathManager → Text → PathRef → Type 0
  IsReason (reload_conf confs) pm k y = (y.conf_name ≡ k) × (lookup k confs ≢ none)
  IsReason (describe req) pm k y = IsAdmitted false req pm k y
  IsReason (add_reader req) pm k y = IsAdmitted req.access.skip_auth req pm k y
  IsReason (add_publisher req) pm k y = IsAdmitted req.access.skip_auth req pm k y
  IsReason e pm k y = ⊥

  paths-ensure_path :
      (f : Found) (name : Text) (pm : PathManager) (k : Text) (y : PathRef)
      → pm.paths k ≡ none
      → (ensure_path f name pm).paths k ≡ some y
      → (name ≡ k) × (y.conf_name ≡ f.conf_name)
  unfolding ensure_path create_path
  paths-ensure_path f name pm k y e h = ground arith

  answer-IsAdmitted :
      (skip : Bool) (req : Request) (pm : PathManager) (k : Text) (y : PathRef)
      → pm.paths k ≡ none
      → (answer env req pm (authorize env skip req.access pm)).paths k ≡ some y
      → IsAdmitted skip req pm k y
  unfolding answer_path
  answer-IsAdmitted skip req pm k y e h = go (authorize env skip req.access pm) refl h
    where
      go :
          (r : Reply ⊎ Found)
          → authorize env skip req.access pm ≡ r
          → (answer env req pm r).paths k ≡ some y
          → IsAdmitted skip req pm k y
      go (inl r) er hr = cc
      go (inr f) er hr =
          let (en, ec) = paths-ensure_path f req.access.name pm k y e hr in
          let (found, allowed) = authorize-inr env skip req.access pm f er in
          (
            en,
            (
              f,
              (ap (find_path_conf env.find_submatch pm.path_confs) (sym en) ∙ found, (ec, allowed)),
            ),
          )

  closed_path :
      (pa : PathRef) (pm : PathManager) (k : Text) (y : PathRef)
      → (do_close_path pa pm).paths k ≡ some y
      → pm.paths k ≡ some y
  unfolding do_close_path remove_path
  closed_path pa pm k y h = ground arith

  -- A path appears under a name that had none only when the configurations are reloaded, and then
  -- it is of the configuration of that name, or by a request for that very name: the search
  -- finds the configuration that the path gets, and the request passes the check of that
  -- configuration, or it is one by a reader or a publisher that skips the check.
  pub new_path_is_authorized :
      (e : Event) (pm : PathManager) (k : Text) (y : PathRef)
      → Good pm
      → pm.paths k ≡ none
      → (handle env e pm).paths k ≡ some y
      → IsReason e pm k y
  unfolding handle do_describe do_add_reader do_add_publisher do_path_ready do_path_not_ready
      do_set_hls_server do_api_paths_list do_find_path_conf do_api_paths_get
  new_path_is_authorized (reload_conf confs) pm k y g e h =
      ground (arith, do_reload_conf-origin env.equal confs pm k y g.inv g.keys h)
  new_path_is_authorized (set_hls_server b) pm k y g e h = cc
  new_path_is_authorized (close_path pa) pm k y g e h = ground (arith, closed_path pa pm k y h)
  new_path_is_authorized (path_ready pa) pm k y g e h = ground arith
  new_path_is_authorized (path_not_ready pa) pm k y g e h = ground arith
  new_path_is_authorized (find_conf req) pm k y g e h = ground arith
  new_path_is_authorized (describe req) pm k y g e h = answer-IsAdmitted false req pm k y e h
  new_path_is_authorized (add_reader req) pm k y g e h =
      answer-IsAdmitted req.access.skip_auth req pm k y e h
  new_path_is_authorized (add_publisher req) pm k y g e h =
      answer-IsAdmitted req.access.skip_auth req pm k y e h
  new_path_is_authorized (api_paths_list res) pm k y g e h = cc
  new_path_is_authorized (api_paths_get name res) pm k y g e h = ground arith
