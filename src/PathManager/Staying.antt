-- ===== src/PathManager/Staying.antt =====
-- Which paths of internal/core/path_manager.go stay.
use mediamtx.Base.{◌≡◌, ap, ◌≢◌, ◌⊎◌, inl, inr, arith, some, true, false}
use mediamtx.Base.Text.{Text}
use mediamtx.PathManager.Conf.{Found}
use mediamtx.PathManager.State.{PathRef, PathManager, Reply, create_path, remove_path}
use mediamtx.PathManager.Handlers.{
  Env, Request, Event, handle, reload_conf, set_hls_server, close_path, path_ready, path_not_ready,
  find_conf, describe, add_reader, add_publisher, api_paths_list, api_paths_get, do_set_hls_server,
  do_close_path, do_path_ready, do_path_not_ready, do_find_path_conf, do_describe, do_add_reader,
  do_add_publisher, do_api_paths_list, do_api_paths_get, ensure_path, answer_path, authorize,
}
use mediamtx.PathManager.Upkeep.{Good}
use mediamtx.PathManager.Running.{answer}
use mediamtx.PathManager.Reloaded.{do_reload_conf-keeps}
use mediamtx.PathManager.Reloading.{stays}

module _ (env : Env) where
  -- An event does not take a path away.
  abbrev pub IsSpared : Event → PathManager → PathRef → Type 0
  IsSpared (reload_conf confs) pm x = stays env.equal pm.path_confs confs x ≡ true
  IsSpared (close_path pa) pm x = pa.pointer ≢ x.pointer
  IsSpared e pm x = Unit

  paths-ensure_path-some :
      (f : Found) (name : Text) (pm : PathManager) (k : Text) (x : PathRef)
      → pm.paths k ≡ some x
      → (ensure_path f name pm).paths k ≡ some x
  unfolding ensure_path create_path
  paths-ensure_path-some f name pm k x e = ground (arith, ap pm.paths {x = name} {y = k})

  answer-keeps :
      (req : Request) (pm : PathManager) (r : Reply ⊎ Found) (k : Text) (x : PathRef)
      → pm.paths k ≡ some x
      → (answer env req pm r).paths k ≡ some x
  unfolding answer_path
  answer-keeps req pm (inl r) k x e = e
  answer-keeps req pm (inr f) k x e = paths-ensure_path-some f req.access.name pm k x e

  do_close_path-keeps :
      (pa : PathRef) (pm : PathManager) (k : Text) (x : PathRef)
      → pm.paths k ≡ some x
      → pa.pointer ≢ x.pointer
      → (do_close_path pa pm).paths k ≡ some x
  unfolding do_close_path remove_path
  do_close_path-keeps pa pm k x e n = ground (arith, ap pm.paths {x = pa.name} {y = k})

  -- A path stays under its name, as the same object, through every event but its own request to be
  -- closed, a stale one of another path included, and a reload that does not let it stay.
  pub path_survives :
      (e : Event) (pm : PathManager) (k : Text) (x : PathRef)
      → Good pm
      → pm.paths k ≡ some x
      → IsSpared e pm x
      → (handle env e pm).paths k ≡ some x
  unfolding handle do_describe do_add_reader do_add_publisher do_path_ready do_path_not_ready
      do_set_hls_server do_api_paths_list do_find_path_conf do_api_paths_get
  path_survives (reload_conf confs) pm k x g e s =
      do_reload_conf-keeps env.equal confs pm k x g.inv g.keys e s
  path_survives (set_hls_server b) pm k x g e s = e
  path_survives (close_path pa) pm k x g e s = do_close_path-keeps pa pm k x e s
  path_survives (path_ready pa) pm k x g e s = ground arith
  path_survives (path_not_ready pa) pm k x g e s = ground arith
  path_survives (find_conf req) pm k x g e s = ground arith
  path_survives (describe req) pm k x g e s =
      answer-keeps req pm (authorize env false req.access pm) k x e
  path_survives (add_reader req) pm k x g e s =
      answer-keeps req pm (authorize env req.access.skip_auth req.access pm) k x e
  path_survives (add_publisher req) pm k x g e s =
      answer-keeps req pm (authorize env req.access.skip_auth req.access pm) k x e
  path_survives (api_paths_list res) pm k x g e s = e
  path_survives (api_paths_get name res) pm k x g e s = ground arith
