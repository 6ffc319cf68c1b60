-- ===== src/PathManager/Running.antt =====
-- The loop of internal/core/path_manager.go: what holds between two events.
use mediamtx.Base.{
  ℕ, ◌≡◌, refl, ◌≢◌, ◌⊎◌, inl, inr, arith, Option, none, some, Bool, true, false, if◌then◌else◌,
}
use mediamtx.Base.Text.{Text}
use mediamtx.PathManager.Conf.{lookup, Found, find_path_conf}
use mediamtx.PathManager.Auth.{AccessRequest, do_authentication}
use mediamtx.PathManager.State.{
  PathRef, PathManager, Action, Reply, emit, reply, reply_paths, hls_path_ready, hls_path_not_ready,
  found_conf, found_path, path_not_found,
}
use mediamtx.PathManager.Handlers.{
  Env, Request, Event, handle, reload_conf, set_hls_server, close_path, path_ready, path_not_ready,
  find_conf, describe, add_reader, add_publisher, api_paths_list, api_paths_get, do_set_hls_server,
  do_path_ready, do_path_not_ready, do_find_path_conf, do_describe, do_add_reader, do_add_publisher,
  do_api_paths_list, do_api_paths_get, ensure_path, answer_path, authorize,
}
use mediamtx.PathManager.Search.{find_path_conf-lookup}
use mediamtx.PathManager.Upkeep.{
  Good, IsAllowed, emit-Good, ensure_path-Good, do_close_path-Good, do_reload_conf-Good,
}

module _ (env : Env) where
  -- A request that is let in has what the search found and, unless it skips the check, passes it.
  pub authorize-inr :
      (skip : Bool) (access : AccessRequest) (pm : PathManager) (f : Found)
      → authorize env skip access pm ≡ inr f
      → (find_path_conf env.find_submatch pm.path_confs access.name ≡ inr f)
        × ((skip ≡ true)
            ⊎ (do_authentication env.auth env.has_external_url f.conf.access access ≡ none))
  unfolding authorize
  authorize-inr skip access pm f e = ground arith

  authorize-lookup :
      (skip : Bool) (access : AccessRequest) (pm : PathManager) (f : Found)
      → authorize env skip access pm ≡ inr f
      → lookup f.conf_name pm.path_confs ≢ none
  authorize-lookup skip access pm f e =
      let (found, a) = authorize-inr skip access pm f e in
      find_path_conf-lookup env.find_submatch pm.path_confs access.name f found

  -- What a request for a path does once the search and the check are done.
  abbrev pub answer : Request → PathManager → Reply ⊎ Found → PathManager
  answer req pm (inl r) = emit (reply req.res r) pm
  answer req pm (inr f) = answer_path req (ensure_path f req.access.name pm)

  answer-Good :
      (req : Request) (pm : PathManager) (r : Reply ⊎ Found)
      → Good pm
      → ((f : Found) → r ≡ inr f → lookup f.conf_name pm.path_confs ≢ none)
      → Good (answer req pm r)
  unfolding answer_path
  answer-Good req pm (inl r) g h = emit-Good (reply req.res r) pm g
  answer-Good req pm (inr f) g h =
      emit-Good _ _ (ensure_path-Good f req.access.name pm g (h f refl))

  do_find_path_conf-Good :
      (req : Request) (pm : PathManager) → Good pm → Good (do_find_path_conf env req pm)
  unfolding do_find_path_conf
  do_find_path_conf-Good req pm g = go (authorize env false req.access pm)
    where
      go :
          (r : Reply ⊎ Found)
          → Good (elim r [
            | inl r ↦ emit (reply req.res r) pm
            | inr f ↦ emit (reply req.res (found_conf f.conf)) pm
          ])
      go (inl r) = emit-Good _ pm g
      go (inr f) = emit-Good _ pm g

  do_api_paths_get-Good :
      (name : Text) (res : ℕ) (pm : PathManager) → Good pm → Good (do_api_paths_get name res pm)
  unfolding do_api_paths_get
  do_api_paths_get-Good name res pm g = go (pm.paths name)
    where
      go :
          (o : Option PathRef)
          → Good (elim o [
            | none ↦ emit (reply res path_not_found) pm
            | some pa ↦ emit (reply res (found_path (some pa))) pm
          ])
      go none = emit-Good _ pm g
      go (some pa) = emit-Good _ pm g

  emit_if-Good :
      (b : Bool) (a : Action) (pm : PathManager) → Good pm → Good (if b then emit a pm else pm)
  emit_if-Good true a pm g = emit-Good a pm g
  emit_if-Good false a pm g = g

  pub handle-Good :
      (e : Event) (pm : PathManager) → Good pm → IsAllowed e pm → Good (handle env e pm)
  unfolding handle do_describe do_add_reader do_add_publisher do_path_ready do_path_not_ready
      do_set_hls_server do_api_paths_list
  handle-Good (reload_conf confs) pm g a = do_reload_conf-Good env.equal confs pm g a
  handle-Good (set_hls_server b) pm g a = record {
    inv = record {
      named = g.inv.named;
      indexed = g.inv.indexed;
      registered = g.inv.registered;
      below = g.inv.below;
      distinct = g.inv.distinct;
    };
    configured = g.configured;
    keys = g.keys;
  }
  handle-Good (close_path pa) pm g a = do_close_path-Good pa pm g a
  handle-Good (path_ready pa) pm g a = emit_if-Good pm.has_hls_server (hls_path_ready pa) pm g
  handle-Good (path_not_ready pa) pm g a =
      emit_if-Good pm.has_hls_server (hls_path_not_ready pa) pm g
  handle-Good (find_conf req) pm g a = do_find_path_conf-Good req pm g
  handle-Good (describe req) pm g a =
      answer-Good req pm (authorize env false req.access pm) g
        (authorize-lookup false req.access pm)
  handle-Good (add_reader req) pm g a =
      answer-Good req pm (authorize env req.access.skip_auth req.access pm) g
        (authorize-lookup req.access.skip_auth req.access pm)
  handle-Good (add_publisher req) pm g a =
      answer-Good req pm (authorize env req.access.skip_auth req.access pm) g
        (authorize-lookup req.access.skip_auth req.access pm)
  handle-Good (api_paths_list res) pm g a = emit-Good (reply_paths res pm.paths) pm g
  handle-Good (api_paths_get name res) pm g a = do_api_paths_get-Good name res pm g
