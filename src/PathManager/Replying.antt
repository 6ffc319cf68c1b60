-- ===== src/PathManager/Replying.antt =====
-- What internal/core/path_manager.go replies to requests for a path.
use mediamtx.Base.{
  ◌≡◌, refl, ap, ◌≢◌, ◌⊎◌, inl, inr, arith, List, ◌∷◌, Option, none, some, Bool, false,
}
use mediamtx.Base.Text.{Text}
use mediamtx.PathManager.Conf.{Found}
use mediamtx.PathManager.State.{
  PathRef, PathManager, Action, Reply, create_path, reply, found_path, start_path,
}
use mediamtx.PathManager.Handlers.{
  Env, Request, Event, handle, reload_conf, set_hls_server, close_path, path_ready, path_not_ready,
  find_conf, describe, add_reader, add_publisher, api_paths_list, api_paths_get, do_describe,
  do_add_reader, do_add_publisher, ensure_path, answer_path, authorize,
}
use mediamtx.PathManager.Running.{answer}

module _ (env : Env) where
  -- What is done before the reply to a request that is let in: nothing if there is a path of the
  -- name, or else the start of the new path, with the configuration found.
  abbrev pub IsPrepared : Found → PathRef → Text → PathManager → List Action → Type 0
  IsPrepared f x name pm acts =
      ((pm.paths name ≡ some x) × (acts ≡ pm.actions))
      ⊎ ((pm.paths name ≡ none) × (acts ≡ start_path x f.conf ∷ pm.actions))

  -- The reply to a request, the last thing that is done for it: if the request is let in, the path
  -- that now stands under the name asked for, or else the error, with no path changed.
  abbrev pub IsReplied : Bool → Request → PathManager → PathManager → Type 0
  IsReplied skip req pm after =
      ((f : Found) × ((x : PathRef) × ((rest : List Action) × ((authorize env skip req.access pm
                ≡ inr f)
              × ((after.actions ≡ reply req.res (found_path (some x)) ∷ rest)
                  × ((after.paths req.access.name ≡ some x)
                      × IsPrepared f x req.access.name pm rest))))))
      ⊎ ((r : Reply) × ((authorize env skip req.access pm ≡ inl r)
            × ((after.actions ≡ reply req.res r ∷ pm.actions) × (after.paths ≡ pm.paths))))

  ensure_path-some :
      (f : Found) (name : Text) (pm : PathManager) → (ensure_path f name pm).paths name ≢ none
  unfolding ensure_path create_path
  ensure_path-some f name pm h = ground arith

  ensure_path-IsPrepared :
      (f : Found) (name : Text) (pm : PathManager) (x : PathRef)
      → (ensure_path f name pm).paths name ≡ some x
      → IsPrepared f x name pm (ensure_path f name pm).actions
  unfolding ensure_path create_path
  ensure_path-IsPrepared f name pm x e = go (pm.paths name) refl
    where
      go :
          (o : Option PathRef)
          → pm.paths name ≡ o
          → IsPrepared f x name pm (ensure_path f name pm).actions
      go none h = inr (h, ground arith)
      go (some y) h = inl (ground arith, ground arith)

  answer-IsReplied :
      (skip : Bool) (req : Request) (pm : PathManager)
      → IsReplied skip req pm (answer env req pm (authorize env skip req.access pm))
  unfolding answer_path
  answer-IsReplied skip req pm = go (authorize env skip req.access pm) refl
    where
      replied :
          (f : Found)
          → authorize env skip req.access pm ≡ inr f
          → (o : Option PathRef) → (ensure_path f req.access.name pm).paths req.access.name ≡ o
          → IsReplied skip req pm (answer env req pm (inr f))
      replied f ef none e = absurd (ensure_path-some f req.access.name pm e)
      replied f ef (some x) e =
          let acts = (ensure_path f req.access.name pm).actions in
          inl (
            f,
            (
              x,
              (
                acts,
                (
                  ef,
                  (
                    ap (λ o. reply req.res (found_path o) ∷ acts) e,
                    (e, ensure_path-IsPrepared f req.access.name pm x e),
                  ),
                ),
              ),
            ),
          )

      go :
          (r : Reply ⊎ Found)
          → authorize env skip req.access pm ≡ r
          → IsReplied skip req pm (answer env req pm r)
      go (inl r) er = inr (r, (er, (refl, refl)))
      go (inr f) er = replied f er ((ensure_path f req.access.name pm).paths req.access.name) refl

  abbrev pub IsServed : Event → PathManager → Type 0
  IsServed (describe req) pm = IsReplied false req pm (handle env (describe req) pm)
  IsServed (add_reader req) pm =
      IsReplied req.access.skip_auth req pm (handle env (add_reader req) pm)
  IsServed (add_publisher req) pm =
      IsReplied req.access.skip_auth req pm (handle env (add_publisher req) pm)
  IsServed e pm = Unit

  -- Every request for a path is replied to at once, and the reply is the last action. If
  -- the search and the check let the request in, it is the path that stands under the name
  -- afterwards: the one that stood there before, with no other action, or, if there was none,
  -- a path that is started first with the configuration found. Otherwise the reply is their
  -- error, the only action, and no path changes.
  pub handle-IsServed : (e : Event) (pm : PathManager) → IsServed e pm
  unfolding handle do_describe do_add_reader do_add_publisher
  handle-IsServed (describe req) pm = answer-IsReplied false req pm
  handle-IsServed (add_reader req) pm = answer-IsReplied req.access.skip_auth req pm
  handle-IsServed (add_publisher req) pm = answer-IsReplied req.access.skip_auth req pm
  handle-IsServed (reload_conf confs) pm = tt
  handle-IsServed (set_hls_server b) pm = tt
  handle-IsServed (close_path pa) pm = tt
  handle-IsServed (path_ready pa) pm = tt
  handle-IsServed (path_not_ready pa) pm = tt
  handle-IsServed (find_conf req) pm = tt
  handle-IsServed (api_paths_list res) pm = tt
  handle-IsServed (api_paths_get name res) pm = tt
