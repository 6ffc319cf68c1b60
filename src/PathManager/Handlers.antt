-- ===== src/PathManager/Handlers.antt =====
-- The other handlers of internal/core/path_manager.go, and its loop.
use mediamtx.Base.{
  ℕ, Bool, false, ◌==◌, not, List, [], ◌∷◌, Option, none, some, if◌then◌else◌, is_none, ◌⊎◌, inl,
  inr,
}
use mediamtx.Base.Text.{Text}
use mediamtx.PathManager.Auth.{AccessRequest, AuthLibrary, do_authentication}
use mediamtx.PathManager.Conf.{ConfEntry, Confs, Found, find_path_conf}
use mediamtx.PathManager.State.{
  PathRef, PathManager, Reply, reply, reply_paths, find_error, auth_error, path_not_found,
  found_conf, found_path, hls_path_ready, hls_path_not_ready, emit, create_path, remove_path,
}
use mediamtx.PathManager.Reload.{do_reload_conf, initialize}

-- The libraries, and whether there is an external authentication server.
pub record Env : Type 0 where
  pub equal : ConfEntry → ConfEntry → Bool
  pub find_submatch : Text → Text → Option (List Text)
  pub auth : AuthLibrary
  pub has_external_url : Bool

pub record Request : Type 0 where
  pub access : AccessRequest
  pub res : ℕ

-- Whether the server is not nil.
unfoldable pub do_set_hls_server : Bool → PathManager → PathManager
do_set_hls_server is_there pm = record pm { has_hls_server = is_there }

-- A path that was replaced meanwhile is not removed.
unfoldable pub do_close_path : PathRef → PathManager → PathManager
do_close_path pa pm = elim (pm.paths pa.name) [
  | none ↦ pm
  | some q ↦ if not (q.pointer == pa.pointer) then pm else remove_path pa pm
]

unfoldable pub do_path_ready : PathRef → PathManager → PathManager
do_path_ready pa pm = if pm.has_hls_server then emit (hls_path_ready pa) pm else pm

unfoldable pub do_path_not_ready : PathRef → PathManager → PathManager
do_path_not_ready pa pm = if pm.has_hls_server then emit (hls_path_not_ready pa) pm else pm

unfoldable pub do_api_paths_list : ℕ → PathManager → PathManager
do_api_paths_list res pm = emit (reply_paths res pm.paths) pm

unfoldable pub do_api_paths_get : Text → ℕ → PathManager → PathManager
do_api_paths_get name res pm = elim (pm.paths name) [
  | none ↦ emit (reply res path_not_found) pm
  | some pa ↦ emit (reply res (found_path (some pa))) pm
]

-- The path of the name, which is created if it is not there.
unfoldable pub ensure_path : Found → Text → PathManager → PathManager
ensure_path f name pm =
    if is_none (pm.paths name) then create_path f.conf_name f.conf name f.matches pm else pm

unfoldable pub answer_path : Request → PathManager → PathManager
answer_path req pm = emit (reply req.res (found_path (pm.paths req.access.name))) pm

pub data Event : Type 0 where
  reload_conf : Confs → Event
  set_hls_server : Bool → Event
  close_path path_ready path_not_ready : PathRef → Event
  find_conf describe add_reader add_publisher : Request → Event
  api_paths_list : ℕ → Event
  api_paths_get : Text → ℕ → Event

module _ (env : Env) where
  -- The configuration for the request, if it is allowed.
  unfoldable pub authorize : Bool → AccessRequest → PathManager → Reply ⊎ Found
  authorize skip access pm = elim (find_path_conf env.find_submatch pm.path_confs access.name) [
    | inl e ↦ inl (find_error e)
    | inr f ↦
        if skip
        then inr f
        else elim (do_authentication env.auth env.has_external_url f.conf.access access) [
          | some e ↦ inl (auth_error e)
          | none ↦ inr f
        ]
  ]

  unfoldable pub do_find_path_conf : Request → PathManager → PathManager
  do_find_path_conf req pm = elim (authorize false req.access pm) [
    | inl r ↦ emit (reply req.res r) pm
    | inr f ↦ emit (reply req.res (found_conf f.conf)) pm
  ]

  unfoldable pub do_describe : Request → PathManager → PathManager
  do_describe req pm = elim (authorize false req.access pm) [
    | inl r ↦ emit (reply req.res r) pm
    | inr f ↦ answer_path req (ensure_path f req.access.name pm)
  ]

  unfoldable pub do_add_reader : Request → PathManager → PathManager
  do_add_reader req pm = elim (authorize req.access.skip_auth req.access pm) [
    | inl r ↦ emit (reply req.res r) pm
    | inr f ↦ answer_path req (ensure_path f req.access.name pm)
  ]

  unfoldable pub do_add_publisher : Request → PathManager → PathManager
  do_add_publisher req pm = elim (authorize req.access.skip_auth req.access pm) [
    | inl r ↦ emit (reply req.res r) pm
    | inr f ↦ answer_path req (ensure_path f req.access.name pm)
  ]

  unfoldable pub handle : Event → PathManager → PathManager
  handle (reload_conf confs) pm = do_reload_conf env.equal confs pm
  handle (set_hls_server b) pm = do_set_hls_server b pm
  handle (close_path pa) pm = do_close_path pa pm
  handle (path_ready pa) pm = do_path_ready pa pm
  handle (path_not_ready pa) pm = do_path_not_ready pa pm
  handle (find_conf req) pm = do_find_path_conf req pm
  handle (describe req) pm = do_describe req pm
  handle (add_reader req) pm = do_add_reader req pm
  handle (add_publisher req) pm = do_add_publisher req pm
  handle (api_paths_list res) pm = do_api_paths_list res pm
  handle (api_paths_get name res) pm = do_api_paths_get name res pm

  unfoldable pub handle_all : List Event → PathManager → PathManager
  handle_all [] pm = pm
  handle_all (e ∷ es) pm = handle_all es (handle e pm)

  unfoldable pub run : Confs → List Event → PathManager
  run confs es = handle_all es (initialize confs)
