-- ===== src/PathManager/Reload.antt =====
-- initialize and doReloadConf of internal/core/path_manager.go.
use mediamtx.Base.{
  Bool, ◌&&◌, not, List, [], ◌∷◌, Option, none, some, if◌then◌else◌, is_none, false,
}
use mediamtx.Base.Text.{Text}
use mediamtx.PathManager.Conf.{ConfEntry, Confs, lookup, path_conf_can_be_updated}
use mediamtx.PathManager.State.{
  PathRef, PathManager, close_path, reload_path, emit, create_path, remove_path,
}

-- A path for each configuration that stands for one path, where there is none yet.
unfoldable pub create_missing : Confs → PathManager → PathManager
create_missing [] pm = pm
create_missing ((n, c) ∷ confs) pm =
    create_missing confs
      (if is_none (pm.paths n) && not c.has_regexp then create_path n c n [] pm else pm)

unfoldable pub create_all : Confs → PathManager → PathManager
create_all [] pm = pm
create_all ((n, c) ∷ confs) pm =
    create_all confs (if not c.has_regexp then create_path n c n [] pm else pm)

-- The paths of one configuration are removed and closed, one after the other.
unfoldable pub close_all : List PathRef → PathManager → PathManager
close_all [] pm = pm
close_all (pa ∷ pas) pm = close_all pas (emit (close_path pa) (remove_path pa pm))

unfoldable pub reload_all : List PathRef → ConfEntry → PathManager → PathManager
reload_all [] c pm = pm
reload_all (pa ∷ pas) c pm = reload_all pas c (emit (reload_path pa c) pm)

module _ (equal : ConfEntry → ConfEntry → Bool) where
  -- The body of the first loop, for a configuration and what the new ones have under its name.
  unfoldable pub reload_entry : Text → ConfEntry → Option ConfEntry → PathManager → PathManager
  reload_entry n old none pm = close_all (pm.paths_by_conf n) pm
  reload_entry n old (some new) pm =
      if not (equal new old)
      then if path_conf_can_be_updated equal old new
        then reload_all (pm.paths_by_conf n) new pm
        else close_all (pm.paths_by_conf n) pm
      else pm

  unfoldable pub reload_entries : Confs → Confs → PathManager → PathManager
  reload_entries [] new_confs pm = pm
  reload_entries ((n, c) ∷ confs) new_confs pm =
      reload_entries confs new_confs (reload_entry n c (lookup n new_confs) pm)

  unfoldable pub do_reload_conf : Confs → PathManager → PathManager
  do_reload_conf new_confs pm =
      let pm' = reload_entries pm.path_confs new_confs pm in
      create_missing new_confs (record pm' { path_confs = new_confs })

unfoldable pub initialize : Confs → PathManager
initialize confs = create_all confs (record {
  path_confs = confs;
  has_hls_server = false;
  paths = λ n. none;
  paths_by_conf = λ n. [];
  next_pointer = 0;
  actions = [];
})
