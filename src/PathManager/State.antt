-- ===== src/PathManager/State.antt =====
-- The fields of internal/core/path_manager.go, its two maps of paths, and how they change.
use mediamtx.Base.{ℕ, suc, ◌==◌, Bool, List, [], ◌∷◌, Option, none, some, if◌then◌else◌}
use mediamtx.Base.Text.{Text, dec_text}
use mediamtx.PathManager.Conf.{ConfEntry, Confs, FindError}
use mediamtx.PathManager.Auth.{AuthError}
use mathlib.Core.Logic.{ite}

-- A path by its pointer, here a number, and by what the manager reads of it.
pub record PathRef : Type 0 where
  pub pointer : ℕ
  pub name : Text
  pub conf_name : Text
  pub matches : List Text

pub data Reply : Type 0 where
  find_error : FindError → Reply
  auth_error : AuthError → Reply
  path_not_found : Reply
  found_conf : ConfEntry → Reply
  found_path : Option PathRef → Reply

-- What the manager does outside itself. `close_path` is the call of `close` and of `wait`.
pub data Action : Type 0 where
  reply : ℕ → Reply → Action
  reply_paths : ℕ → (Text → Option PathRef) → Action
  start_path : PathRef → ConfEntry → Action
  reload_path : PathRef → ConfEntry → Action
  close_path : PathRef → Action
  hls_path_ready : PathRef → Action
  hls_path_not_ready : PathRef → Action

-- `paths_by_conf` gives no path where the map has no key. `next_pointer` is a pointer that is not
-- in use. Actions stand newest first.
pub record PathManager : Type 0 where
  pub path_confs : Confs
  pub has_hls_server : Bool
  pub paths : Text → Option PathRef
  pub paths_by_conf : Text → List PathRef
  pub next_pointer : ℕ
  pub actions : List Action

abbrev pub emit : Action → PathManager → PathManager
emit a pm = record pm { actions = a ∷ pm.actions }

-- `m[k] = v`
abbrev pub update {ℓ} : {V : Type ℓ} → (Text → V) → Text → V → Text → V
update m k v j = ite (dec_text k j) v (m j)

-- `delete` from a set of pointers.
unfoldable pub erase : ℕ → List PathRef → List PathRef
erase p [] = []
erase p (x ∷ xs) = let rest = erase p xs in if x.pointer == p then rest else x ∷ rest

-- The path is started as it is created.
unfoldable pub create_path : Text → ConfEntry → Text → List Text → PathManager → PathManager
create_path conf_name conf name matches pm =
    let pa : PathRef = record {
      pointer = pm.next_pointer;
      name = name;
      conf_name = conf_name;
      matches = matches;
    } in
    emit (start_path pa conf) (record pm {
      paths = update pm.paths name (some pa);
      paths_by_conf = update pm.paths_by_conf conf_name (pa ∷ pm.paths_by_conf conf_name);
      next_pointer = suc pm.next_pointer;
    })

unfoldable pub remove_path : PathRef → PathManager → PathManager
remove_path pa pm = record pm {
  paths_by_conf =
      update pm.paths_by_conf pa.conf_name (erase pa.pointer (pm.paths_by_conf pa.conf_name));
  paths = update pm.paths pa.name none;
}
