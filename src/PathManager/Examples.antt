-- ===== src/PathManager/Examples.antt =====
-- The path manager run on two configurations: a camera, and an expression for live paths.
use mediamtx.Base.{
  ℕ, ◌≡◌, refl, ◌≢◌, ◌⊎◌, [], ◌∷◌, none, some, ◌==◌, Bool, true, false, if◌then◌else◌, ◌&&◌,
  is_some, ◌≤◌,
}
use mediamtx.Base.Text.{Text, codes, same, dec_text}
use mediamtx.PathManager.Conf.{
  ConfEntry, Confs, HotFields, lookup, find_path_conf, first_match, is_valid_path_name,
  all_name_chars, is_name_char, last_char,
}
use mediamtx.PathManager.Auth.{
  Access, has_prefix, do_authentication, with_header, check_access, check_address, check_user,
  check, is_sha256, is_argon2,
}
use mediamtx.PathManager.State.{PathRef, create_path, remove_path, erase}
use mediamtx.PathManager.Reload.{
  create_all, create_missing, close_all, reload_entry, reload_entries, do_reload_conf, initialize,
}
use mediamtx.PathManager.Handlers.{
  Env, Request, handle, handle_all, run, reload_conf, close_path, describe, add_reader, do_describe,
  authorize, ensure_path, answer_path,
}
use mediamtx.PathManager.Reloading.{Distinct, stays}
use mediamtx.PathManager.Upkeep.{Good}
use mediamtx.PathManager.Reached.{run-Good}
use mediamtx.PathManager.Search.{IsRight, find_path_conf_lem}
use mediamtx.PathManager.Reloaded.{do_reload_conf-origin, do_reload_conf_complete}
use mediamtx.PathManager.Access.{IsReason, new_path_is_authorized}
use mediamtx.PathManager.Staying.{path_survives}
use mediamtx.PathManager.Replying.{IsServed, handle-IsServed}
use native.Mathlib.Decide.{ℕ_discrete}

abbrev plain : HotFields
plain = record {
  recording = false;
  rpi_camera_brightness = 0;
  rpi_camera_contrast = 0;
  rpi_camera_saturation = 0;
  rpi_camera_sharpness = 0;
  rpi_camera_exposure = 0;
  rpi_camera_awb = 0;
  rpi_camera_awb_gains = 0;
  rpi_camera_denoise = 0;
  rpi_camera_shutter = 0;
  rpi_camera_metering = 0;
  rpi_camera_gain = 0;
  rpi_camera_ev = 0;
  rpi_camera_fps = 0;
  rpi_camera_idr_period = 0;
  rpi_camera_bitrate = 0;
}

-- Anyone publishes, and a password is needed to read.
abbrev guarded : Access
guarded = record {
  publish_user = [];
  publish_pass = [];
  publish_ips = none;
  read_user = codes "ann";
  read_pass = codes "secret";
  read_ips = none;
}

abbrev entry : Bool → ℕ → ConfEntry
entry has_regexp others = record {
  has_regexp = has_regexp;
  access = guarded;
  hot = plain;
  others = others;
}

abbrev cam : Text
cam = codes "cam"

abbrev live : Text
live = codes "~^live"

abbrev live_one : Text
live_one = codes "live1"

abbrev confs : Confs
confs = (cam, entry false 1) ∷ ((live, entry true 2) ∷ [])

abbrev confs_with_live_one : Confs
confs_with_live_one = (live_one, entry false 3) ∷ ((live, entry true 2) ∷ [])

-- Addresses are equal as numbers, and hashes are the text itself.
abbrev env : Env
env = record {
  equal = λ a b. a.others == b.others;
  find_submatch = λ n name. if same n live && has_prefix (codes "live") name then some [] else none;
  auth = record {
    address_equal = λ a b. a == b;
    network_contains = λ n a. false;
    sha256_base64 = λ guess. guess;
    argon2_verify = λ guess hash. same guess hash;
    digest_validate = λ req user pass. false;
    external_allows = λ req. false;
  };
  has_external_url = false;
}

abbrev request : Text → Text → Request
request name pass = record {
  access = record {
    name = name;
    query = [];
    publish = false;
    skip_auth = false;
    address = 0;
    user = codes "ann";
    pass = pass;
    rtsp = none;
  };
  res = 7;
}

confs-Distinct : Distinct confs
unfolding lookup dec_text ℕ_discrete
confs-Distinct = (refl, (refl, tt))

started-Good : Good (run env confs [])
started-Good = run-Good env confs [] confs-Distinct tt

run-Good_example : Good (run env confs (describe (request live_one (codes "secret")) ∷ []))
run-Good_example =
    run-Good env confs (describe (request live_one (codes "secret")) ∷ []) confs-Distinct (tt, tt)

find_path_conf_lem_example :
    IsRight env.find_submatch confs live_one (find_path_conf env.find_submatch confs live_one)
find_path_conf_lem_example = find_path_conf_lem env.find_submatch confs live_one

abbrev live_path : PathRef
live_path = record { pointer = 1; name = live_one; conf_name = live; matches = [] }

new_path_is_authorized_example :
    IsReason env
      (describe (request live_one (codes "secret")))
      (run env confs [])
      live_one
      live_path
unfolding run handle_all initialize create_all create_path handle do_describe authorize
    find_path_conf first_match lookup is_valid_path_name all_name_chars is_name_char last_char
    do_authentication with_header check_access check_address check_user check is_sha256 is_argon2
    has_prefix ensure_path answer_path dec_text ℕ_discrete
new_path_is_authorized_example =
    new_path_is_authorized env (describe (request live_one (codes "secret"))) (run env confs [])
      live_one live_path started-Good refl refl

abbrev cam_path : PathRef
cam_path = record { pointer = 0; name = cam; conf_name = cam; matches = [] }

path_survives_example :
    (handle env (close_path (record cam_path { pointer = 5 })) (run env confs [])).paths cam
    ≡ some cam_path
unfolding run handle_all initialize create_all create_path dec_text ℕ_discrete
path_survives_example =
    path_survives env (close_path (record cam_path { pointer = 5 })) (run env confs []) cam cam_path
      started-Good refl (λ e. cc)

handle-IsServed_example :
    IsServed env (add_reader (request live_one (codes "wrong"))) (run env confs [])
handle-IsServed_example =
    handle-IsServed env (add_reader (request live_one (codes "wrong"))) (run env confs [])

do_reload_conf_complete_example :
    is_some ((do_reload_conf env.equal confs_with_live_one (run env confs [])).paths live_one)
    ≡ true
unfolding lookup dec_text ℕ_discrete
do_reload_conf_complete_example =
    do_reload_conf_complete env.equal confs_with_live_one (run env confs []) live_one
      (entry false 3) refl refl

abbrev new_path : PathRef
new_path = record { pointer = 1; name = live_one; conf_name = live_one; matches = [] }

do_reload_conf-origin_example :
    (((run env confs []).paths live_one ≡ some new_path)
      × (stays env.equal (run env confs []).path_confs confs_with_live_one new_path ≡ true))
    ⊎ ((new_path.conf_name ≡ live_one)
        × ((lookup live_one confs_with_live_one ≢ none)
            × ((run env confs []).next_pointer ≤ new_path.pointer)))
unfolding run handle_all initialize create_all create_path do_reload_conf reload_entries
    reload_entry create_missing close_all remove_path erase lookup dec_text ℕ_discrete
do_reload_conf-origin_example =
    do_reload_conf-origin env.equal confs_with_live_one (run env confs []) live_one new_path
      started-Good.inv started-Good.keys refl

-- A path that an expression made stays with it when a configuration of its own name is added.
reload_leaves_expression :
    (run env confs (
        describe (request live_one (codes "secret"))
        ∷ (reload_conf confs_with_live_one ∷ []))).paths
      live_one
    ≡ some live_path
unfolding run handle_all initialize create_all create_path do_reload_conf reload_entries
    reload_entry create_missing close_all remove_path erase handle do_describe authorize
    find_path_conf first_match lookup is_valid_path_name all_name_chars is_name_char last_char
    do_authentication with_header check_access check_address check_user check is_sha256 is_argon2
    has_prefix ensure_path answer_path dec_text ℕ_discrete
reload_leaves_expression = refl
