-- ===== src/PathManager/Reached.antt =====
-- The loop of internal/core/path_manager.go from its start.
use mediamtx.Base.{
  ◌≡◌, refl, ap, ◌≢◌, arith, List, [], ◌∷◌, none, Bool, true, false, if◌then◌else◌, not,
}
use mediamtx.Base.Text.{Text}
use mediamtx.PathManager.Conf.{ConfEntry, Confs, lookup}
use mediamtx.PathManager.State.{PathManager, create_path}
use mediamtx.PathManager.Reload.{create_all, initialize}
use mediamtx.PathManager.Handlers.{Env, Event, handle, handle_all, run}
use mediamtx.PathManager.Reloading.{Distinct}
use mediamtx.PathManager.Upkeep.{Good, IsAllowed, create_path-Good}
use mediamtx.PathManager.Running.{handle-Good}

lookup-tail :
    (k n : Text) (c : ConfEntry) (confs : Confs)
    → lookup n confs ≡ none
    → lookup k confs ≢ none
    → (n ≢ k) × (lookup k ((n, c) ∷ confs) ≢ none)
unfolding lookup
lookup-tail k n c confs fresh h = ground (arith, ap (λ m. lookup m confs) {x = n} {y = k})

lookup-head : (n : Text) (c : ConfEntry) (confs : Confs) → lookup n ((n, c) ∷ confs) ≢ none
unfolding lookup
lookup-head n c confs h = ground arith

-- The names that are still to come have no path and a configuration.
abbrev IsAhead : Confs → PathManager → Type 0
IsAhead confs pm =
    (k : Text) → lookup k confs ≢ none → (pm.paths k ≡ none) × (lookup k pm.path_confs ≢ none)

create_path-IsAhead :
    (n : Text) (c : ConfEntry) (confs : Confs) (pm : PathManager)
    → lookup n confs ≡ none
    → IsAhead ((n, c) ∷ confs) pm
    → IsAhead confs (create_path n c n [] pm)
unfolding create_path
create_path-IsAhead n c confs pm fresh ahead k h =
    ground (arith, lookup-tail k n c confs fresh h, ahead k)

create_if-Good :
    (b : Bool) (n : Text) (c : ConfEntry) (confs : Confs) (pm : PathManager)
    → Good pm
    → lookup n confs ≡ none
    → IsAhead ((n, c) ∷ confs) pm
    → Good (if b then create_path n c n [] pm else pm)
      × IsAhead confs (if b then create_path n c n [] pm else pm)
create_if-Good true n c confs pm g fresh ahead =
    let (free, known) = ahead n (lookup-head n c confs) in
    (create_path-Good n c n [] pm g free known, create_path-IsAhead n c confs pm fresh ahead)
create_if-Good false n c confs pm g fresh ahead =
    (g, λ k h. let (u, l) = lookup-tail k n c confs fresh h in ahead k l)

create_all-Good :
    (confs : Confs) (pm : PathManager)
    → Good pm
    → Distinct confs
    → IsAhead confs pm
    → Good (create_all confs pm)
unfolding create_all
create_all-Good [] pm g d ahead = g
create_all-Good ((n, c) ∷ confs) pm g (fresh, d) ahead =
    let (g', ahead') = create_if-Good (not c.has_regexp) n c confs pm g fresh ahead in
    create_all-Good confs (if not c.has_regexp then create_path n c n [] pm else pm) g' d ahead'

initialize-Good : (confs : Confs) → Distinct confs → Good (initialize confs)
unfolding initialize
initialize-Good confs d =
    create_all-Good confs _
      (record {
        inv = record {
          named = λ n x e. cc;
          indexed = λ n x e. cc;
          registered = λ c x h. absurd h;
          below = λ n x e. cc;
          distinct = λ n m x y e e' p. cc;
        };
        configured = λ n x e. cc;
        keys = d;
      })
      d (λ k h. (refl, h))

module _ (env : Env) where
  -- Each event is allowed when it comes.
  abbrev pub AreAllowed : List Event → PathManager → Type 0
  AreAllowed [] pm = Unit
  AreAllowed (e ∷ es) pm = IsAllowed e pm × AreAllowed es (handle env e pm)

  handle_all-Good :
      (es : List Event) (pm : PathManager)
      → Good pm
      → AreAllowed es pm
      → Good (handle_all env es pm)
  unfolding handle_all
  handle_all-Good [] pm g a = g
  handle_all-Good (e ∷ es) pm g (a, more) =
      handle_all-Good es (handle env e pm) (handle-Good env e pm g a) more

  -- From the start of the path manager, after any events that are allowed when they come, each path
  -- stands under its own name and in the set of its own configuration and nowhere else, no two
  -- paths are one object, and each has a configuration that is in use.
  pub run-Good :
      (confs : Confs) (es : List Event)
      → Distinct confs
      → AreAllowed es (initialize confs)
      → Good (run env confs es)
  unfolding run
  run-Good confs es d a = handle_all-Good es (initialize confs) (initialize-Good confs d) a
