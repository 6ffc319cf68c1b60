-- ===== src/MediaPath/Safety.antt =====
-- internal/core/path.go: no event makes a path panic, and every event keeps the invariant.
pub mod OnHold
pub mod Timers
pub mod Static
pub mod Publishers
pub mod Readers
use mediamtx.Base.{Bool, true, false, List, [], ◌∷◌, ◌≡◌}
use mediamtx.MediaPath.State.{MediaPath}
use mediamtx.MediaPath.Run.{
  Event, static_source_ready_timer, static_source_close_timer, publisher_ready_timer,
  publisher_close_timer, reload_conf, source_static_set_ready, source_static_set_not_ready,
  describe, add_publisher, remove_publisher, start_publisher, stop_publisher, add_reader,
  remove_reader, handle,
}
use mediamtx.MediaPath.Invariant.{Inv, Enabled, Ensures}
use Timers.{
  static_source_ready_timer-Inv, static_source_close_timer-Inv, publisher_ready_timer-Inv,
  publisher_close_timer-Inv,
}
use Static.{do_reload_conf-Inv, do_source_static_set_ready-Inv, do_source_static_set_not_ready-Inv}
use Publishers.{
  do_add_publisher-Inv, do_remove_publisher-Inv, do_start_publisher-Inv, do_stop_publisher-Inv,
}
use Readers.{do_describe-Inv, do_add_reader-Inv, do_remove_reader-Inv}

-- In a state that satisfies the invariant, the handler of every event that the environment may
-- send ends without a panic, in a state that satisfies the invariant.
pub handle-Inv : (e : Event) (p : MediaPath) → Inv p → Enabled e p → Ensures Inv (handle e p)
unfolding handle
handle-Inv static_source_ready_timer p v h = static_source_ready_timer-Inv p v h
handle-Inv static_source_close_timer p v h = static_source_close_timer-Inv p v h
handle-Inv publisher_ready_timer p v h = publisher_ready_timer-Inv p v h
handle-Inv publisher_close_timer p v h = publisher_close_timer-Inv p v h
handle-Inv (reload_conf c) p v h = do_reload_conf-Inv c p v h
handle-Inv (source_static_set_ready req) p v h = do_source_static_set_ready-Inv req p v h.0 h.1
handle-Inv (source_static_set_not_ready res) p v h =
    do_source_static_set_not_ready-Inv res p v h.0 h.1
handle-Inv (describe req) p v h = do_describe-Inv req p v h
handle-Inv (add_publisher req) p v h = do_add_publisher-Inv req p v
handle-Inv (remove_publisher req) p v h = do_remove_publisher-Inv req p v
handle-Inv (start_publisher req) p v h = do_start_publisher-Inv req p v h
handle-Inv (stop_publisher req) p v h = do_stop_publisher-Inv req p v
handle-Inv (add_reader req) p v h = do_add_reader-Inv req p v
handle-Inv (remove_reader req) p v h = do_remove_reader-Inv req p v
