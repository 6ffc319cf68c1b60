-- ===== src/MediaPath/Safety/Timers.antt =====
-- The four timers of a path.
use mediamtx.Base.{true, ◌≡◌, arith}
use mediamtx.MediaPath.Conf.{has_on_demand_static_source}
use mediamtx.MediaPath.State.{MediaPath}
use mediamtx.MediaPath.Step.{
  set_not_ready, on_demand_static_source_stop, on_demand_publisher_stop, fail_on_hold_requests,
}
use mediamtx.MediaPath.Handlers.{
  do_on_demand_static_source_ready_timer, do_on_demand_static_source_close_timer,
  do_on_demand_publisher_ready_timer, do_on_demand_publisher_close_timer,
}
use mediamtx.MediaPath.Invariant.{Inv, Ensures}

pub publisher_close_timer-Inv :
    (p : MediaPath)
    → Inv p
    → p.on_demand_publisher_close_timer ≡ true
    → Ensures Inv (do_on_demand_publisher_close_timer p)
unfolding do_on_demand_publisher_close_timer on_demand_publisher_stop
publisher_close_timer-Inv p v h = ground arith

pub publisher_ready_timer-Inv :
    (p : MediaPath)
    → Inv p
    → p.on_demand_publisher_ready_timer ≡ true
    → Ensures Inv (do_on_demand_publisher_ready_timer p)
unfolding do_on_demand_publisher_ready_timer on_demand_publisher_stop fail_on_hold_requests
publisher_ready_timer-Inv p v h = ground arith

pub static_source_ready_timer-Inv :
    (p : MediaPath)
    → Inv p
    → p.on_demand_static_source_ready_timer ≡ true
    → Ensures Inv (do_on_demand_static_source_ready_timer p)
unfolding do_on_demand_static_source_ready_timer on_demand_static_source_stop fail_on_hold_requests
    has_on_demand_static_source
static_source_ready_timer-Inv p v h = ground arith

pub static_source_close_timer-Inv :
    (p : MediaPath)
    → Inv p
    → p.on_demand_static_source_close_timer ≡ true
    → Ensures Inv (do_on_demand_static_source_close_timer p)
unfolding do_on_demand_static_source_close_timer on_demand_static_source_stop set_not_ready
    has_on_demand_static_source
static_source_close_timer-Inv p v h = ground arith
