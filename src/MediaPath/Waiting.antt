-- ===== src/MediaPath/Waiting.antt =====
-- internal/core/path.go: who waits for a stream, and for how long.
use mediamtx.Base.{◌≡◌, arith, true, false, List, ◌∷◌}
use mediamtx.MediaPath.Conf.{PathConf, has_on_demand_static_source}
use mediamtx.MediaPath.State.{MediaPath, Outcome, initial, ◌>>=◌, ok, panic, on_un_demand}
use mediamtx.MediaPath.Step.{on_demand_publisher_stop}
use mediamtx.MediaPath.Handlers.{do_on_demand_publisher_close_timer}
use mediamtx.MediaPath.Run.{Event, start, run_inner}
use mediamtx.MediaPath.Invariant.{ConfIsValid, Inv, Ensures, holds_nothing, is_running}
use mediamtx.MediaPath.Life.{IfOk, Allowed, start-Inv, run_inner-Inv}

-- Someone is on hold, so the source runs and the timer that will answer runs.
abbrev pub IsAttended : MediaPath → Type 0
IsAttended p =
    has_on_demand_static_source p.conf ≡ true
    → holds_nothing p ≡ false
    → (p.on_demand_static_source_ready_timer ≡ true) × (is_running p.source ≡ true)

Inv-IsAttended : (p : MediaPath) → Inv p → IsAttended p
unfolding has_on_demand_static_source
Inv-IsAttended p v = ground arith

-- Allowed events lead from the start to good states only.
pub reached-Inv :
    (c : PathConf) (es : List Event)
    → ConfIsValid c
    → IfOk (Allowed es) (start c)
    → Ensures Inv (start c >>= run_inner es)
reached-Inv c es v a = go (start c) (start-Inv c v) a
  where
    go :
        (m : Outcome MediaPath)
        → Ensures Inv m
        → IfOk (Allowed es) m
        → Ensures Inv (m >>= run_inner es)
    go (ok p) w k = run_inner-Inv es p w k
    go panic w k = w

-- After any allowed events, if a path with an on-demand static source has a request on hold, its
-- source runs and its ready timer runs.
pub reached-IsAttended :
    (c : PathConf) (es : List Event)
    → ConfIsValid c
    → IfOk (Allowed es) (start c)
    → Ensures IsAttended (start c >>= run_inner es)
reached-IsAttended c es v a = weaken (start c >>= run_inner es) (reached-Inv c es v a)
  where
    weaken : (m : Outcome MediaPath) → Ensures Inv m → Ensures IsAttended m
    weaken (ok q) w = Inv-IsAttended q w
    weaken panic w = w

-- When the close timer of an on-demand publisher fires in a state that satisfies the invariant,
-- while requests are on hold, they all stay on hold, the only thing that is done is to stop the
-- command, so none is answered, and no timer of the path runs any more.
pub publisher_close_timer_strands :
    (p : MediaPath)
    → Inv p
    → p.on_demand_publisher_close_timer ≡ true
    → holds_nothing p ≡ false
    → Ensures
        (λ q.
          (q.actions ≡ on_un_demand ∷ p.actions)
          × (q.describe_requests_on_hold ≡ p.describe_requests_on_hold)
          × (q.reader_add_requests_on_hold ≡ p.reader_add_requests_on_hold)
          × (q.on_demand_publisher_state ≡ initial)
          × (q.on_un_demand_hook ≡ false)
          × (q.on_demand_publisher_ready_timer ≡ false)
          × (q.on_demand_publisher_close_timer ≡ false)
          × (q.on_demand_static_source_ready_timer ≡ false)
          × (q.on_demand_static_source_close_timer ≡ false))
        (do_on_demand_publisher_close_timer p)
unfolding do_on_demand_publisher_close_timer on_demand_publisher_stop has_on_demand_static_source
publisher_close_timer_strands p v h w = ground arith
