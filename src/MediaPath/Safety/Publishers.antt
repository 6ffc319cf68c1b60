-- ===== src/MediaPath/Safety/Publishers.antt =====
-- The handlers for publishers.
use mediamtx.Base.{ℕ, true, false, Option, none, some, ◌≡◌, inl, inr, arith, is_some, Bool-cases}
use mediamtx.MediaPath.Conf.{has_on_demand_static_source}
use mediamtx.MediaPath.State.{Source, MediaPath, AuthorReq, AddPublisherReq, StartPublisherReq}
use mediamtx.MediaPath.Step.{
  set_ready, set_not_ready, on_demand_publisher_schedule_close, execute_remove_publisher,
}
use mediamtx.MediaPath.Handlers.{
  publisher_started, is_author, do_remove_publisher, do_stop_publisher, do_add_publisher,
  do_start_publisher,
}
use mediamtx.MediaPath.Invariant.{Inv, IsCoherent, Ensures, is_publisher}
use mediamtx.MediaPath.Safety.OnHold.{consume_on_hold_requests-Inv, emit-Inv, set_ready-none-Inv}

pub is_author_publisher : (s : Option Source) (a : ℕ) → is_author s a ≡ true → is_publisher s ≡ true
is_author_publisher s a h = ground arith

pub publisher_started-IsCoherent :
    (s : ℕ) (p : MediaPath)
    → IsCoherent p
    → is_publisher p.source ≡ true
    → is_some p.stream ≡ false
    → IsCoherent (publisher_started (set_ready (some s) p).0)
unfolding publisher_started set_ready on_demand_publisher_schedule_close has_on_demand_static_source
publisher_started-IsCoherent s p v h n = ground arith

pub publisher_started_stream :
    (s : ℕ) (p : MediaPath) → (publisher_started (set_ready (some s) p).0).stream ≡ some s
unfolding publisher_started set_ready on_demand_publisher_schedule_close
publisher_started_stream s p = ground arith

pub assigned_cases :
    (o : Option ℕ) (res author : ℕ) (p : MediaPath)
    → Inv p
    → is_author p.source author ≡ true
    → is_some p.stream ≡ false
    → Ensures Inv (do_start_publisher (record { res = res; author = author; new_stream = o }) p)
unfolding do_start_publisher set_ready
assigned_cases none res author p v h n =
    rw h (emit-Inv _ _ (unfold set_ready in set_ready-none-Inv p v n))
assigned_cases (some s) res author p v h n = rw h (
    emit-Inv _ _ (
      consume_on_hold_requests-Inv (publisher_started (set_ready (some s) p).0)
        (publisher_started-IsCoherent s p v.coherent (is_author_publisher p.source author h) n)
        (rw (publisher_started_stream s p))))

pub do_start_publisher-Inv :
    (req : StartPublisherReq) (p : MediaPath)
    → Inv p
    → (is_author p.source req.author ≡ true → is_some p.stream ≡ false)
    → Ensures Inv (do_start_publisher req p)
do_start_publisher-Inv req p v n = elim (Bool-cases (is_author p.source req.author)) [
  | inl e ↦ assigned_cases req.new_stream req.res req.author p v e (n e)
  | inr e ↦ unfold do_start_publisher in rw e (emit-Inv _ p v)
]

pub do_remove_publisher-Inv :
    (req : AuthorReq) (p : MediaPath) → Inv p → Ensures Inv (do_remove_publisher req p)
unfolding do_remove_publisher execute_remove_publisher set_not_ready has_on_demand_static_source
do_remove_publisher-Inv req p v = ground arith

pub do_stop_publisher-Inv :
    (req : AuthorReq) (p : MediaPath) → Inv p → Ensures Inv (do_stop_publisher req p)
unfolding do_stop_publisher set_not_ready has_on_demand_static_source
do_stop_publisher-Inv req p v = ground arith

pub do_add_publisher-Inv :
    (req : AddPublisherReq) (p : MediaPath) → Inv p → Ensures Inv (do_add_publisher req p)
unfolding do_add_publisher execute_remove_publisher set_not_ready has_on_demand_static_source
do_add_publisher-Inv req p v = ground arith
