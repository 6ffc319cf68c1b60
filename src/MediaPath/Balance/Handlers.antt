-- ===== src/MediaPath/Balance/Handlers.antt =====
-- Every handler keeps the balance of what is opened and closed.
use mediamtx.Base.{
  inl, inr, Bool-cases, ℕ, ◌≡◌, refl, ◌∷◌, arith, true, false, is_some, Option, none, some,
}
use mediamtx.MediaPath.Conf.{PathConf}
use mediamtx.MediaPath.State.{
  MediaPath, Source, DescribeReq, AddReaderReq, AddPublisherReq, StartPublisherReq, SetReadyReq,
  AuthorReq, timed_out, reply, closed, publisher_close, path_not_ready,
}
use mediamtx.MediaPath.Step.{
  emit, set_ready, set_not_ready, on_demand_static_source_start, on_demand_static_source_stop,
  on_demand_publisher_start, on_demand_publisher_stop, start_recording, stop_recording,
  execute_remove_publisher, execute_remove_reader, on_demand_static_source_schedule_close,
  on_demand_publisher_schedule_close,
}
use mediamtx.MediaPath.Handlers.{
  do_on_demand_static_source_ready_timer, do_on_demand_static_source_close_timer,
  do_on_demand_publisher_ready_timer, do_on_demand_publisher_close_timer, do_reload_conf,
  do_source_static_set_ready, do_source_static_set_not_ready, do_describe, do_add_publisher,
  do_remove_publisher, do_start_publisher, do_stop_publisher, do_add_reader, do_remove_reader,
  static_source_started, publisher_started, override_publisher, is_author,
}
use mediamtx.MediaPath.Run.{
  Event, static_source_ready_timer, static_source_close_timer, publisher_ready_timer,
  publisher_close_timer, reload_conf, source_static_set_ready, source_static_set_not_ready,
  describe, add_publisher, remove_publisher, start_publisher, stop_publisher, add_reader,
  remove_reader, handle,
}
use mediamtx.MediaPath.Invariant.{Inv, IsCoherent, Enabled, is_running}
use mediamtx.MediaPath.Life.{IfOk}
use mediamtx.MediaPath.Replies.Handlers.{IfOk-bind, IfOk-if}
use mediamtx.MediaPath.Balance.Ledger.{
  IsBalanced, ledger-close_readers, add_reader_post-IsBalanced, consume_on_hold_requests-IsBalanced,
  fail_on_hold_requests-IsBalanced,
}

pub set_not_ready-IsBalanced :
    (p : MediaPath) → IsBalanced p → is_some p.stream ≡ true → IfOk IsBalanced (set_not_ready p)
unfolding set_not_ready
set_not_ready-IsBalanced p v h =
    ground (arith, ledger-close_readers p.readers (path_not_ready ∷ p.actions))

set_ready-IsBalanced :
    (o : Option ℕ) (p : MediaPath)
    → IsBalanced p
    → IsCoherent p
    → is_some p.stream ≡ false
    → IsBalanced (set_ready o p).0
unfolding set_ready start_recording
set_ready-IsBalanced none p v c h = ground arith
set_ready-IsBalanced (some s) p v c h = ground arith

on_demand_static_source_stop-IsBalanced :
    (p : MediaPath) → IsBalanced p → IfOk IsBalanced (on_demand_static_source_stop p)
unfolding on_demand_static_source_stop
on_demand_static_source_stop-IsBalanced p v = ground arith

on_demand_publisher_stop-IsBalanced :
    (p : MediaPath) → IsBalanced p → IfOk IsBalanced (on_demand_publisher_stop p)
unfolding on_demand_publisher_stop
on_demand_publisher_stop-IsBalanced p v = ground arith

execute_remove_publisher-IsBalanced :
    (p : MediaPath)
    → IsBalanced p
    → is_running p.source ≡ false
    → IfOk (λ q. IsBalanced q × (is_running q.source ≡ false)) (execute_remove_publisher p)
unfolding execute_remove_publisher set_not_ready
execute_remove_publisher-IsBalanced p v h =
    ground (arith, ledger-close_readers p.readers (path_not_ready ∷ p.actions))

timers-IsBalanced :
    (p : MediaPath)
    → IsBalanced p
    → IfOk IsBalanced (do_on_demand_static_source_ready_timer p)
      × IfOk IsBalanced (do_on_demand_publisher_ready_timer p)
      × IfOk IsBalanced (do_on_demand_publisher_close_timer p)
unfolding do_on_demand_static_source_ready_timer do_on_demand_publisher_ready_timer
    do_on_demand_publisher_close_timer on_demand_publisher_stop
timers-IsBalanced p v = (
  on_demand_static_source_stop-IsBalanced _
      (fail_on_hold_requests-IsBalanced timed_out _ (ground arith)),
  on_demand_publisher_stop-IsBalanced _
      (fail_on_hold_requests-IsBalanced timed_out _ (ground arith)),
  ground arith,
)

static_close_timer-IsBalanced :
    (p : MediaPath)
    → IsBalanced p
    → Inv p
    → p.on_demand_static_source_close_timer ≡ true
    → IfOk IsBalanced (do_on_demand_static_source_close_timer p)
unfolding do_on_demand_static_source_close_timer
static_close_timer-IsBalanced p v w h =
    IfOk-bind IsBalanced IsBalanced (set_not_ready _) on_demand_static_source_stop
      (set_not_ready-IsBalanced _ (ground arith) (ground arith))
      on_demand_static_source_stop-IsBalanced

do_reload_conf-IsBalanced :
    (c : PathConf) (p : MediaPath) → IsBalanced p → IfOk IsBalanced (do_reload_conf c p)
unfolding do_reload_conf start_recording stop_recording
do_reload_conf-IsBalanced c p v = ground arith

do_describe-IsBalanced :
    (req : DescribeReq) (p : MediaPath) → IsBalanced p → Inv p → IfOk IsBalanced (do_describe req p)
unfolding do_describe on_demand_static_source_start on_demand_publisher_start
do_describe-IsBalanced req p v w = ground arith

do_add_reader-IsBalanced :
    (req : AddReaderReq) (p : MediaPath)
    → IsBalanced p
    → Inv p
    → IfOk IsBalanced (do_add_reader req p)
unfolding do_add_reader on_demand_static_source_start on_demand_publisher_start
do_add_reader-IsBalanced req p v w = ground (arith, add_reader_post-IsBalanced req p v)

do_remove_reader-IsBalanced :
    (req : AuthorReq) (p : MediaPath) → IsBalanced p → IsBalanced (do_remove_reader req p)
unfolding do_remove_reader execute_remove_reader on_demand_static_source_schedule_close
    on_demand_publisher_schedule_close
do_remove_reader-IsBalanced req p v = ground arith

emit-IsBalanced : (p : MediaPath) (a : ℕ) → IsBalanced p → IsBalanced (emit (publisher_close a) p)
emit-IsBalanced p a v = ground arith

override_publisher-IsBalanced :
    (s : Option Source) (req : AddPublisherReq) (p : MediaPath)
    → p.source ≡ s
    → IsBalanced p
    → IfOk IsBalanced (override_publisher s req p)
unfolding override_publisher
override_publisher-IsBalanced none req p e v = ground arith
override_publisher-IsBalanced (some (Source.publisher a)) req p e v =
    IfOk-if IsBalanced p.conf.override_publisher _ _
      (IfOk-bind (λ q. IsBalanced q × (is_running q.source ≡ false)) _
        (execute_remove_publisher (emit (publisher_close a) p)) _
        (execute_remove_publisher-IsBalanced (emit (publisher_close a) p) (emit-IsBalanced p a v)
          (rw e))
        (λ q w. ground arith))
      (ground arith)
override_publisher-IsBalanced (some _) req p e v = ground arith

do_add_publisher-IsBalanced :
    (req : AddPublisherReq) (p : MediaPath)
    → IsBalanced p
    → IfOk IsBalanced (do_add_publisher req p)
unfolding do_add_publisher
do_add_publisher-IsBalanced req p v =
    ground (arith, override_publisher-IsBalanced p.source req p refl v)

do_remove_publisher-IsBalanced :
    (req : AuthorReq) (p : MediaPath) → IsBalanced p → IfOk IsBalanced (do_remove_publisher req p)
unfolding do_remove_publisher
do_remove_publisher-IsBalanced req p v = ground (arith, execute_remove_publisher-IsBalanced p v)

do_stop_publisher-IsBalanced :
    (req : AuthorReq) (p : MediaPath) → IsBalanced p → IfOk IsBalanced (do_stop_publisher req p)
unfolding do_stop_publisher
do_stop_publisher-IsBalanced req p v = ground (arith, set_not_ready-IsBalanced p v)

closed-IsBalanced :
    (p : MediaPath) (res : ℕ) → IsBalanced p → IsBalanced (emit (reply res closed) p)
closed-IsBalanced p res v = ground arith

do_source_static_set_not_ready-IsBalanced :
    (res : ℕ) (p : MediaPath)
    → IsBalanced p
    → is_some p.stream ≡ true
    → IfOk IsBalanced (do_source_static_set_not_ready res p)
unfolding do_source_static_set_not_ready
do_source_static_set_not_ready-IsBalanced res p v h =
    IfOk-bind IsBalanced IsBalanced (set_not_ready p) _ (set_not_ready-IsBalanced p v h) λ q w.
      ground (
        arith,
        closed-IsBalanced q res w,
        on_demand_static_source_stop-IsBalanced (emit (reply res closed) q),
      )

started-IsBalanced :
    (p : MediaPath)
    → IsBalanced p
    → IsBalanced (static_source_started p) × IsBalanced (publisher_started p)
unfolding static_source_started publisher_started on_demand_static_source_schedule_close
    on_demand_publisher_schedule_close
started-IsBalanced p v = ground arith

do_source_static_set_ready-IsBalanced :
    (req : SetReadyReq) (p : MediaPath)
    → IsBalanced p
    → IsCoherent p
    → is_some p.stream ≡ false
    → IfOk IsBalanced (do_source_static_set_ready req p)
unfolding do_source_static_set_ready
do_source_static_set_ready-IsBalanced req p v c h =
    let q : MediaPath = (set_ready req.new_stream p).0 in
    let w : IsBalanced q = set_ready-IsBalanced req.new_stream p v c h in
    ground (
      arith,
      consume_on_hold_requests-IsBalanced (static_source_started q) (started-IsBalanced q w).0,
    )

do_start_publisher-IsBalanced :
    (req : StartPublisherReq) (p : MediaPath)
    → IsBalanced p
    → IsCoherent p
    → (is_author p.source req.author ≡ true → is_some p.stream ≡ false)
    → IfOk IsBalanced (do_start_publisher req p)
unfolding do_start_publisher
do_start_publisher-IsBalanced req p v c h = elim (Bool-cases (is_author p.source req.author)) [
  | inl e ↦
      let q : MediaPath = (set_ready req.new_stream p).0 in
      let w : IsBalanced q = set_ready-IsBalanced req.new_stream p v c (h e) in
      rw e (
        ground (
          arith,
          consume_on_hold_requests-IsBalanced (publisher_started q) (started-IsBalanced q w).1,
        ))
  | inr e ↦ rw e (ground arith)
]

-- From a good state an event that is allowed keeps the balance.
pub handle-IsBalanced :
    (e : Event) (p : MediaPath) → IsBalanced p → Inv p → Enabled e p → IfOk IsBalanced (handle e p)
unfolding handle
handle-IsBalanced static_source_ready_timer p v w h = (timers-IsBalanced p v).0
handle-IsBalanced static_source_close_timer p v w h = static_close_timer-IsBalanced p v w h
handle-IsBalanced publisher_ready_timer p v w h = (timers-IsBalanced p v).1
handle-IsBalanced publisher_close_timer p v w h = (timers-IsBalanced p v).2
handle-IsBalanced (reload_conf c) p v w h = do_reload_conf-IsBalanced c p v
handle-IsBalanced (source_static_set_ready req) p v w h =
    do_source_static_set_ready-IsBalanced req p v w.coherent h.1
handle-IsBalanced (source_static_set_not_ready res) p v w h =
    do_source_static_set_not_ready-IsBalanced res p v h.1
handle-IsBalanced (describe req) p v w h = do_describe-IsBalanced req p v w
handle-IsBalanced (add_publisher req) p v w h = do_add_publisher-IsBalanced req p v
handle-IsBalanced (remove_publisher req) p v w h = do_remove_publisher-IsBalanced req p v
handle-IsBalanced (start_publisher req) p v w h = do_start_publisher-IsBalanced req p v w.coherent h
handle-IsBalanced (stop_publisher req) p v w h = do_stop_publisher-IsBalanced req p v
handle-IsBalanced (add_reader req) p v w h = do_add_reader-IsBalanced req p v w
handle-IsBalanced (remove_reader req) p v w h = do_remove_reader-IsBalanced req p v
