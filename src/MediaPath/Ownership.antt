-- ===== src/MediaPath/Ownership.antt =====
-- internal/core/path.go: a path belongs to the publisher that it was assigned to.
use mediamtx.Base.{ℕ, ◌≡◌, refl, ◌∙◌, arith, Bool, false, List, [], ◌∷◌, Option, none, some, ◌==◌}
use mediamtx.MediaPath.State.{MediaPath, publisher, AddReaderReq}
use mediamtx.MediaPath.Step.{
  set_ready, set_not_ready, on_demand_static_source_start, on_demand_static_source_stop,
  on_demand_publisher_start, on_demand_publisher_stop, start_recording, stop_recording,
  execute_remove_reader, on_demand_static_source_schedule_close, on_demand_publisher_schedule_close,
  fail_on_hold_requests, consume_on_hold_requests, add_reader_post, add_readers_post,
}
use mediamtx.MediaPath.Handlers.{
  do_on_demand_static_source_ready_timer, do_on_demand_static_source_close_timer,
  do_on_demand_publisher_ready_timer, do_on_demand_publisher_close_timer, do_reload_conf,
  do_source_static_set_ready, do_source_static_set_not_ready, do_describe, do_add_publisher,
  do_remove_publisher, do_start_publisher, do_stop_publisher, do_add_reader, do_remove_reader,
  static_source_started, publisher_started, override_publisher,
}
use mediamtx.MediaPath.Run.{
  Event, static_source_ready_timer, static_source_close_timer, publisher_ready_timer,
  publisher_close_timer, reload_conf, source_static_set_ready, source_static_set_not_ready,
  describe, add_publisher, remove_publisher, start_publisher, stop_publisher, add_reader,
  remove_reader, handle,
}
use mediamtx.MediaPath.Life.{IfOk}

-- The event may take the path from its publisher: the publisher leaves, or another one may
-- override it.
abbrev pub may_replace : Event → ℕ → MediaPath → Bool
may_replace (remove_publisher req) a p = a == req.author
may_replace (add_publisher req) a p = p.conf.override_publisher
may_replace _ a p = false

add_reader_post_source :
    (req : AddReaderReq) (p : MediaPath) → (add_reader_post req p).source ≡ p.source
unfolding add_reader_post
add_reader_post_source req p = ground arith

add_readers_post_source :
    (reqs : List AddReaderReq) (p : MediaPath) → (add_readers_post reqs p).source ≡ p.source
unfolding add_readers_post
add_readers_post_source [] p = refl
add_readers_post_source (req ∷ reqs) p =
    add_readers_post_source reqs (add_reader_post req p) ∙ add_reader_post_source req p

consumed_source : (p : MediaPath) → (consume_on_hold_requests p).source ≡ p.source
unfolding consume_on_hold_requests
consumed_source p = add_readers_post_source p.reader_add_requests_on_hold _

started_source :
    (o : Option ℕ) (p : MediaPath)
    → ((static_source_started (set_ready o p).0).source ≡ p.source)
      × ((publisher_started (set_ready o p).0).source ≡ p.source)
      × ((set_ready o p).0.source ≡ p.source)
unfolding static_source_started publisher_started set_ready start_recording
    on_demand_static_source_schedule_close on_demand_publisher_schedule_close
started_source none p = ground arith
started_source (some s) p = ground arith

-- While a publisher is assigned to the path, it stays so through every handler that ends, but that
-- of its own removal, and that of another publisher where `overridePublisher` is set.
pub handle_keeps_publisher :
    (e : Event) (p : MediaPath) (a : ℕ)
    → p.source ≡ some (publisher a)
    → may_replace e a p ≡ false
    → IfOk (λ q. q.source ≡ some (publisher a)) (handle e p)
unfolding handle
handle_keeps_publisher static_source_ready_timer p a h k =
    unfold do_on_demand_static_source_ready_timer on_demand_static_source_stop
      fail_on_hold_requests in
    ground arith
handle_keeps_publisher static_source_close_timer p a h k =
    unfold do_on_demand_static_source_close_timer on_demand_static_source_stop set_not_ready in
    ground arith
handle_keeps_publisher publisher_ready_timer p a h k =
    unfold do_on_demand_publisher_ready_timer on_demand_publisher_stop fail_on_hold_requests in
    ground arith
handle_keeps_publisher publisher_close_timer p a h k =
    unfold do_on_demand_publisher_close_timer on_demand_publisher_stop in ground arith
handle_keeps_publisher (reload_conf c) p a h k =
    unfold do_reload_conf start_recording stop_recording in ground arith
handle_keeps_publisher (source_static_set_ready req) p a h k =
    unfold do_source_static_set_ready in
    ground (
      arith,
      started_source req.new_stream p,
      consumed_source (static_source_started (set_ready req.new_stream p).0),
    )
handle_keeps_publisher (source_static_set_not_ready res) p a h k =
    unfold do_source_static_set_not_ready set_not_ready on_demand_static_source_stop in ground arith
handle_keeps_publisher (describe req) p a h k =
    unfold do_describe on_demand_static_source_start on_demand_publisher_start in ground arith
handle_keeps_publisher (add_publisher req) p a h k =
    unfold do_add_publisher override_publisher in ground arith
handle_keeps_publisher (remove_publisher req) p a h k = unfold do_remove_publisher in ground arith
handle_keeps_publisher (start_publisher req) p a h k =
    unfold do_start_publisher in
    ground (
      arith,
      started_source req.new_stream p,
      consumed_source (publisher_started (set_ready req.new_stream p).0),
    )
handle_keeps_publisher (stop_publisher req) p a h k =
    unfold do_stop_publisher set_not_ready in ground arith
handle_keeps_publisher (add_reader req) p a h k =
    unfold do_add_reader on_demand_static_source_start on_demand_publisher_start in
    ground (arith, add_reader_post_source req p)
handle_keeps_publisher (remove_reader req) p a h k =
    unfold do_remove_reader execute_remove_reader on_demand_static_source_schedule_close
      on_demand_publisher_schedule_close in
    ground arith
