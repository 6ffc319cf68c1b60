-- ===== src/MediaPath/Limits.antt =====
-- internal/core/path.go: the limit on readers (`maxReaders`).
use mediamtx.Base.{
  ap, ℕ, ◌≡◌, ◌≤◌, arith, true, List, [], ◌∷◌, Option, none, some, length, ◌==◌, leb, ◌||◌,
}
use mediamtx.MediaPath.Conf.{PathConf}
use mediamtx.MediaPath.State.{MediaPath, AddReaderReq}
use mediamtx.MediaPath.Step.{
  set_ready, set_not_ready, on_demand_static_source_start, on_demand_static_source_stop,
  on_demand_publisher_start, on_demand_publisher_stop, start_recording, stop_recording, remove,
  execute_remove_publisher, execute_remove_reader, on_demand_static_source_schedule_close,
  on_demand_publisher_schedule_close, fail_on_hold_requests, consume_on_hold_requests,
  add_reader_post, add_readers_post,
}
use mediamtx.MediaPath.Handlers.{
  do_on_demand_static_source_ready_timer, do_on_demand_static_source_close_timer,
  do_on_demand_publisher_ready_timer, do_on_demand_publisher_close_timer, do_reload_conf,
  do_source_static_set_ready, do_source_static_set_not_ready, do_describe, do_add_publisher,
  do_remove_publisher, do_start_publisher, do_stop_publisher, do_add_reader, do_remove_reader,
  static_source_started, publisher_started,
}
use mediamtx.MediaPath.Run.{
  Event, static_source_ready_timer, static_source_close_timer, publisher_ready_timer,
  publisher_close_timer, reload_conf, source_static_set_ready, source_static_set_not_ready,
  describe, add_publisher, remove_publisher, start_publisher, stop_publisher, add_reader,
  remove_reader, handle,
}
use mediamtx.MediaPath.Invariant.{Enabled}
use mediamtx.MediaPath.Life.{IfOk}

-- `maxReaders` is 0 for no limit.
abbrev pub IsWithin : MediaPath → Type 0
IsWithin p = (p.conf.max_readers == 0 || leb (length p.readers) p.conf.max_readers) ≡ true

length-remove_le : (r : ℕ) (rs : List ℕ) → length (remove r rs) ≤ length rs
unfolding remove
length-remove_le r [] = omega arith
length-remove_le r (x ∷ xs) = ground (arith, length-remove_le r xs)

add_reader_post-IsWithin :
    (req : AddReaderReq) (p : MediaPath) → IsWithin p → IsWithin (add_reader_post req p)
unfolding add_reader_post
add_reader_post-IsWithin req p v = ground arith

add_readers_post-IsWithin :
    (reqs : List AddReaderReq) (p : MediaPath) → IsWithin p → IsWithin (add_readers_post reqs p)
unfolding add_readers_post
add_readers_post-IsWithin [] p v = v
add_readers_post-IsWithin (req ∷ reqs) p v =
    add_readers_post-IsWithin reqs (add_reader_post req p) (add_reader_post-IsWithin req p v)

consume_on_hold_requests-IsWithin :
    (p : MediaPath) → IsWithin p → IsWithin (consume_on_hold_requests p)
unfolding consume_on_hold_requests
consume_on_hold_requests-IsWithin p v = add_readers_post-IsWithin p.reader_add_requests_on_hold _ v

started-IsWithin :
    (o : Option ℕ) (p : MediaPath)
    → IsWithin p
    → IsWithin (static_source_started (set_ready o p).0)
      × IsWithin (publisher_started (set_ready o p).0)
      × IsWithin (set_ready o p).0
unfolding static_source_started publisher_started set_ready start_recording
    on_demand_static_source_schedule_close on_demand_publisher_schedule_close
started-IsWithin none p v = ground arith
started-IsWithin (some s) p v = ground arith

-- If the readers of a path are within the limit, where there is one, they are so after the handler
-- of any event that is allowed.
pub handle-IsWithin :
    (e : Event) (p : MediaPath) → Enabled e p → IsWithin p → IfOk IsWithin (handle e p)
unfolding handle
handle-IsWithin static_source_ready_timer p k v =
    unfold do_on_demand_static_source_ready_timer on_demand_static_source_stop
      fail_on_hold_requests in
    ground arith
handle-IsWithin static_source_close_timer p k v =
    unfold do_on_demand_static_source_close_timer on_demand_static_source_stop set_not_ready in
    ground arith
handle-IsWithin publisher_ready_timer p k v =
    unfold do_on_demand_publisher_ready_timer on_demand_publisher_stop fail_on_hold_requests in
    ground arith
handle-IsWithin publisher_close_timer p k v =
    unfold do_on_demand_publisher_close_timer on_demand_publisher_stop in ground arith
handle-IsWithin (reload_conf c) p k v =
    unfold do_reload_conf start_recording stop_recording in
    ground (arith, ap (λ (d : PathConf). d.max_readers) k)
handle-IsWithin (source_static_set_ready req) p k v =
    unfold do_source_static_set_ready in
    ground (
      arith,
      started-IsWithin req.new_stream p v,
      consume_on_hold_requests-IsWithin (static_source_started (set_ready req.new_stream p).0),
    )
handle-IsWithin (source_static_set_not_ready res) p k v =
    unfold do_source_static_set_not_ready set_not_ready on_demand_static_source_stop in ground arith
handle-IsWithin (describe req) p k v =
    unfold do_describe on_demand_static_source_start on_demand_publisher_start in ground arith
handle-IsWithin (add_publisher req) p k v =
    unfold do_add_publisher execute_remove_publisher set_not_ready in ground arith
handle-IsWithin (remove_publisher req) p k v =
    unfold do_remove_publisher execute_remove_publisher set_not_ready in ground arith
handle-IsWithin (start_publisher req) p k v =
    unfold do_start_publisher in
    ground (
      arith,
      started-IsWithin req.new_stream p v,
      consume_on_hold_requests-IsWithin (publisher_started (set_ready req.new_stream p).0),
    )
handle-IsWithin (stop_publisher req) p k v = unfold do_stop_publisher set_not_ready in ground arith
handle-IsWithin (add_reader req) p k v =
    unfold do_add_reader on_demand_static_source_start on_demand_publisher_start in
    ground (arith, add_reader_post-IsWithin req p v)
handle-IsWithin (remove_reader req) p k v =
    unfold do_remove_reader execute_remove_reader on_demand_static_source_schedule_close
      on_demand_publisher_schedule_close in
    ground (arith, length-remove_le req.author p.readers)
