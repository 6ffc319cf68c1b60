-- ===== src/MediaPath/Run.antt =====
-- internal/core/path.go: `run` and `runInner`, the life of a path from its creation to its end.
use mediamtx.Base.{
  ℕ, Bool, true, false, Option, none, some, List, [], ◌∷◌, ◌&&◌, ◌||◌, not, if◌then◌else◌, is_some,
}
use mediamtx.MediaPath.Conf.{PathConf, has_static_source}
use mediamtx.MediaPath.State.{
  initial, Source, source_redirect, static_source_handler, publisher, terminated, close_path,
  publisher_close, on_init, on_un_init, on_un_demand, DescribeReq, AddReaderReq, AddPublisherReq,
  StartPublisherReq, SetReadyReq, AuthorReq, MediaPath, Outcome, ok, ◌>>=◌,
}
use mediamtx.MediaPath.Step.{
  is_initial, emit, should_close, start_source, stop_source, set_not_ready, fail_on_hold_requests,
}
use mediamtx.MediaPath.Handlers.{
  do_on_demand_static_source_ready_timer, do_on_demand_static_source_close_timer,
  do_on_demand_publisher_ready_timer, do_on_demand_publisher_close_timer, do_reload_conf,
  do_source_static_set_ready, do_source_static_set_not_ready, do_describe, do_add_publisher,
  do_remove_publisher, do_start_publisher, do_stop_publisher, do_add_reader, do_remove_reader,
}
use text.Mathlib.Text.{◌==◌}

-- What `select` can receive, less the API's read of the state.
pub data Event : Type 0 where
  static_source_ready_timer static_source_close_timer : Event
  publisher_ready_timer publisher_close_timer : Event
  reload_conf : PathConf → Event
  source_static_set_ready : SetReadyReq → Event
  source_static_set_not_ready : ℕ → Event
  describe : DescribeReq → Event
  add_publisher : AddPublisherReq → Event
  remove_publisher : AuthorReq → Event
  start_publisher : StartPublisherReq → Event
  stop_publisher : AuthorReq → Event
  add_reader : AddReaderReq → Event
  remove_reader : AuthorReq → Event

unfoldable pub handle : Event → MediaPath → Outcome MediaPath
handle static_source_ready_timer p = do_on_demand_static_source_ready_timer p
handle static_source_close_timer p = do_on_demand_static_source_close_timer p
handle publisher_ready_timer p = do_on_demand_publisher_ready_timer p
handle publisher_close_timer p = do_on_demand_publisher_close_timer p
handle (reload_conf c) p = do_reload_conf c p
handle (source_static_set_ready req) p = do_source_static_set_ready req p
handle (source_static_set_not_ready res) p = do_source_static_set_not_ready res p
handle (describe req) p = do_describe req p
handle (add_publisher req) p = do_add_publisher req p
handle (remove_publisher req) p = do_remove_publisher req p
handle (start_publisher req) p = do_start_publisher req p
handle (stop_publisher req) p = do_stop_publisher req p
handle (add_reader req) p = do_add_reader req p
handle (remove_reader req) p = ok (do_remove_reader req p)

-- After which events the loop asks `shouldClose`.
abbrev pub asks_close : Event → Bool
asks_close publisher_close_timer = false
asks_close (reload_conf c) = false
asks_close (source_static_set_ready req) = false
asks_close (add_publisher req) = false
asks_close (start_publisher req) = false
asks_close (remove_reader req) = false
asks_close _ = true

-- The second part says whether the loop has ended with "not in use".
unfoldable pub step : Event → MediaPath → Outcome (MediaPath × Bool)
step e p = do q ← handle e p; ok (q, asks_close e && should_close q)

-- Events after the end of the loop are not received.
unfoldable pub run_inner : List Event → MediaPath → Outcome MediaPath
run_inner [] p = ok p
run_inner (e ∷ es) p =
    step e p >>= λ r. (let rest = run_inner es r.0 in if r.1 then ok r.0 else rest)

unfoldable pub initialize : PathConf → MediaPath
initialize c = record {
  conf = c;
  source = none;
  publisher_query = "";
  stream = none;
  record_agent = false;
  on_un_init_hook = false;
  on_un_demand_hook = false;
  on_not_ready_hook = false;
  readers = [];
  describe_requests_on_hold = [];
  reader_add_requests_on_hold = [];
  on_demand_static_source_state = initial;
  on_demand_static_source_ready_timer = false;
  on_demand_static_source_close_timer = false;
  on_demand_publisher_state = initial;
  on_demand_publisher_ready_timer = false;
  on_demand_publisher_close_timer = false;
  actions = [];
}

start_static : PathConf → MediaPath → Outcome MediaPath
start_static c p = if not c.source_on_demand then start_source p.source p else ok p

-- The path has its source, which runs unless it is on demand.
start_with_source : PathConf → Outcome MediaPath
unfolding initialize start_static
start_with_source c =
    let p = initialize c in
    if c.source == "redirect"
    then ok (record p { source = some source_redirect })
    else if has_static_source c
    then start_static c (record p { source = some (static_source_handler false) })
    else ok p

-- `run` up to the call of `runInner`.
unfoldable pub start : PathConf → Outcome MediaPath
unfolding start_with_source
start c = do p ← start_with_source c; ok (emit on_init (record p { on_un_init_hook = true }))

unfoldable pub close_source : MediaPath → Option Source → Outcome MediaPath
close_source p (some (static_source_handler b)) =
    if not p.conf.source_on_demand || not (is_initial p.on_demand_static_source_state)
    then stop_source p.source p
    else ok p
close_source p (some (publisher a)) = ok (emit (publisher_close a) p)
close_source p _ = ok p

stop_timers : MediaPath → MediaPath
stop_timers p = record p {
  on_demand_static_source_ready_timer = false;
  on_demand_static_source_close_timer = false;
  on_demand_publisher_ready_timer = false;
  on_demand_publisher_close_timer = false;
}

-- The path leaves its parent, and all who wait are told. The slices of held requests are dropped
-- here, since nobody reads them any more.
unfoldable pub dismiss : MediaPath → MediaPath
unfolding stop_timers
dismiss p =
    let q = stop_timers (emit close_path p) in
    fail_on_hold_requests terminated (emit on_un_init (record q { on_un_init_hook = false }))

unfoldable pub withdraw_stream : MediaPath → Outcome MediaPath
withdraw_stream p = if is_some p.stream then set_not_ready p else ok p

unfoldable pub call_un_demand_hook : MediaPath → MediaPath
call_un_demand_hook p = if p.on_un_demand_hook then emit on_un_demand p else p

-- `run` after the return of `runInner`.
unfoldable pub finish : MediaPath → Outcome MediaPath
finish p = do
  q ← withdraw_stream (dismiss p)
  r ← close_source q q.source
  ok (call_un_demand_hook r)

-- A whole life: the path starts, receives events, and ends, by `shouldClose` or as it is closed.
unfoldable pub run : PathConf → List Event → Outcome MediaPath
run c es = do p ← start c; q ← run_inner es p; finish q
