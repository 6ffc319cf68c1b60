-- ===== src/MediaPath/Step.antt =====
-- internal/core/path.go: the helper methods of a path, which its handlers call.
use mediamtx.Base.{
  ℕ, Bool, true, false, Option, none, some, List, [], ◌∷◌, ◌&&◌, ◌||◌, not, ◌==◌, leb,
  if◌then◌else◌, length, is_empty, is_none, is_some,
}
use mediamtx.MediaPath.Conf.{has_on_demand_static_source, has_on_demand_publisher}
use mediamtx.MediaPath.State.{
  OnDemandState, initial, waiting_ready, ready, closing, Source, static_source_handler, Error,
  max_readers_reached, Reply, stream_res, error_res, Action, reply, path_ready, path_not_ready,
  source_start, source_stop, reader_close, on_demand, on_un_demand, on_ready, on_not_ready,
  record_start, record_stop, stream_close, DescribeReq, AddReaderReq, MediaPath, Outcome, ok, panic,
  ◌>>=◌,
}

abbrev pub is_initial : OnDemandState → Bool
is_initial initial = true
is_initial _ = false

abbrev pub is_ready : OnDemandState → Bool
is_ready ready = true
is_ready _ = false

abbrev pub is_closing : OnDemandState → Bool
is_closing closing = true
is_closing _ = false

abbrev pub is_waiting_ready : OnDemandState → Bool
is_waiting_ready waiting_ready = true
is_waiting_ready _ = false

abbrev pub emit : Action → MediaPath → MediaPath
emit a p = record p { actions = a ∷ p.actions }

unfoldable pub contains : ℕ → List ℕ → Bool
contains r [] = false
contains r (x ∷ xs) = r == x || contains r xs

unfoldable pub remove : ℕ → List ℕ → List ℕ
remove r [] = []
remove r (x ∷ xs) = if r == x then remove r xs else x ∷ remove r xs

abbrev pub should_close : MediaPath → Bool
should_close p =
    p.conf.regexp
    && is_none p.source
    && is_empty p.readers
    && is_empty p.describe_requests_on_hold
    && is_empty p.reader_add_requests_on_hold

-- `staticSourceHandler.start` and `stop` panic unless `running` is as they expect.
unfoldable pub start_source : Option Source → MediaPath → Outcome MediaPath
start_source (some (static_source_handler false)) p =
    ok (emit source_start (record p { source = some (static_source_handler true) }))
start_source _ p = panic

unfoldable pub stop_source : Option Source → MediaPath → Outcome MediaPath
stop_source (some (static_source_handler true)) p =
    ok (emit source_stop (record p { source = some (static_source_handler false) }))
stop_source _ p = panic

unfoldable pub on_demand_static_source_start : MediaPath → Outcome MediaPath
unfolding start_source
on_demand_static_source_start p = do
  p' ← start_source p.source p
  ok (record p' {
    on_demand_static_source_ready_timer = true;
    on_demand_static_source_state = waiting_ready;
  })

unfoldable pub on_demand_static_source_schedule_close : MediaPath → MediaPath
on_demand_static_source_schedule_close p = record p {
  on_demand_static_source_close_timer = true;
  on_demand_static_source_state = closing;
}

unfoldable pub on_demand_static_source_stop : MediaPath → Outcome MediaPath
unfolding stop_source
on_demand_static_source_stop p =
    let p' = record p {
      on_demand_static_source_close_timer =
          p.on_demand_static_source_close_timer && not (is_closing p.on_demand_static_source_state);
      on_demand_static_source_state = initial;
    } in
    stop_source p'.source p'

unfoldable pub on_demand_publisher_start : MediaPath → MediaPath
on_demand_publisher_start p = emit on_demand (record p {
  on_un_demand_hook = true;
  on_demand_publisher_ready_timer = true;
  on_demand_publisher_state = waiting_ready;
})

unfoldable pub on_demand_publisher_schedule_close : MediaPath → MediaPath
on_demand_publisher_schedule_close p = record p {
  on_demand_publisher_close_timer = true;
  on_demand_publisher_state = closing;
}

-- A call of a nil hook panics.
unfoldable pub on_demand_publisher_stop : MediaPath → Outcome MediaPath
on_demand_publisher_stop p =
    if p.on_un_demand_hook
    then ok (
        emit on_un_demand (record p {
          on_demand_publisher_close_timer =
              p.on_demand_publisher_close_timer && not (is_closing p.on_demand_publisher_state);
          on_un_demand_hook = false;
          on_demand_publisher_state = initial;
        }))
    else panic

unfoldable pub start_recording : MediaPath → MediaPath
start_recording p = emit record_start (record p { record_agent = true })

unfoldable pub stop_recording : MediaPath → MediaPath
stop_recording p = emit record_stop (record p { record_agent = false })

-- `stream.New` sets `stream` also where it fails: to nil. The result says whether it succeeded.
unfoldable pub set_ready : Option ℕ → MediaPath → MediaPath × Bool
unfolding start_recording
set_ready none p = (record p { stream = none }, false)
set_ready (some s) p =
    let q = record p { stream = some s } in
    let q' = if q.conf.recording then start_recording q else q in
    (emit path_ready (emit on_ready (record q' { on_not_ready_hook = true })), true)

-- The map's order is not specified: the list stands for one order.
unfoldable pub close_readers : List ℕ → List Action → List Action
close_readers [] l = l
close_readers (r ∷ rs) l = close_readers rs (reader_close r ∷ l)

close_recording : MediaPath → MediaPath
unfolding stop_recording
close_recording p = if p.record_agent then stop_recording p else p

close_stream : MediaPath → MediaPath
close_stream p = if is_some p.stream then emit stream_close (record p { stream = none }) else p

unfoldable pub set_not_ready : MediaPath → Outcome MediaPath
unfolding close_recording close_stream
set_not_ready p =
    let q = emit path_not_ready p in
    let q' = record q { readers = []; actions = close_readers q.readers q.actions } in
    if q'.on_not_ready_hook
    then ok (close_stream (close_recording (emit on_not_ready q')))
    else panic

unfoldable pub execute_remove_reader : ℕ → MediaPath → MediaPath
execute_remove_reader r p = record p { readers = remove r p.readers }

unfoldable pub execute_remove_publisher : MediaPath → Outcome MediaPath
execute_remove_publisher p = do
  q ← if is_some p.stream then set_not_ready p else ok p
  ok (record q { source = none })

-- The reader is in: an on-demand source that was closing is kept.
keep_source : MediaPath → MediaPath
keep_source p =
    if has_on_demand_static_source p.conf
    then if is_closing p.on_demand_static_source_state
      then record p {
        on_demand_static_source_state = ready;
        on_demand_static_source_close_timer = false;
      }
      else p
    else if has_on_demand_publisher p.conf
    then if is_closing p.on_demand_publisher_state
      then record p { on_demand_publisher_state = ready; on_demand_publisher_close_timer = false }
      else p
    else p

unfoldable pub add_reader_post : AddReaderReq → MediaPath → MediaPath
unfolding keep_source
add_reader_post req p =
    if contains req.author p.readers
    then emit (reply req.res (stream_res p.stream)) p
    else if not (p.conf.max_readers == 0) && leb p.conf.max_readers (length p.readers)
    then emit (reply req.res (error_res max_readers_reached)) p
    else let q = keep_source (record p { readers = req.author ∷ p.readers }) in
      emit (reply req.res (stream_res q.stream)) q

unfoldable pub add_readers_post : List AddReaderReq → MediaPath → MediaPath
add_readers_post [] p = p
add_readers_post (req ∷ reqs) p = add_readers_post reqs (add_reader_post req p)

unfoldable pub reply_describes : Reply → List DescribeReq → List Action → List Action
reply_describes r [] l = l
reply_describes r (req ∷ reqs) l = reply_describes r reqs (reply req.res r ∷ l)

unfoldable pub reply_readers : Reply → List AddReaderReq → List Action → List Action
reply_readers r [] l = l
reply_readers r (req ∷ reqs) l = reply_readers r reqs (reply req.res r ∷ l)

unfoldable pub consume_on_hold_requests : MediaPath → MediaPath
consume_on_hold_requests p =
    let q = record p {
      describe_requests_on_hold = [];
      actions = reply_describes (stream_res p.stream) p.describe_requests_on_hold p.actions;
    } in
    record (add_readers_post q.reader_add_requests_on_hold q) { reader_add_requests_on_hold = [] }

-- All requests on hold are answered with one error, and dropped.
unfoldable pub fail_on_hold_requests : Error → MediaPath → MediaPath
fail_on_hold_requests e p = record p {
  describe_requests_on_hold = [];
  reader_add_requests_on_hold = [];
  actions =
      reply_readers (error_res e) p.reader_add_requests_on_hold
        (reply_describes (error_res e) p.describe_requests_on_hold p.actions);
}
