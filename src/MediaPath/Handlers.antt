-- ===== src/MediaPath/Handlers.antt =====
-- internal/core/path.go: one handler for each event that `runInner` selects, its loop, and the
-- start and the end of `run`.
use mediamtx.Base.{
  ℕ, String, Bool, true, false, Option, none, some, [], ◌∷◌, ◌++◌, ◌&&◌, not, ◌==◌, if◌then◌else◌,
  is_empty, is_some,
}
use mediamtx.MediaPath.Conf.{
  PathConf, has_static_source, has_on_demand_static_source, has_on_demand_publisher,
}
use mediamtx.MediaPath.State.{
  Source, source_redirect, static_source_handler, publisher, timed_out, source_is_not_publisher,
  already_publishing, not_assigned, stream_failed, no_one_publishing, stream_res, path_res,
  redirect_res, error_res, closed, reply, source_reload_conf, publisher_close, DescribeReq,
  AddReaderReq, AddPublisherReq, StartPublisherReq, SetReadyReq, AuthorReq, MediaPath, Outcome, ok,
  panic, ◌>>=◌,
}
use mediamtx.MediaPath.Step.{
  is_initial, is_ready, emit, contains, on_demand_static_source_start,
  on_demand_static_source_schedule_close, on_demand_static_source_stop, on_demand_publisher_start,
  on_demand_publisher_schedule_close, on_demand_publisher_stop, start_recording, stop_recording,
  set_ready, set_not_ready, execute_remove_reader, execute_remove_publisher, add_reader_post,
  consume_on_hold_requests, fail_on_hold_requests,
}
use text.Mathlib.Text.{◌==◌ as str_eq, starts_with}

-- The expired timer is the one that was received from: it no longer runs.
unfoldable pub do_on_demand_static_source_ready_timer : MediaPath → Outcome MediaPath
do_on_demand_static_source_ready_timer p =
    on_demand_static_source_stop
      (fail_on_hold_requests timed_out (record p { on_demand_static_source_ready_timer = false }))

unfoldable pub do_on_demand_static_source_close_timer : MediaPath → Outcome MediaPath
do_on_demand_static_source_close_timer p = do
  q ← set_not_ready (record p { on_demand_static_source_close_timer = false })
  on_demand_static_source_stop q

unfoldable pub do_on_demand_publisher_ready_timer : MediaPath → Outcome MediaPath
do_on_demand_publisher_ready_timer p =
    on_demand_publisher_stop
      (fail_on_hold_requests timed_out (record p { on_demand_publisher_ready_timer = false }))

unfoldable pub do_on_demand_publisher_close_timer : MediaPath → Outcome MediaPath
do_on_demand_publisher_close_timer p =
    on_demand_publisher_stop (record p { on_demand_publisher_close_timer = false })

reload_source : Option Source → MediaPath → Outcome MediaPath
reload_source (some (static_source_handler b)) p = ok (emit source_reload_conf p)
reload_source _ p = panic

reload_recording : MediaPath → MediaPath
reload_recording p =
    if p.conf.recording
    then if is_some p.stream && not p.record_agent then start_recording p else p
    else if p.record_agent
    then stop_recording p
    else p

unfoldable pub do_reload_conf : PathConf → MediaPath → Outcome MediaPath
unfolding reload_source reload_recording
do_reload_conf new_conf p = do
  let p' = record p { conf = new_conf }
  q ← if has_static_source new_conf then reload_source p'.source p' else ok p'
  ok (reload_recording q)

unfoldable pub reply_stream : ℕ → MediaPath → MediaPath
reply_stream res p = emit (reply res (stream_res p.stream)) p

unfoldable pub static_source_started : MediaPath → MediaPath
static_source_started p =
    if has_on_demand_static_source p.conf
    then on_demand_static_source_schedule_close
        (record p { on_demand_static_source_ready_timer = false })
    else p

unfoldable pub publisher_started : MediaPath → MediaPath
publisher_started p =
    if has_on_demand_publisher p.conf && not (is_initial p.on_demand_publisher_state)
    then on_demand_publisher_schedule_close (record p { on_demand_publisher_ready_timer = false })
    else p

unfoldable pub do_source_static_set_ready : SetReadyReq → MediaPath → Outcome MediaPath
unfolding reply_stream static_source_started
do_source_static_set_ready req p =
    let (q, done) = set_ready req.new_stream p in
    if done
    then ok (reply_stream req.res (consume_on_hold_requests (static_source_started q)))
    else ok (emit (reply req.res (error_res stream_failed)) q)

unfoldable pub do_source_static_set_not_ready : ℕ → MediaPath → Outcome MediaPath
do_source_static_set_not_ready res p = do
  q ← set_not_ready p
  let q' = emit (reply res closed) q
  if has_on_demand_static_source q'.conf && not (is_initial q'.on_demand_static_source_state)
      then on_demand_static_source_stop q'
      else ok q'

-- A fallback that begins with a slash is put into the URL of the RTSP request; the read of a
-- request that is nil panics.
fallback_url : Option (String → String) → String → Outcome String
fallback_url (some f) path = ok (f path)
fallback_url none path = panic

reply_fallback : DescribeReq → MediaPath → Outcome MediaPath
unfolding fallback_url
reply_fallback req p = do
  url ←
      if starts_with p.conf.fallback "/"
      then fallback_url req.rtsp_url p.conf.fallback
      else ok p.conf.fallback
  ok (emit (reply req.res (redirect_res url)) p)

hold_describe : DescribeReq → MediaPath → MediaPath
hold_describe req p = record p {
  describe_requests_on_hold = p.describe_requests_on_hold ++ (req ∷ []);
}

hold_reader : AddReaderReq → MediaPath → MediaPath
hold_reader req p = record p {
  reader_add_requests_on_hold = p.reader_add_requests_on_hold ++ (req ∷ []);
}

-- Both requests that may wait start the source if it is not started yet.
ensure_static_source : MediaPath → Outcome MediaPath
ensure_static_source p =
    if is_initial p.on_demand_static_source_state then on_demand_static_source_start p else ok p

ensure_publisher : MediaPath → MediaPath
ensure_publisher p =
    if is_initial p.on_demand_publisher_state then on_demand_publisher_start p else p

abbrev is_redirect : Option Source → Bool
is_redirect (some source_redirect) = true
is_redirect _ = false

unfoldable pub do_describe : DescribeReq → MediaPath → Outcome MediaPath
unfolding reply_fallback hold_describe ensure_static_source ensure_publisher
do_describe req p =
    if is_redirect p.source
    then ok (emit (reply req.res (redirect_res p.conf.source_redirect)) p)
    else if is_some p.stream
    then ok (emit (reply req.res (stream_res p.stream)) p)
    else if has_on_demand_static_source p.conf
    then (do q ← ensure_static_source p; ok (hold_describe req q))
    else if has_on_demand_publisher p.conf
    then ok (hold_describe req (ensure_publisher p))
    else if not (str_eq p.conf.fallback "")
    then reply_fallback req p
    else ok (emit (reply req.res (error_res no_one_publishing)) p)

abbrev pub is_author : Option Source → ℕ → Bool
is_author (some (publisher a)) b = a == b
is_author _ b = false

unfoldable pub do_remove_publisher : AuthorReq → MediaPath → Outcome MediaPath
do_remove_publisher req p = do
  q ← if is_author p.source req.author then execute_remove_publisher p else ok p
  ok (emit (reply req.res closed) q)

accept_publisher : AddPublisherReq → MediaPath → MediaPath
accept_publisher req p =
    emit (reply req.res path_res)
      (record p { source = some (publisher req.author); publisher_query = req.query })

-- `pa.source.(defs.Publisher).Close()` panics if the source is no publisher.
unfoldable pub override_publisher : Option Source → AddPublisherReq → MediaPath → Outcome MediaPath
unfolding accept_publisher
override_publisher none req p = ok (accept_publisher req p)
override_publisher (some (publisher a)) req p =
    if p.conf.override_publisher
    then (do q ← execute_remove_publisher (emit (publisher_close a) p); ok (accept_publisher req q))
    else ok (emit (reply req.res (error_res already_publishing)) p)
override_publisher (some _) req p =
    if p.conf.override_publisher
    then panic
    else ok (emit (reply req.res (error_res already_publishing)) p)

unfoldable pub do_add_publisher : AddPublisherReq → MediaPath → Outcome MediaPath
unfolding override_publisher
do_add_publisher req p =
    if not (str_eq p.conf.source "publisher")
    then ok (emit (reply req.res (error_res source_is_not_publisher)) p)
    else override_publisher p.source req p

unfoldable pub do_start_publisher : StartPublisherReq → MediaPath → Outcome MediaPath
unfolding reply_stream publisher_started
do_start_publisher req p =
    if not (is_author p.source req.author)
    then ok (emit (reply req.res (error_res not_assigned)) p)
    else let (q, done) = set_ready req.new_stream p in
      if done
      then ok (reply_stream req.res (consume_on_hold_requests (publisher_started q)))
      else ok (emit (reply req.res (error_res stream_failed)) q)

unfoldable pub do_stop_publisher : AuthorReq → MediaPath → Outcome MediaPath
do_stop_publisher req p = do
  q ← if is_author p.source req.author && is_some p.stream then set_not_ready p else ok p
  ok (emit (reply req.res closed) q)

unfoldable pub do_add_reader : AddReaderReq → MediaPath → Outcome MediaPath
unfolding hold_reader ensure_static_source ensure_publisher
do_add_reader req p =
    if is_some p.stream
    then ok (add_reader_post req p)
    else if has_on_demand_static_source p.conf
    then (do q ← ensure_static_source p; ok (hold_reader req q))
    else if has_on_demand_publisher p.conf
    then ok (hold_reader req (ensure_publisher p))
    else ok (emit (reply req.res (error_res no_one_publishing)) p)

-- When the last reader has left, an on-demand source is scheduled to close.
release_source : MediaPath → MediaPath
release_source p =
    if has_on_demand_static_source p.conf
    then if is_ready p.on_demand_static_source_state
      then on_demand_static_source_schedule_close p
      else p
    else if has_on_demand_publisher p.conf
    then if is_ready p.on_demand_publisher_state then on_demand_publisher_schedule_close p else p
    else p

unfoldable pub do_remove_reader : AuthorReq → MediaPath → MediaPath
unfolding release_source
do_remove_reader req p =
    let q = if contains req.author p.readers then execute_remove_reader req.author p else p in
    let q' = emit (reply req.res closed) q in if is_empty q'.readers then release_source q' else q'
