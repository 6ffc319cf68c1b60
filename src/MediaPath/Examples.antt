-- ===== src/MediaPath/Examples.antt =====
-- Runs of paths on concrete events, and the theorems at concrete inputs.
use mediamtx.Base.{ℕ, ◌≡◌, refl, Bool, true, false, List, [], ◌∷◌, none, some}
use mediamtx.MediaPath.Conf.{
  PathConf, has_static_source, has_on_demand_static_source, has_on_demand_publisher,
}
use mediamtx.MediaPath.State.{MediaPath, Outcome, ok, panic, ◌>>=◌, publisher}
use mediamtx.MediaPath.Step.{
  contains, remove, on_demand_static_source_start, on_demand_static_source_schedule_close,
  on_demand_static_source_stop, on_demand_publisher_start, on_demand_publisher_schedule_close,
  on_demand_publisher_stop, set_ready, set_not_ready, execute_remove_reader,
  execute_remove_publisher, add_reader_post, add_readers_post, consume_on_hold_requests,
  fail_on_hold_requests, close_readers, reply_describes, reply_readers, start_recording,
  stop_recording, start_source, stop_source,
}
use mediamtx.MediaPath.Handlers.{
  do_source_static_set_ready, do_source_static_set_not_ready, do_describe, do_add_publisher,
  do_remove_publisher, do_start_publisher, do_stop_publisher, do_add_reader, do_remove_reader,
  do_reload_conf, do_on_demand_publisher_close_timer, do_on_demand_publisher_ready_timer,
  do_on_demand_static_source_close_timer, do_on_demand_static_source_ready_timer,
}
use mediamtx.MediaPath.Run.{
  initialize, finish, dismiss, withdraw_stream, close_source, call_un_demand_hook, Event, describe,
  add_publisher, start_publisher, remove_publisher, add_reader, remove_reader,
  publisher_close_timer, source_static_set_ready, handle, step, run_inner, start, run,
}
use mediamtx.MediaPath.Invariant.{ConfIsValid, Inv, Ensures}
use mediamtx.MediaPath.Safety.{handle-Inv}
use mediamtx.MediaPath.Life.{IfOk, Allowed}
use mediamtx.MediaPath.Replies.Parts.{answers}
use mediamtx.MediaPath.Replies.Life.{received, requests, answers-run_once}
use mediamtx.MediaPath.Balance.Life.{IsSettled, run-IsSettled}
use mediamtx.MediaPath.Waiting.{
  IsAttended, reached-IsAttended, publisher_close_timer_strands, reached-Inv,
}
use mediamtx.MediaPath.Limits.{IsWithin, handle-IsWithin}
use mediamtx.MediaPath.Ownership.{handle_keeps_publisher}

-- A path whose publisher is started on demand, and one with a static source on demand.
abbrev on_demand_conf : PathConf
on_demand_conf = record {
  regexp = false;
  source = "publisher";
  source_on_demand = false;
  source_redirect = "";
  fallback = "";
  max_readers = 2;
  recording = true;
  override_publisher = true;
  run_on_demand = "ffmpeg";
}

abbrev pull_conf : PathConf
pull_conf = record on_demand_conf {
  source = "rtsp://camera/1";
  source_on_demand = true;
  run_on_demand = "";
}

abbrev a_describe : ℕ → Event
a_describe res = describe (record { res = res; query = ""; rtsp_url = none })

abbrev a_reader : ℕ → ℕ → Event
a_reader res author = add_reader (record { res = res; author = author; query = "" })

-- Describe, publish, lose the publisher, describe again, and the close timer fires.
abbrev stranding : List Event
stranding =
    a_describe 1
    ∷ add_publisher (record { res = 2; author = 7; query = "" })
    ∷ start_publisher (record { res = 3; author = 7; new_stream = some 40 })
    ∷ remove_publisher (record { res = 4; author = 7 })
    ∷ a_describe 5
    ∷ []

-- A reader asks for a static source, which becomes ready; the reader leaves.
abbrev pulling : List Event
pulling =
    a_reader 1 9
    ∷ source_static_set_ready (record { res = 2; new_stream = some 50 })
    ∷ remove_reader (record { res = 3; author = 9 })
    ∷ []

on_demand_conf-IsValid : ConfIsValid on_demand_conf
unfolding has_on_demand_publisher has_static_source
on_demand_conf-IsValid = record {
  on_demand_publishes = λ h. refl;
  publisher_not_static = λ h. refl;
}

pull_conf-IsValid : ConfIsValid pull_conf
unfolding has_on_demand_publisher has_static_source
pull_conf-IsValid = record { on_demand_publishes = λ h. h; publisher_not_static = λ h. cc }

-- Naming this opens all that a run computes with.
computing : Bool
unfolding run start run_inner step handle finish dismiss withdraw_stream close_source
    call_un_demand_hook has_static_source has_on_demand_static_source has_on_demand_publisher
    contains remove on_demand_static_source_start on_demand_static_source_schedule_close
    on_demand_static_source_stop on_demand_publisher_start on_demand_publisher_schedule_close
    on_demand_publisher_stop set_ready set_not_ready execute_remove_reader execute_remove_publisher
    add_reader_post add_readers_post consume_on_hold_requests fail_on_hold_requests close_readers
    reply_describes reply_readers start_recording stop_recording start_source stop_source
    do_source_static_set_ready do_source_static_set_not_ready do_describe do_add_publisher
    do_remove_publisher do_start_publisher do_stop_publisher do_add_reader do_remove_reader
    do_reload_conf do_on_demand_publisher_close_timer do_on_demand_publisher_ready_timer
    do_on_demand_static_source_close_timer do_on_demand_static_source_ready_timer
computing = true

stranding-Allowed : IfOk (Allowed stranding) (start on_demand_conf)
unfolding computing
stranding-Allowed = ((λ h. cc), (tt, ((λ h. refl), (tt, ((λ h. cc), tt)))))

pulling-Allowed : IfOk (Allowed pulling) (start pull_conf)
unfolding computing
pulling-Allowed = (tt, ((refl, refl), (tt, tt)))

arrive : Outcome MediaPath → MediaPath
arrive (ok p) = p
arrive panic = initialize on_demand_conf

stranded : MediaPath
unfolding arrive
stranded = arrive (start on_demand_conf >>= run_inner stranding)

stranded-Inv : Inv stranded
unfolding stranded computing
stranded-Inv = reached-Inv on_demand_conf stranding on_demand_conf-IsValid stranding-Allowed

handle-Inv_example : Ensures Inv (handle publisher_close_timer stranded)
unfolding stranded computing
handle-Inv_example = handle-Inv publisher_close_timer stranded stranded-Inv refl

-- The describe request 5 is answered once, at the end of the path.
answers-run_once_example :
    Ensures
      (λ q. answers 5 q.actions ≡ requests 5 (received stranding (arrive (start on_demand_conf))))
      (run on_demand_conf stranding)
unfolding arrive computing
answers-run_once_example =
    answers-run_once on_demand_conf stranding (arrive (start on_demand_conf)) 5
      on_demand_conf-IsValid refl stranding-Allowed

run-IsSettled_example : Ensures (λ q. IsSettled q.actions) (run on_demand_conf stranding)
run-IsSettled_example =
    run-IsSettled on_demand_conf stranding on_demand_conf-IsValid stranding-Allowed

reached-IsAttended_example : Ensures IsAttended (start pull_conf >>= run_inner pulling)
reached-IsAttended_example = reached-IsAttended pull_conf pulling pull_conf-IsValid pulling-Allowed

-- The request 5 stays on hold.
publisher_close_timer_strands_example :
    (arrive (handle publisher_close_timer stranded)).describe_requests_on_hold
    ≡ record { res = 5; query = ""; rtsp_url = none } ∷ []
unfolding stranded arrive computing
publisher_close_timer_strands_example =
    (publisher_close_timer_strands stranded stranded-Inv refl refl).1

handle-IsWithin_example : IfOk IsWithin (handle (a_reader 9 4) stranded)
unfolding stranded computing
handle-IsWithin_example = handle-IsWithin (a_reader 9 4) stranded tt refl

handle_keeps_publisher_example :
    IfOk
      (λ q. q.source ≡ some (publisher 7))
      (handle (a_describe 8) (record stranded { source = some (publisher 7) }))
unfolding stranded computing
handle_keeps_publisher_example =
    handle_keeps_publisher (a_describe 8) (record stranded { source = some (publisher 7) }) 7 refl
      refl
