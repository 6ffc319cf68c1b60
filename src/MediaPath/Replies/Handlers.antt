-- ===== src/MediaPath/Replies/Handlers.antt =====
-- Every handler answers the request that it was given, or puts it on hold, and no other twice.
use mediamtx.Base.{
  if◌then◌else◌, Bool, true, false, ℕ, ◌+◌, ◌≡◌, [], ◌∷◌, arith, Option, none, some, false,
}
use mediamtx.MediaPath.Conf.{PathConf}
use mediamtx.MediaPath.State.{
  publisher_close, reply, closed, DescribeReq, AddReaderReq, AddPublisherReq, StartPublisherReq,
  SetReadyReq, AuthorReq, MediaPath, Outcome, ok, panic, ◌>>=◌, timed_out, Source,
}
use mediamtx.MediaPath.Step.{
  on_demand_static_source_start, on_demand_publisher_start, on_demand_static_source_stop,
  on_demand_publisher_stop, set_not_ready, set_ready, start_recording, stop_recording,
  execute_remove_reader, on_demand_static_source_schedule_close, on_demand_publisher_schedule_close,
  fail_on_hold_requests, emit,
}
use mediamtx.MediaPath.Handlers.{
  do_on_demand_static_source_ready_timer, do_on_demand_static_source_close_timer,
  do_on_demand_publisher_ready_timer, do_on_demand_publisher_close_timer, do_reload_conf,
  do_source_static_set_ready, do_source_static_set_not_ready, do_describe, do_add_publisher,
  do_remove_publisher, do_start_publisher, do_stop_publisher, do_add_reader, do_remove_reader,
  override_publisher, static_source_started, publisher_started,
}
use mediamtx.MediaPath.Run.{
  Event, static_source_ready_timer, static_source_close_timer, publisher_ready_timer,
  publisher_close_timer, reload_conf, source_static_set_ready, source_static_set_not_ready,
  describe, add_publisher, remove_publisher, start_publisher, stop_publisher, add_reader,
  remove_reader, handle,
}
use mediamtx.MediaPath.Life.{IfOk}
use mediamtx.MediaPath.Replies.Parts.{
  is_it, account, describes-append, add_readers-append, answers-add_reader_post,
  account-consume_on_hold_requests, account-fail_on_hold_requests, account-set_not_ready,
  account-execute_remove_publisher, account-on_demand_static_source_stop, account-set_ready,
}

pub IfOk-bind :
    {A B : Type 0} (P : A → Type 0) (Q : B → Type 0) (m : Outcome A) (f : A → Outcome B)
    → IfOk P m
    → ((a : A) → P a → IfOk Q (f a))
    → IfOk Q (m >>= f)
IfOk-bind P Q (ok a) f h k = k a h
IfOk-bind P Q panic f h k = tt

pub IfOk-map :
    {A : Type 0} (P Q : A → Type 0) (m : Outcome A) → ((a : A) → P a → Q a) → IfOk P m → IfOk Q m
IfOk-map P Q (ok a) k h = k a h
IfOk-map P Q panic k h = tt

pub IfOk-if :
    {A : Type 0} (P : A → Type 0) (b : Bool) (m n : Outcome A)
    → IfOk P m
    → IfOk P n
    → IfOk P (if b then m else n)
IfOk-if P true m n h k = h
IfOk-if P false m n h k = k

-- 1 if the event is a request on the channel `i`.
abbrev pub asks : ℕ → Event → ℕ
asks i (source_static_set_ready req) = is_it i req.res
asks i (source_static_set_not_ready res) = is_it i res
asks i (describe req) = is_it i req.res
asks i (add_publisher req) = is_it i req.res
asks i (remove_publisher req) = is_it i req.res
asks i (start_publisher req) = is_it i req.res
asks i (stop_publisher req) = is_it i req.res
asks i (add_reader req) = is_it i req.res
asks i (remove_reader req) = is_it i req.res
asks i _ = 0

module _ (i : ℕ) where
  abbrev Accounts : ℕ → MediaPath → Outcome MediaPath → Type 0
  Accounts n p m = IfOk (λ q. account i q ≡ account i p + n) m

  account-static_timers :
      (p : MediaPath)
      → Accounts 0 p (do_on_demand_static_source_ready_timer p)
        × Accounts 0 p (do_on_demand_static_source_close_timer p)
  unfolding do_on_demand_static_source_ready_timer do_on_demand_static_source_close_timer
  account-static_timers p = (
    ground (
      arith,
      account-on_demand_static_source_stop i (
          fail_on_hold_requests timed_out
            (record p { on_demand_static_source_ready_timer = false })),
      account-fail_on_hold_requests i timed_out
          (record p { on_demand_static_source_ready_timer = false }),
    ),
    IfOk-bind (λ q. account i q ≡ account i p) _ (set_not_ready _) on_demand_static_source_stop
        (account-set_not_ready i (record p { on_demand_static_source_close_timer = false }))
        (λ q e. ground (arith, account-on_demand_static_source_stop i q)),
  )

  account-publisher_timers :
      (p : MediaPath)
      → Accounts 0 p (do_on_demand_publisher_ready_timer p)
        × Accounts 0 p (do_on_demand_publisher_close_timer p)
  unfolding do_on_demand_publisher_ready_timer do_on_demand_publisher_close_timer
      on_demand_publisher_stop
  account-publisher_timers p = ground (
    arith,
    account-fail_on_hold_requests i timed_out
        (record p { on_demand_publisher_ready_timer = false }),
  )

  account-do_reload_conf : (c : PathConf) (p : MediaPath) → Accounts 0 p (do_reload_conf c p)
  unfolding do_reload_conf start_recording stop_recording
  account-do_reload_conf c p = ground arith

  account-do_describe :
      (req : DescribeReq) (p : MediaPath) → Accounts (is_it i req.res) p (do_describe req p)
  unfolding do_describe on_demand_static_source_start on_demand_publisher_start
  account-do_describe req p =
      ground (arith, describes-append i p.describe_requests_on_hold (req ∷ []))

  account-do_add_reader :
      (req : AddReaderReq) (p : MediaPath) → Accounts (is_it i req.res) p (do_add_reader req p)
  unfolding do_add_reader on_demand_static_source_start on_demand_publisher_start
  account-do_add_reader req p = ground (
    arith,
    add_readers-append i p.reader_add_requests_on_hold (req ∷ []),
    answers-add_reader_post i req p,
  )

  account-do_remove_reader :
      (req : AuthorReq) (p : MediaPath)
      → account i (do_remove_reader req p) ≡ account i p + is_it i req.res
  unfolding do_remove_reader execute_remove_reader on_demand_static_source_schedule_close
      on_demand_publisher_schedule_close
  account-do_remove_reader req p = ground arith

  account-override_publisher :
      (s : Option Source) (req : AddPublisherReq) (p : MediaPath)
      → Accounts (is_it i req.res) p (override_publisher s req p)
  unfolding override_publisher
  account-override_publisher none req p = ground arith
  account-override_publisher (some (Source.publisher a)) req p =
      ground (arith, account-execute_remove_publisher i (emit (publisher_close a) p))
  account-override_publisher (some _) req p = ground arith

  account-do_add_publisher :
      (req : AddPublisherReq) (p : MediaPath)
      → Accounts (is_it i req.res) p (do_add_publisher req p)
  unfolding do_add_publisher
  account-do_add_publisher req p = ground (arith, account-override_publisher p.source req p)

  account-do_remove_publisher :
      (req : AuthorReq) (p : MediaPath) → Accounts (is_it i req.res) p (do_remove_publisher req p)
  unfolding do_remove_publisher
  account-do_remove_publisher req p = ground (arith, account-execute_remove_publisher i p)

  account-do_stop_publisher :
      (req : AuthorReq) (p : MediaPath) → Accounts (is_it i req.res) p (do_stop_publisher req p)
  unfolding do_stop_publisher
  account-do_stop_publisher req p = ground (arith, account-set_not_ready i p)

  account-do_source_static_set_not_ready :
      (res : ℕ) (p : MediaPath) → Accounts (is_it i res) p (do_source_static_set_not_ready res p)
  unfolding do_source_static_set_not_ready
  account-do_source_static_set_not_ready res p =
      IfOk-bind (λ q. account i q ≡ account i p) _ (set_not_ready p) _ (account-set_not_ready i p)
        (λ q e. ground (arith, account-on_demand_static_source_stop i (emit (reply res closed) q)))

  account-started :
      (o : Option ℕ) (p : MediaPath)
      → (account i (static_source_started (set_ready o p).0) ≡ account i p)
        × (account i (publisher_started (set_ready o p).0) ≡ account i p)
  unfolding static_source_started publisher_started on_demand_static_source_schedule_close
      on_demand_publisher_schedule_close
  account-started o p = ground (arith, account-set_ready i o p)

  account-do_source_static_set_ready :
      (req : SetReadyReq) (p : MediaPath)
      → Accounts (is_it i req.res) p (do_source_static_set_ready req p)
  unfolding do_source_static_set_ready
  account-do_source_static_set_ready req p = ground (
    arith,
    account-set_ready i req.new_stream p,
    account-started req.new_stream p,
    account-consume_on_hold_requests i (static_source_started (set_ready req.new_stream p).0),
  )

  account-do_start_publisher :
      (req : StartPublisherReq) (p : MediaPath)
      → Accounts (is_it i req.res) p (do_start_publisher req p)
  unfolding do_start_publisher
  account-do_start_publisher req p = ground (
    arith,
    account-set_ready i req.new_stream p,
    account-started req.new_stream p,
    account-consume_on_hold_requests i (publisher_started (set_ready req.new_stream p).0),
  )

-- Whatever an event is, its handler adds to the answers sent and the requests on hold, on each
-- channel, just the one request that the event is, if it is one.
pub account-handle :
    (i : ℕ) (e : Event) (p : MediaPath)
    → IfOk (λ q. account i q ≡ account i p + asks i e) (handle e p)
unfolding handle
account-handle i static_source_ready_timer p = (account-static_timers i p).0
account-handle i static_source_close_timer p = (account-static_timers i p).1
account-handle i publisher_ready_timer p = (account-publisher_timers i p).0
account-handle i publisher_close_timer p = (account-publisher_timers i p).1
account-handle i (reload_conf c) p = account-do_reload_conf i c p
account-handle i (source_static_set_ready req) p = account-do_source_static_set_ready i req p
account-handle i (source_static_set_not_ready res) p =
    account-do_source_static_set_not_ready i res p
account-handle i (describe req) p = account-do_describe i req p
account-handle i (add_publisher req) p = account-do_add_publisher i req p
account-handle i (remove_publisher req) p = account-do_remove_publisher i req p
account-handle i (start_publisher req) p = account-do_start_publisher i req p
account-handle i (stop_publisher req) p = account-do_stop_publisher i req p
account-handle i (add_reader req) p = account-do_add_reader i req p
account-handle i (remove_reader req) p = account-do_remove_reader i req p
