-- ===== src/MediaPath/Life.antt =====
-- internal/core/path.go: the whole life of a path, from `run`'s first line to its last.
use mediamtx.Base.{
  Bool, true, false, none, List, [], ◌∷◌, ◌≡◌, refl, ◌||◌, not, if◌then◌else◌, arith, is_some,
}
use mediamtx.MediaPath.Conf.{PathConf, has_static_source, has_on_demand_static_source}
use mediamtx.MediaPath.State.{MediaPath, Outcome, ok, panic, ◌>>=◌}
use mediamtx.MediaPath.Step.{
  is_initial, start_source, stop_source, set_not_ready, fail_on_hold_requests,
}
use mediamtx.MediaPath.Run.{
  Event, handle, step, run_inner, start, finish, run, dismiss, withdraw_stream, close_source,
  call_un_demand_hook,
}
use mediamtx.MediaPath.Invariant.{
  ConfIsValid, Inv, Enabled, Ensures, holds_nothing, is_running, is_handler,
}
use mediamtx.MediaPath.Safety.{handle-Inv}
use mediamtx.MediaPath.Closed.{has_closed, is_un_demanded}
use text.Mathlib.Text.{◌==◌}
use text.Mathlib.TextEquality.{eq_iff}

-- A property of the result, where there is one.
abbrev pub IfOk : {A : Type 0} → (A → Type 0) → Outcome A → Type 0
IfOk P (ok a) = P a
IfOk P panic = Unit

abbrev pub Continues : (MediaPath → Type 0) → MediaPath × Bool → Type 0
Continues P (q, true) = Unit
Continues P (q, false) = P q

-- The environment sends only events that are enabled when they are received.
abbrev pub Allowed : List Event → MediaPath → Type 0
Allowed [] p = Unit
Allowed (e ∷ es) p = Enabled e p × IfOk (Continues (Allowed es)) (step e p)

-- No stream, no request on hold, no recording, no timer, no source that runs or is not closed.
pub record HasClosed (p : MediaPath) : Type 0 where
  pub no_stream : p.stream ≡ none
  pub no_requests : holds_nothing p ≡ true
  pub no_recording : p.record_agent ≡ false
  pub no_source : is_running p.source ≡ false
  pub no_static_ready_timer : p.on_demand_static_source_ready_timer ≡ false
  pub no_static_close_timer : p.on_demand_static_source_close_timer ≡ false
  pub no_publisher_ready_timer : p.on_demand_publisher_ready_timer ≡ false
  pub no_publisher_close_timer : p.on_demand_publisher_close_timer ≡ false
  pub no_init_hook : p.on_un_init_hook ≡ false
  pub publisher_closed : has_closed p.source p.actions ≡ true

-- In the end the hook for the end of the demand has been called as well, if it was there.
pub record HasEnded (p : MediaPath) : Type 0 where
  pub closed : HasClosed p
  pub un_demanded : p.on_un_demand_hook ≡ true → is_un_demanded p.actions ≡ true

redirect_tests :
    (c : PathConf)
    → (c.source == "redirect") ≡ true
    → (has_static_source c ≡ false) × ((c.source == "publisher") ≡ false)
unfolding has_static_source
redirect_tests c h = rw ((eq_iff c.source "redirect").0 h) (refl, refl)

pub start-Inv : (c : PathConf) → ConfIsValid c → Ensures Inv (start c)
unfolding start start_source has_on_demand_static_source
start-Inv c v = ground (arith, redirect_tests c)

-- The state while the path ends.
record IsDismissed (p : MediaPath) : Type 0 where
  handler : is_handler p.source ≡ has_static_source p.conf
  running :
      has_static_source p.conf ≡ true
      → is_running p.source
        ≡ (not p.conf.source_on_demand || not (is_initial p.on_demand_static_source_state))
  not_ready_hook : is_some p.stream ≡ true → p.on_not_ready_hook ≡ true
  recording_stream : p.record_agent ≡ true → is_some p.stream ≡ true
  no_requests : holds_nothing p ≡ true
  no_static_ready_timer : p.on_demand_static_source_ready_timer ≡ false
  no_static_close_timer : p.on_demand_static_source_close_timer ≡ false
  no_publisher_ready_timer : p.on_demand_publisher_ready_timer ≡ false
  no_publisher_close_timer : p.on_demand_publisher_close_timer ≡ false
  no_init_hook : p.on_un_init_hook ≡ false

dismiss-IsDismissed : (p : MediaPath) → Inv p → IsDismissed (dismiss p)
unfolding dismiss fail_on_hold_requests
dismiss-IsDismissed p v = ground arith

withdraw_stream-IsDismissed :
    (p : MediaPath)
    → IsDismissed p
    → Ensures (λ q. IsDismissed q × (q.stream ≡ none)) (withdraw_stream p)
unfolding withdraw_stream set_not_ready
withdraw_stream-IsDismissed p v = ground arith

close_source-HasClosed :
    (p : MediaPath)
    → IsDismissed p × (p.stream ≡ none)
    → Ensures HasClosed (close_source p p.source)
unfolding close_source stop_source
close_source-HasClosed p v = ground arith

call_un_demand_hook-HasEnded : (p : MediaPath) → HasClosed p → HasEnded (call_un_demand_hook p)
unfolding call_un_demand_hook
call_un_demand_hook-HasEnded p v = ground arith

pub Ensures-bind :
    {A B : Type 0} (P : A → Type 0) (Q : B → Type 0) (m : Outcome A) (f : A → Outcome B)
    → Ensures P m
    → ((a : A) → P a → Ensures Q (f a))
    → Ensures Q (m >>= f)
Ensures-bind P Q (ok a) f h k = k a h
Ensures-bind P Q panic f h k = h

pub finish-HasEnded : (p : MediaPath) → Inv p → Ensures HasEnded (finish p)
unfolding finish
finish-HasEnded p v =
    Ensures-bind _ HasEnded (withdraw_stream (dismiss p)) _
      (withdraw_stream-IsDismissed (dismiss p) (dismiss-IsDismissed p v))
      λ q d.
        Ensures-bind HasClosed HasEnded (close_source q q.source) _ (close_source-HasClosed q d)
          λ r e. call_un_demand_hook-HasEnded r e

step-Inv : (e : Event) (p : MediaPath) → Inv p → Enabled e p → Ensures (λ r. Inv r.0) (step e p)
unfolding step
step-Inv e p v h = Ensures-bind Inv _ (handle e p) _ (handle-Inv e p v h) (λ q w. w)

-- From a good state, allowed events lead to a good state.
pub run_inner-Inv :
    (es : List Event) (p : MediaPath) → Inv p → Allowed es p → Ensures Inv (run_inner es p)
unfolding run_inner
run_inner-Inv [] p v a = v
run_inner-Inv (e ∷ es) p v a = go (step e p) (step-Inv e p v a.0) a.1 (run_inner-Inv es)
  where
    go :
        (m : Outcome (MediaPath × Bool))
        → Ensures (λ r. Inv r.0) m
        → IfOk (Continues (Allowed es)) m
        → ((q : MediaPath) → Inv q → Allowed es q → Ensures Inv (run_inner es q))
        → Ensures Inv (m >>= λ r. (let rest = run_inner es r.0 in if r.1 then ok r.0 else rest))
    go (ok (q, true)) w k ih = w
    go (ok (q, false)) w k ih = ih q w k
    go panic w k ih = w

pub run-HasEnded :
    (c : PathConf) (es : List Event)
    → ConfIsValid c
    → IfOk (Allowed es) (start c)
    → Ensures HasEnded (run c es)
unfolding run
run-HasEnded c es v a = go (start c) (start-Inv c v) a
  where
    go :
        (m : Outcome MediaPath)
        → Ensures Inv m
        → IfOk (Allowed es) m
        → Ensures HasEnded (m >>= λ p. (run_inner es p >>= λ q. finish q))
    go (ok p) w k =
        Ensures-bind Inv HasEnded (run_inner es p) finish (run_inner-Inv es p w k) finish-HasEnded
    go panic w k = w
