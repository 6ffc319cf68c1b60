-- ===== src/MediaPath/Balance/Life.antt =====
-- Over the whole life of a path all that it opened is closed.
use mediamtx.Base.{◌≡◌, refl, List, [], ◌∷◌, arith, Bool, true, false, if◌then◌else◌, Option}
use mediamtx.MediaPath.Conf.{PathConf}
use mediamtx.MediaPath.State.{MediaPath, Source, Outcome, ok, panic, ◌>>=◌, terminated, Action}
use mediamtx.MediaPath.Step.{stop_source, start_source}
use mediamtx.MediaPath.Run.{
  Event, handle, step, run_inner, start, finish, run, dismiss, withdraw_stream, close_source,
  call_un_demand_hook,
}
use mediamtx.MediaPath.Invariant.{ConfIsValid, Inv, Enabled, Ensures}
use mediamtx.MediaPath.Safety.{handle-Inv}
use mediamtx.MediaPath.Life.{
  IfOk, Allowed, Continues, HasEnded, start-Inv, finish-HasEnded, Ensures-bind,
}
use mediamtx.MediaPath.Replies.Handlers.{IfOk-bind}
use mediamtx.MediaPath.Replies.Life.{Ensures-IfOk}
use mediamtx.MediaPath.Balance.Ledger.{IsBalanced, ledger, fail_on_hold_requests-IsBalanced}
use mediamtx.MediaPath.Balance.Handlers.{handle-IsBalanced, set_not_ready-IsBalanced}

abbrev IsGood : MediaPath → Type 0
IsGood p = Inv p × IsBalanced p

pair :
    {A : Type 0} (P Q : A → Type 0) (m : Outcome A)
    → Ensures P m
    → IfOk Q m
    → Ensures (λ a. P a × Q a) m
pair P Q (ok a) h k = (h, k)
pair P Q panic h k = h

start-IsGood : (c : PathConf) → ConfIsValid c → Ensures IsGood (start c)
start-IsGood c v = pair Inv IsBalanced (start c) (start-Inv c v) (balanced c)
  where
    balanced : (c : PathConf) → IfOk IsBalanced (start c)
    balanced c = unfold start start_source in ground arith

step-IsGood :
    (e : Event) (p : MediaPath) → IsGood p → Enabled e p → Ensures (λ r. IsGood r.0) (step e p)
unfolding step
step-IsGood e p v h =
    Ensures-bind IsGood _ (handle e p) _
      (pair Inv IsBalanced (handle e p) (handle-Inv e p v.0 h) (handle-IsBalanced e p v.1 v.0 h))
      (λ q w. w)

run_inner-IsGood :
    (es : List Event) (p : MediaPath) → IsGood p → Allowed es p → Ensures IsGood (run_inner es p)
unfolding run_inner
run_inner-IsGood [] p v a = v
run_inner-IsGood (e ∷ es) p v a = go (step e p) (step-IsGood e p v a.0) a.1 (run_inner-IsGood es)
  where
    go :
        (m : Outcome (MediaPath × Bool))
        → Ensures (λ r. IsGood r.0) m
        → IfOk (Continues (Allowed es)) m
        → ((q : MediaPath) → IsGood q → Allowed es q → Ensures IsGood (run_inner es q))
        → Ensures IsGood (m >>= λ r. (let rest = run_inner es r.0 in if r.1 then ok r.0 else rest))
    go (ok (q, true)) w k ih = w
    go (ok (q, false)) w k ih = ih q w k
    go panic w k ih = w

withdraw_stream-IsBalanced : (p : MediaPath) → IsBalanced p → IfOk IsBalanced (withdraw_stream p)
unfolding withdraw_stream
withdraw_stream-IsBalanced p v = ground (arith, set_not_ready-IsBalanced p v)

close_source-IsBalanced :
    (p : MediaPath) (s : Option Source)
    → p.source ≡ s
    → IsBalanced p
    → IfOk IsBalanced (close_source p s)
unfolding close_source stop_source
close_source-IsBalanced p s e v = ground arith

leave-IsBalanced :
    (p : MediaPath) → p.on_un_init_hook ≡ true → IsBalanced p → IsBalanced (dismiss p)
unfolding dismiss
leave-IsBalanced p i v = fail_on_hold_requests-IsBalanced terminated _ (ground arith)

-- What was opened was closed as often.
pub record IsSettled (l : List Action) : Type 0 where
  pub sources : (ledger l).source_starts ≡ (ledger l).source_stops
  pub init_hooks : (ledger l).inits ≡ (ledger l).un_inits
  pub hooks : (ledger l).demands ≡ (ledger l).un_demands
  pub ready_hooks : (ledger l).readies ≡ (ledger l).not_readies
  pub announcements : (ledger l).announced ≡ (ledger l).withdrawn
  pub streams : (ledger l).readies ≡ (ledger l).stream_closes
  pub recordings : (ledger l).record_starts ≡ (ledger l).record_stops

-- The last call of `run`, of a hook that has not been called yet, settles the on-demand hooks.
call_un_demand_hook-IsSettled :
    (p : MediaPath)
    → IsBalanced p
    → HasEnded (call_un_demand_hook p)
    → IsSettled (call_un_demand_hook p).actions
unfolding call_un_demand_hook
call_un_demand_hook-IsSettled p v h = ground arith

finish-IsSettled :
    (p : MediaPath)
    → p.on_un_init_hook ≡ true
    → IsBalanced p
    → IfOk (λ q. HasEnded q → IsSettled q.actions) (finish p)
unfolding finish
finish-IsSettled p i v =
    IfOk-bind IsBalanced _ (withdraw_stream (dismiss p)) _
      (withdraw_stream-IsBalanced (dismiss p) (leave-IsBalanced p i v))
      λ q w.
        IfOk-bind IsBalanced _ (close_source q q.source) _
          (close_source-IsBalanced q q.source refl w) λ r x h. call_un_demand_hook-IsSettled r x h

finish_settles : (p : MediaPath) → IsGood p → Ensures (λ q. IsSettled q.actions) (finish p)
finish_settles p v =
    Ensures-IfOk HasEnded _ _ (finish p) (λ q h k. k h) (finish-HasEnded p v.0)
      (finish-IsSettled p v.0.coherent.init_hook v.1)

-- Over the whole life of a path with a valid configuration, under allowed events, these happen
-- equally often: the start and the stop of its static source; the hook for the start of the path
-- and the one for its end; the command `runOnDemand` and its
-- counterpart; the hook for a ready path and the hook for its end; the announcement of the path to
-- its parent and the withdrawal; the creation and the close of a stream; the start and the end of
-- a recording.
pub run-IsSettled :
    (c : PathConf) (es : List Event)
    → ConfIsValid c
    → IfOk (Allowed es) (start c)
    → Ensures (λ q. IsSettled q.actions) (run c es)
unfolding run
run-IsSettled c es v a = go (start c) (start-IsGood c v) a
  where
    go :
        (m : Outcome MediaPath)
        → Ensures IsGood m
        → IfOk (Allowed es) m
        → Ensures (λ q. IsSettled q.actions) (m >>= λ p. (run_inner es p >>= λ q. finish q))
    go (ok p) w k =
        Ensures-bind IsGood _ (run_inner es p) finish (run_inner-IsGood es p w k) finish_settles
    go panic w k = w
