-- ===== src/MediaPath/Replies/Life.antt =====
-- Over the whole life of a path every request that it receives is answered exactly once.
use mediamtx.Base.{
  ℕ, ◌+◌, ◌≡◌, sym, ◌∙◌, List, [], ◌∷◌, arith, Option, Bool, true, false, if◌then◌else◌,
}
use mediamtx.MediaPath.Conf.{PathConf}
use mediamtx.MediaPath.State.{MediaPath, Outcome, ok, panic, ◌>>=◌, terminated, Source}
use mediamtx.MediaPath.Step.{stop_source}
use mediamtx.MediaPath.Run.{
  Event, handle, step, run_inner, start, finish, run, dismiss, withdraw_stream, close_source,
  call_un_demand_hook,
}
use mediamtx.MediaPath.Step.{start_source}
use mediamtx.MediaPath.Invariant.{ConfIsValid, Ensures}
use mediamtx.MediaPath.Life.{IfOk, Allowed, HasEnded, run-HasEnded}
use mediamtx.MediaPath.Replies.Parts.{
  answers, account, account-fail_on_hold_requests, account-set_not_ready,
}
use mediamtx.MediaPath.Replies.Handlers.{asks, account-handle, IfOk-bind, IfOk-map}

-- The events that the loop receives before it ends.
abbrev pub received : List Event → MediaPath → List Event
received [] p = []
received (e ∷ es) p = elim (step e p) [
  | ok (q, true) ↦ e ∷ []
  | ok (q, false) ↦ e ∷ received es q
  | panic ↦ e ∷ []
]

-- How many of the events are requests on the channel `i`.
abbrev pub requests : ℕ → List Event → ℕ
requests i [] = 0
requests i (e ∷ es) = asks i e + requests i es

module _ (i : ℕ) where
  account-step :
      (e : Event) (p : MediaPath) → IfOk (λ r. account i r.0 ≡ account i p + asks i e) (step e p)
  unfolding step
  account-step e p = IfOk-bind _ _ (handle e p) _ (account-handle i e p) (λ q h. h)

  account-run_inner :
      (es : List Event) (p : MediaPath)
      → IfOk (λ q. account i q ≡ account i p + requests i (received es p)) (run_inner es p)
  unfolding run_inner
  account-run_inner [] p = omega arith
  account-run_inner (e ∷ es) p = go (step e p) (account-step e p) (account-run_inner es)
    where
      go :
          (m : Outcome (MediaPath × Bool))
          → IfOk (λ r. account i r.0 ≡ account i p + asks i e) m
          → ((q : MediaPath)
              → IfOk (λ r. account i r ≡ account i q + requests i (received es q)) (run_inner es q))
          → IfOk
              (λ q.
                account i q
                ≡ account i p
                  + requests i (elim m [
                    | ok (q, true) ↦ e ∷ []
                    | ok (q, false) ↦ e ∷ received es q
                    | panic ↦ e ∷ []
                  ]))
              (m >>= λ r. (let rest = run_inner es r.0 in if r.1 then ok r.0 else rest))
      go (ok (q, true)) h ih = omega arith
      go (ok (q, false)) h ih =
          IfOk-map (λ r. account i r ≡ account i q + requests i (received es q)) _ (run_inner es q)
            (λ r k. omega arith) (ih q)
      go panic h ih = tt

  account-dismiss : (p : MediaPath) → account i (dismiss p) ≡ account i p
  unfolding dismiss
  account-dismiss p = account-fail_on_hold_requests i terminated _

  account-withdraw_stream :
      (p : MediaPath) → IfOk (λ q. account i q ≡ account i p) (withdraw_stream p)
  unfolding withdraw_stream
  account-withdraw_stream p = ground (arith, account-set_not_ready i p)

  account-close_source :
      (p : MediaPath) (s : Option Source) → IfOk (λ q. account i q ≡ account i p) (close_source p s)
  unfolding close_source stop_source
  account-close_source p s = ground arith

  account-finish : (p : MediaPath) → IfOk (λ q. account i q ≡ account i p) (finish p)
  unfolding finish call_un_demand_hook
  account-finish p =
      IfOk-bind (λ q. account i q ≡ account i p) _ (withdraw_stream (dismiss p)) _
        (IfOk-map (λ q. account i q ≡ account i (dismiss p)) _ (withdraw_stream (dismiss p))
          (λ q h. omega (arith, account-dismiss p)) (account-withdraw_stream (dismiss p)))
        (λ q h.
          IfOk-bind (λ r. account i r ≡ account i p) _ (close_source q q.source) _
            (IfOk-map (λ r. account i r ≡ account i q) _ (close_source q q.source)
              (λ r k. omega arith) (account-close_source q q.source))
            (λ r k. ground arith))

  account-start : (c : PathConf) → IfOk (λ p. account i p ≡ 0) (start c)
  unfolding start start_source
  account-start c = ground arith

  account-run :
      (c : PathConf) (es : List Event) (p : MediaPath)
      → start c ≡ ok p
      → IfOk (λ q. account i q ≡ requests i (received es p)) (run c es)
  unfolding run
  account-run c es p e = rw e (
      IfOk-bind (λ q. account i q ≡ requests i (received es p)) _ (run_inner es p) finish
        (IfOk-map (λ q. account i q ≡ account i p + requests i (received es p)) _ (run_inner es p)
          (λ q h. omega (arith, fresh)) (account-run_inner es p))
        (λ q h.
          IfOk-map (λ r. account i r ≡ account i q) _ (finish q) (λ r k. omega arith)
            (account-finish q)))
    where
      fresh : account i p ≡ 0
      fresh = rw e at (account-start c)

  account-HasEnded : (p : MediaPath) → HasEnded p → account i p ≡ answers i p.actions
  account-HasEnded p v = ground arith

pub Ensures-IfOk :
    {A : Type 0} (P Q R : A → Type 0) (m : Outcome A)
    → ((a : A) → P a → Q a → R a)
    → Ensures P m
    → IfOk Q m
    → Ensures R m
Ensures-IfOk P Q R (ok a) k h j = k a h j
Ensures-IfOk P Q R panic k h j = h

-- A path with a valid configuration, that receives any allowed events, sends on each channel as
-- many answers as it has received requests there: one for each, and none that nobody asked for.
pub answers-run_once :
    (c : PathConf) (es : List Event) (p : MediaPath) (i : ℕ)
    → ConfIsValid c
    → start c ≡ ok p
    → Allowed es p
    → Ensures (λ q. answers i q.actions ≡ requests i (received es p)) (run c es)
answers-run_once c es p i v e a =
    Ensures-IfOk HasEnded (λ q. account i q ≡ requests i (received es p)) _ (run c es)
      (λ q h k. sym (account-HasEnded i q h) ∙ k) (run-HasEnded c es v (rw e a))
      (account-run i c es p e)
