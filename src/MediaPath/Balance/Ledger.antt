-- ===== src/MediaPath/Balance/Ledger.antt =====
-- What a path has opened and closed, counted over its actions.
use mediamtx.Base.{ℕ, ◌+◌, ◌≡◌, refl, List, [], ◌∷◌, arith, Bool, true, false, is_some}
use mediamtx.MediaPath.State.{
  Action, path_ready, path_not_ready, source_start, source_stop, on_init, on_un_init, on_demand,
  on_un_demand, on_ready, on_not_ready, record_start, record_stop, stream_close, Reply, DescribeReq,
  AddReaderReq, MediaPath, Error, error_res,
}
use mediamtx.MediaPath.Step.{
  close_readers, reply_describes, reply_readers, add_reader_post, add_readers_post,
  consume_on_hold_requests, fail_on_hold_requests,
}
use mediamtx.MediaPath.Invariant.{is_running}

pub record Ledger : Type 0 where
  pub source_starts : ℕ
  pub source_stops : ℕ
  pub inits : ℕ
  pub un_inits : ℕ
  pub demands : ℕ
  pub un_demands : ℕ
  pub readies : ℕ
  pub not_readies : ℕ
  pub announced : ℕ
  pub withdrawn : ℕ
  pub record_starts : ℕ
  pub record_stops : ℕ
  pub stream_closes : ℕ

abbrev post : Action → Ledger → Ledger
post source_start g = record g { source_starts = g.source_starts + 1 }
post source_stop g = record g { source_stops = g.source_stops + 1 }
post on_init g = record g { inits = g.inits + 1 }
post on_un_init g = record g { un_inits = g.un_inits + 1 }
post on_demand g = record g { demands = g.demands + 1 }
post on_un_demand g = record g { un_demands = g.un_demands + 1 }
post on_ready g = record g { readies = g.readies + 1 }
post on_not_ready g = record g { not_readies = g.not_readies + 1 }
post path_ready g = record g { announced = g.announced + 1 }
post path_not_ready g = record g { withdrawn = g.withdrawn + 1 }
post record_start g = record g { record_starts = g.record_starts + 1 }
post record_stop g = record g { record_stops = g.record_stops + 1 }
post stream_close g = record g { stream_closes = g.stream_closes + 1 }
post _ g = g

abbrev empty : Ledger
empty = record {
  source_starts = 0;
  source_stops = 0;
  inits = 0;
  un_inits = 0;
  demands = 0;
  un_demands = 0;
  readies = 0;
  not_readies = 0;
  announced = 0;
  withdrawn = 0;
  record_starts = 0;
  record_stops = 0;
  stream_closes = 0;
}

abbrev pub ledger : List Action → Ledger
ledger [] = empty
ledger (a ∷ l) = post a (ledger l)

abbrev pub bit : Bool → ℕ
bit true = 1
bit false = 0

-- Of each kind of thing at most one is open, and the state says whether one is.
pub record IsBalanced (p : MediaPath) : Type 0 where
  pub sources :
      (ledger p.actions).source_starts ≡ (ledger p.actions).source_stops + bit (is_running p.source)
  pub init_hooks : (ledger p.actions).inits ≡ (ledger p.actions).un_inits + bit p.on_un_init_hook
  pub hooks : (ledger p.actions).demands ≡ (ledger p.actions).un_demands + bit p.on_un_demand_hook
  pub ready_hooks :
      (ledger p.actions).readies ≡ (ledger p.actions).not_readies + bit (is_some p.stream)
  pub announcements :
      (ledger p.actions).announced ≡ (ledger p.actions).withdrawn + bit (is_some p.stream)
  pub streams :
      (ledger p.actions).readies ≡ (ledger p.actions).stream_closes + bit (is_some p.stream)
  pub recordings :
      (ledger p.actions).record_starts ≡ (ledger p.actions).record_stops + bit p.record_agent

pub ledger-close_readers : (rs : List ℕ) (l : List Action) → ledger (close_readers rs l) ≡ ledger l
unfolding close_readers
ledger-close_readers [] l = refl
ledger-close_readers (r ∷ rs) l = ledger-close_readers rs _

pub ledger-reply_describes :
    (x : Reply) (reqs : List DescribeReq) (l : List Action)
    → ledger (reply_describes x reqs l) ≡ ledger l
unfolding reply_describes
ledger-reply_describes x [] l = refl
ledger-reply_describes x (req ∷ reqs) l = ledger-reply_describes x reqs _

pub ledger-reply_readers :
    (x : Reply) (reqs : List AddReaderReq) (l : List Action)
    → ledger (reply_readers x reqs l) ≡ ledger l
unfolding reply_readers
ledger-reply_readers x [] l = refl
ledger-reply_readers x (req ∷ reqs) l = ledger-reply_readers x reqs _

-- Letting a reader in opens and closes nothing.
pub add_reader_post-IsBalanced :
    (req : AddReaderReq) (p : MediaPath) → IsBalanced p → IsBalanced (add_reader_post req p)
unfolding add_reader_post
add_reader_post-IsBalanced req p v = ground arith

pub add_readers_post-IsBalanced :
    (reqs : List AddReaderReq) (p : MediaPath) → IsBalanced p → IsBalanced (add_readers_post reqs p)
unfolding add_readers_post
add_readers_post-IsBalanced [] p v = v
add_readers_post-IsBalanced (req ∷ reqs) p v =
    add_readers_post-IsBalanced reqs (add_reader_post req p) (add_reader_post-IsBalanced req p v)

served-IsBalanced :
    (x : Reply) (p : MediaPath)
    → IsBalanced p
    → IsBalanced (record p {
      describe_requests_on_hold = [];
      actions = reply_describes x p.describe_requests_on_hold p.actions;
    })
served-IsBalanced x p v =
    ground (arith, ledger-reply_describes x p.describe_requests_on_hold p.actions)

forgotten-IsBalanced :
    (p : MediaPath) → IsBalanced p → IsBalanced (record p { reader_add_requests_on_hold = [] })
forgotten-IsBalanced p v = ground arith

pub consume_on_hold_requests-IsBalanced :
    (p : MediaPath) → IsBalanced p → IsBalanced (consume_on_hold_requests p)
unfolding consume_on_hold_requests
consume_on_hold_requests-IsBalanced p v =
    forgotten-IsBalanced _
      (add_readers_post-IsBalanced p.reader_add_requests_on_hold _ (served-IsBalanced _ p v))

pub fail_on_hold_requests-IsBalanced :
    (e : Error) (p : MediaPath) → IsBalanced p → IsBalanced (fail_on_hold_requests e p)
unfolding fail_on_hold_requests
fail_on_hold_requests-IsBalanced e p v = ground (
  arith,
  ledger-reply_readers (error_res e) p.reader_add_requests_on_hold
      (reply_describes (error_res e) p.describe_requests_on_hold p.actions),
  ledger-reply_describes (error_res e) p.describe_requests_on_hold p.actions,
)
