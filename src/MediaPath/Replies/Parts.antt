-- ===== src/MediaPath/Replies/Parts.antt =====
-- The answers that a path has sent, the requests that wait, and what the shared parts add to them.
use mediamtx.Base.{
  ℕ, ◌+◌, ◌≡◌, refl, List, [], ◌∷◌, ◌++◌, ◌==◌, if◌then◌else◌, arith, Option, none, some,
}
use mediamtx.MediaPath.State.{
  Action, reply, Reply, DescribeReq, AddReaderReq, MediaPath, Error, error_res,
}
use mediamtx.MediaPath.Step.{
  close_readers, reply_describes, reply_readers, add_reader_post, add_readers_post,
  consume_on_hold_requests, fail_on_hold_requests, set_not_ready, set_ready, start_recording,
  on_demand_static_source_stop, on_demand_publisher_stop, execute_remove_publisher,
}
use mediamtx.MediaPath.Life.{IfOk}

-- 1 if the channel `r` is the channel `i`.
abbrev pub is_it : ℕ → ℕ → ℕ
is_it i r = if r == i then 1 else 0

abbrev pub answers : ℕ → List Action → ℕ
answers i [] = 0
answers i (reply r x ∷ l) = is_it i r + answers i l
answers i (_ ∷ l) = answers i l

abbrev pub describes : ℕ → List DescribeReq → ℕ
describes i [] = 0
describes i (req ∷ reqs) = is_it i req.res + describes i reqs

abbrev pub add_readers : ℕ → List AddReaderReq → ℕ
add_readers i [] = 0
add_readers i (req ∷ reqs) = is_it i req.res + add_readers i reqs

-- The answers on the channel `i`, with the requests on hold that wait on it.
abbrev pub account : ℕ → MediaPath → ℕ
account i p =
    answers i p.actions
    + describes i p.describe_requests_on_hold
    + add_readers i p.reader_add_requests_on_hold

module _ (i : ℕ) where
  pub describes-append :
      (xs ys : List DescribeReq) → describes i (xs ++ ys) ≡ describes i xs + describes i ys
  describes-append [] ys = omega arith
  describes-append (x ∷ xs) ys = omega (arith, describes-append xs ys)

  pub add_readers-append :
      (xs ys : List AddReaderReq) → add_readers i (xs ++ ys) ≡ add_readers i xs + add_readers i ys
  add_readers-append [] ys = omega arith
  add_readers-append (x ∷ xs) ys = omega (arith, add_readers-append xs ys)

  pub answers-close_readers :
      (rs : List ℕ) (l : List Action) → answers i (close_readers rs l) ≡ answers i l
  unfolding close_readers
  answers-close_readers [] l = refl
  answers-close_readers (r ∷ rs) l = answers-close_readers rs _

  pub answers-reply_describes :
      (x : Reply) (reqs : List DescribeReq) (l : List Action)
      → answers i (reply_describes x reqs l) ≡ describes i reqs + answers i l
  unfolding reply_describes
  answers-reply_describes x [] l = omega arith
  answers-reply_describes x (req ∷ reqs) l =
      omega (arith, answers-reply_describes x reqs (reply req.res x ∷ l))

  pub answers-reply_readers :
      (x : Reply) (reqs : List AddReaderReq) (l : List Action)
      → answers i (reply_readers x reqs l) ≡ add_readers i reqs + answers i l
  unfolding reply_readers
  answers-reply_readers x [] l = omega arith
  answers-reply_readers x (req ∷ reqs) l =
      omega (arith, answers-reply_readers x reqs (reply req.res x ∷ l))

  pub answers-add_reader_post :
      (req : AddReaderReq) (p : MediaPath)
      → (answers i (add_reader_post req p).actions ≡ is_it i req.res + answers i p.actions)
        × (describes i (add_reader_post req p).describe_requests_on_hold
            ≡ describes i p.describe_requests_on_hold)
        × (add_readers i (add_reader_post req p).reader_add_requests_on_hold
            ≡ add_readers i p.reader_add_requests_on_hold)
  unfolding add_reader_post
  answers-add_reader_post req p = ground arith

  pub answers-add_readers_post :
      (reqs : List AddReaderReq) (p : MediaPath)
      → (answers i (add_readers_post reqs p).actions ≡ add_readers i reqs + answers i p.actions)
        × (describes i (add_readers_post reqs p).describe_requests_on_hold
            ≡ describes i p.describe_requests_on_hold)
  unfolding add_readers_post
  answers-add_readers_post [] p = (omega arith, refl)
  answers-add_readers_post (req ∷ reqs) p =
      omega (
        arith,
        answers-add_reader_post req p,
        answers-add_readers_post reqs (add_reader_post req p),
      )

  -- Serving the requests on hold answers each of them, and so does failing them.
  pub account-consume_on_hold_requests :
      (p : MediaPath) → account i (consume_on_hold_requests p) ≡ account i p
  unfolding consume_on_hold_requests
  account-consume_on_hold_requests p = omega (
    arith,
    answers-add_readers_post p.reader_add_requests_on_hold _,
    answers-reply_describes _ p.describe_requests_on_hold p.actions,
  )

  pub account-fail_on_hold_requests :
      (e : Error) (p : MediaPath) → account i (fail_on_hold_requests e p) ≡ account i p
  unfolding fail_on_hold_requests
  account-fail_on_hold_requests e p = omega (
    arith,
    answers-reply_readers (error_res e) p.reader_add_requests_on_hold
        (reply_describes (error_res e) p.describe_requests_on_hold p.actions),
    answers-reply_describes (error_res e) p.describe_requests_on_hold p.actions,
  )

  pub account-set_not_ready :
      (p : MediaPath) → IfOk (λ q. account i q ≡ account i p) (set_not_ready p)
  unfolding set_not_ready
  account-set_not_ready p =
      ground (arith, answers-close_readers p.readers (Action.path_not_ready ∷ p.actions))

  pub account-execute_remove_publisher :
      (p : MediaPath) → IfOk (λ q. account i q ≡ account i p) (execute_remove_publisher p)
  unfolding execute_remove_publisher set_not_ready
  account-execute_remove_publisher p =
      ground (arith, answers-close_readers p.readers (Action.path_not_ready ∷ p.actions))

  pub account-on_demand_static_source_stop :
      (p : MediaPath) → IfOk (λ q. account i q ≡ account i p) (on_demand_static_source_stop p)
  unfolding on_demand_static_source_stop
  account-on_demand_static_source_stop p = ground arith

  pub account-on_demand_publisher_stop :
      (p : MediaPath) → IfOk (λ q. account i q ≡ account i p) (on_demand_publisher_stop p)
  unfolding on_demand_publisher_stop
  account-on_demand_publisher_stop p = ground arith

  pub account-set_ready : (o : Option ℕ) (p : MediaPath) → account i (set_ready o p).0 ≡ account i p
  unfolding set_ready start_recording
  account-set_ready none p = refl
  account-set_ready (some s) p = ground arith
