-- ===== src/MediaPath/State.antt =====
-- The state of a path (`type path struct`), the requests it receives and what it does to others.
use mediamtx.Base.{ℕ, String, Bool, Option, List}
use mediamtx.MediaPath.Conf.{PathConf}

pub data OnDemandState : Type 0 where
  initial waiting_ready ready closing : OnDemandState

-- `defs.Source`: a `*staticSourceHandler` with its field `running`, a publisher by its identity.
pub data Source : Type 0 where
  source_redirect : Source
  static_source_handler : Bool → Source
  publisher : ℕ → Source

pub data Error : Type 0 where
  timed_out terminated source_is_not_publisher already_publishing not_assigned : Error
  stream_failed max_readers_reached no_one_publishing : Error

-- What is sent on the channel of a request; `closed` is `close(req.Res)`.
pub data Reply : Type 0 where
  stream_res : Option ℕ → Reply
  path_res : Reply
  redirect_res : String → Reply
  error_res : Error → Reply
  closed : Reply

-- What a path does to the rest of the program.
pub data Action : Type 0 where
  reply : ℕ → Reply → Action
  path_ready path_not_ready close_path : Action
  source_start source_stop source_reload_conf : Action
  reader_close publisher_close : ℕ → Action
  on_init on_un_init on_demand on_un_demand on_ready on_not_ready : Action
  record_start record_stop stream_close : Action

-- `res` is the identity of the request's channel.
pub record DescribeReq : Type 0 where
  pub res : ℕ
  pub query : String
  -- `RTSPRequest`, if there is one: the URL with its scheme, user and host and a given path.
  pub rtsp_url : Option (String → String)

pub record AddReaderReq : Type 0 where
  pub res : ℕ
  pub author : ℕ
  pub query : String

pub record AddPublisherReq : Type 0 where
  pub res : ℕ
  pub author : ℕ
  pub query : String

-- `new_stream` is what `stream.New` gives for the request's description: a stream or an error.
pub record StartPublisherReq : Type 0 where
  pub res : ℕ
  pub author : ℕ
  pub new_stream : Option ℕ

pub record SetReadyReq : Type 0 where
  pub res : ℕ
  pub new_stream : Option ℕ

-- A request that names its author and nothing more.
pub record AuthorReq : Type 0 where
  pub res : ℕ
  pub author : ℕ

-- A timer field is true while its timer runs. `on_un_init_hook` is the variable of `run`. `actions` holds what was done, the newest first.
pub record MediaPath : Type 0 where
  pub conf : PathConf
  pub source : Option Source
  pub publisher_query : String
  pub stream : Option ℕ
  pub record_agent : Bool
  pub on_un_init_hook : Bool
  pub on_un_demand_hook : Bool
  pub on_not_ready_hook : Bool
  pub readers : List ℕ
  pub describe_requests_on_hold : List DescribeReq
  pub reader_add_requests_on_hold : List AddReaderReq
  pub on_demand_static_source_state : OnDemandState
  pub on_demand_static_source_ready_timer : Bool
  pub on_demand_static_source_close_timer : Bool
  pub on_demand_publisher_state : OnDemandState
  pub on_demand_publisher_ready_timer : Bool
  pub on_demand_publisher_close_timer : Bool
  pub actions : List Action

-- A handler ends, or panics.
pub data Outcome {ℓ} (A : Type ℓ) : Type ℓ where
  ok : A → Outcome A
  panic : Outcome A

infixl 5 ◌>>=◌
abbrev pub ◌>>=◌ {ℓ κ} : {A : Type ℓ} {B : Type κ} → Outcome A → (A → Outcome B) → Outcome B
ok a >>= f = f a
panic >>= f = panic
