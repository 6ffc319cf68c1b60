-- ===== src/MediaPath/Invariant.antt =====
-- What holds of a path between two events, and what the environment of path.go guarantees.
use mediamtx.Base.{Bool, true, false, Option, some, ◌≡◌, ◌&&◌, ◌||◌, not, is_empty, is_some}
use mediamtx.MediaPath.Conf.{
  PathConf, has_static_source, has_on_demand_static_source, has_on_demand_publisher,
}
use mediamtx.MediaPath.State.{
  Source, static_source_handler, publisher, MediaPath, Outcome, ok, panic,
}
use mediamtx.MediaPath.Step.{is_initial, is_waiting_ready, is_ready, is_closing}
use mediamtx.MediaPath.Handlers.{is_author}
use mediamtx.MediaPath.Run.{
  Event, static_source_ready_timer, static_source_close_timer, publisher_ready_timer,
  publisher_close_timer, reload_conf, source_static_set_ready, source_static_set_not_ready,
  describe, start_publisher,
}
use text.Mathlib.Text.{◌==◌, starts_with}

abbrev pub is_handler : Option Source → Bool
is_handler (some (static_source_handler b)) = true
is_handler _ = false

abbrev pub is_running : Option Source → Bool
is_running (some (static_source_handler b)) = b
is_running _ = false

abbrev pub is_publisher : Option Source → Bool
is_publisher (some (publisher a)) = true
is_publisher _ = false

-- What `conf.Path.validate` checks, as far as a path relies on it.
pub record ConfIsValid (c : PathConf) : Type 0 where
  pub on_demand_publishes : has_on_demand_publisher c ≡ true → (c.source == "publisher") ≡ true
  pub publisher_not_static : (c.source == "publisher") ≡ true → has_static_source c ≡ false

-- The state of a path, less the requests on hold.
pub record IsCoherent (p : MediaPath) : Type 0 where
  pub valid : ConfIsValid p.conf
  pub init_hook : p.on_un_init_hook ≡ true
  pub handler : is_handler p.source ≡ has_static_source p.conf
  pub publishes : is_publisher p.source ≡ true → (p.conf.source == "publisher") ≡ true
  pub others : (p.conf.source == "publisher") ≡ true → (is_publisher p.source ≡ is_some p.source)
  pub running :
      has_static_source p.conf ≡ true
      → is_running p.source
        ≡ (not p.conf.source_on_demand || not (is_initial p.on_demand_static_source_state))
  pub static_state :
      is_initial p.on_demand_static_source_state ≡ false → has_on_demand_static_source p.conf ≡ true
  pub static_ready_timer :
      p.on_demand_static_source_ready_timer ≡ is_waiting_ready p.on_demand_static_source_state
  pub static_close_timer :
      p.on_demand_static_source_close_timer ≡ is_closing p.on_demand_static_source_state
  pub static_stream :
      has_on_demand_static_source p.conf ≡ true
      → is_some p.stream
        ≡ (is_ready p.on_demand_static_source_state || is_closing p.on_demand_static_source_state)
  pub static_ready : is_ready p.on_demand_static_source_state ≡ true → is_empty p.readers ≡ false
  pub static_closing : is_closing p.on_demand_static_source_state ≡ true → is_empty p.readers ≡ true
  pub publisher_state :
      is_initial p.on_demand_publisher_state ≡ false → has_on_demand_publisher p.conf ≡ true
  pub publisher_hook : p.on_un_demand_hook ≡ not (is_initial p.on_demand_publisher_state)
  pub publisher_ready_timer :
      p.on_demand_publisher_ready_timer ≡ is_waiting_ready p.on_demand_publisher_state
  pub publisher_close_timer :
      p.on_demand_publisher_close_timer ≡ is_closing p.on_demand_publisher_state
  pub publisher_waiting :
      is_waiting_ready p.on_demand_publisher_state ≡ true → is_some p.stream ≡ false
  pub publisher_closing : is_closing p.on_demand_publisher_state ≡ true → is_empty p.readers ≡ true
  pub not_ready_hook : is_some p.stream ≡ true → p.on_not_ready_hook ≡ true
  pub readers_stream : is_some p.stream ≡ false → is_empty p.readers ≡ true
  pub recording_stream : p.record_agent ≡ true → is_some p.stream ≡ true

abbrev pub holds_nothing : MediaPath → Bool
holds_nothing p = is_empty p.describe_requests_on_hold && is_empty p.reader_add_requests_on_hold

-- Who waits, waits for a source that is on demand, and for a static one its timer runs.
pub record IsPatient (p : MediaPath) : Type 0 where
  pub stream_serves : is_some p.stream ≡ true → holds_nothing p ≡ true
  pub static_waits :
      has_on_demand_static_source p.conf ≡ true
      → is_initial p.on_demand_static_source_state ≡ true
      → holds_nothing p ≡ true
  pub on_demand_only :
      has_on_demand_static_source p.conf ≡ false
      → has_on_demand_publisher p.conf ≡ false
      → holds_nothing p ≡ true

pub record Inv (p : MediaPath) : Type 0 where
  pub coherent : IsCoherent p
  pub patient : IsPatient p

-- A timer fires only while it runs. `pathConfCanBeUpdated` lets a reload change `Record` alone (of
-- the fields modelled). A static source calls `SetReady` only while it runs and is not ready, and
-- `SetNotReady` only while it is ready. Describe requests come with an RTSP request where the
-- fallback needs it. A publisher starts once.
abbrev pub Enabled : Event → MediaPath → Type 0
Enabled static_source_ready_timer p = p.on_demand_static_source_ready_timer ≡ true
Enabled static_source_close_timer p = p.on_demand_static_source_close_timer ≡ true
Enabled publisher_ready_timer p = p.on_demand_publisher_ready_timer ≡ true
Enabled publisher_close_timer p = p.on_demand_publisher_close_timer ≡ true
Enabled (reload_conf c) p = c ≡ record p.conf { recording = c.recording }
Enabled (source_static_set_ready req) p = (is_running p.source ≡ true) × (is_some p.stream ≡ false)
Enabled (source_static_set_not_ready res) p =
    (is_running p.source ≡ true) × (is_some p.stream ≡ true)
Enabled (describe req) p = starts_with p.conf.fallback "/" ≡ true → is_some req.rtsp_url ≡ true
Enabled (start_publisher req) p = is_author p.source req.author ≡ true → is_some p.stream ≡ false
Enabled _ p = Unit {0}

-- The handler ends without a panic, and its result has the property.
abbrev pub Ensures {ℓ} : {A : Type ℓ} → (A → Type 0) → Outcome A → Type 0
Ensures P (ok a) = P a
Ensures P panic = ⊥
