-- ===== src/MediaPath/Safety/Static.antt =====
-- The handlers for static sources and for a reload of the configuration.
use mediamtx.Base.{ℕ, Bool, true, false, Option, none, some, ◌≡◌, refl, arith, is_some}
use mediamtx.MediaPath.Conf.{
  PathConf, has_static_source, has_on_demand_static_source, has_on_demand_publisher,
}
use mediamtx.MediaPath.State.{MediaPath, SetReadyReq}
use mediamtx.MediaPath.Step.{
  set_ready, set_not_ready, on_demand_static_source_stop, start_recording, stop_recording,
  on_demand_static_source_schedule_close,
}
use mediamtx.MediaPath.Handlers.{
  static_source_started, do_source_static_set_ready, do_source_static_set_not_ready, do_reload_conf,
}
use mediamtx.MediaPath.Invariant.{Inv, IsCoherent, Ensures, is_running}
use mediamtx.MediaPath.Safety.OnHold.{consume_on_hold_requests-Inv, emit-Inv, set_ready-none-Inv}

-- The state between `setReady` and the service of the requests on hold.
pub static_source_started-IsCoherent :
    (s : ℕ) (p : MediaPath)
    → IsCoherent p
    → is_running p.source ≡ true
    → is_some p.stream ≡ false
    → IsCoherent (static_source_started (set_ready (some s) p).0)
unfolding static_source_started set_ready on_demand_static_source_schedule_close
    has_on_demand_static_source
static_source_started-IsCoherent s p v h n = ground arith

pub static_source_started_stream :
    (s : ℕ) (p : MediaPath) → (static_source_started (set_ready (some s) p).0).stream ≡ some s
unfolding static_source_started set_ready on_demand_static_source_schedule_close
static_source_started_stream s p = ground arith

pub static_set_ready_cases :
    (o : Option ℕ) (res : ℕ) (p : MediaPath)
    → Inv p
    → is_running p.source ≡ true
    → is_some p.stream ≡ false
    → Ensures Inv (do_source_static_set_ready (record { res = res; new_stream = o }) p)
unfolding do_source_static_set_ready set_ready
static_set_ready_cases none res p v h n =
    emit-Inv _ _ (unfold set_ready in set_ready-none-Inv p v n)
static_set_ready_cases (some s) res p v h n = emit-Inv _ _ (
    consume_on_hold_requests-Inv (static_source_started (set_ready (some s) p).0)
      (static_source_started-IsCoherent s p v.coherent h n) (rw (static_source_started_stream s p)))

pub do_source_static_set_ready-Inv :
    (req : SetReadyReq) (p : MediaPath)
    → Inv p
    → is_running p.source ≡ true
    → is_some p.stream ≡ false
    → Ensures Inv (do_source_static_set_ready req p)
do_source_static_set_ready-Inv req p v h s = static_set_ready_cases req.new_stream req.res p v h s

pub do_source_static_set_not_ready-Inv :
    (res : ℕ) (p : MediaPath)
    → Inv p
    → is_running p.source ≡ true
    → is_some p.stream ≡ true
    → Ensures Inv (do_source_static_set_not_ready res p)
unfolding do_source_static_set_not_ready set_not_ready on_demand_static_source_stop
    has_on_demand_static_source
do_source_static_set_not_ready-Inv res p v h s = ground arith

-- The tests on a configuration do not read `Record`.
pub reload_keeps :
    (b : Bool) (c : PathConf)
    → (has_static_source (record c { recording = b }) ≡ has_static_source c)
      × (has_on_demand_static_source (record c { recording = b }) ≡ has_on_demand_static_source c)
      × (has_on_demand_publisher (record c { recording = b }) ≡ has_on_demand_publisher c)
unfolding has_static_source has_on_demand_static_source has_on_demand_publisher
reload_keeps b c = (refl, refl, refl)

pub reload_recording-Inv :
    (b : Bool) (p : MediaPath)
    → Inv p
    → Ensures Inv (do_reload_conf (record p.conf { recording = b }) p)
unfolding do_reload_conf start_recording stop_recording
reload_recording-Inv b p v = ground (arith, reload_keeps b p.conf)

pub do_reload_conf-Inv :
    (c : PathConf) (p : MediaPath)
    → Inv p
    → c ≡ record p.conf { recording = c.recording }
    → Ensures Inv (do_reload_conf c p)
do_reload_conf-Inv c p v e = rw e (reload_recording-Inv c.recording p v)
