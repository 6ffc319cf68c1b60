-- ===== src/MediaPath/Conf.antt =====
-- internal/conf/path.go: the settings of a path that path.go reads, and its three tests.
use mediamtx.Base.{ℕ, String, Bool, ◌&&◌, ◌||◌, not}
use text.Mathlib.Text.{◌==◌, starts_with}

-- `regexp` says whether `Regexp` is not nil; `recording` is the field `Record`.
pub record PathConf : Type 0 where
  pub regexp : Bool
  pub source : String
  pub source_on_demand : Bool
  pub source_redirect : String
  pub fallback : String
  pub max_readers : ℕ
  pub recording : Bool
  pub override_publisher : Bool
  pub run_on_demand : String

unfoldable pub has_static_source : PathConf → Bool
has_static_source c =
    starts_with c.source "rtsp://"
    || starts_with c.source "rtsps://"
    || starts_with c.source "rtmp://"
    || starts_with c.source "rtmps://"
    || starts_with c.source "http://"
    || starts_with c.source "https://"
    || starts_with c.source "udp://"
    || starts_with c.source "srt://"
    || starts_with c.source "whep://"
    || starts_with c.source "wheps://"
    || c.source == "rpiCamera"

unfoldable pub has_on_demand_static_source : PathConf → Bool
has_on_demand_static_source c = has_static_source c && c.source_on_demand

unfoldable pub has_on_demand_publisher : PathConf → Bool
has_on_demand_publisher c = not (c.run_on_demand == "")
