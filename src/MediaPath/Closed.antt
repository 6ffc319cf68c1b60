-- ===== src/MediaPath/Closed.antt =====
-- The last actions of a path, at the end of `run` in internal/core/path.go.
use mediamtx.Base.{Bool, true, false, Option, some, List, ◌∷◌, ◌==◌}
use mediamtx.MediaPath.State.{Source, publisher, Action, publisher_close, on_un_demand}

-- A path has closed the publisher that is its source, before it called its last hook.
abbrev pub has_closed : Option Source → List Action → Bool
has_closed (some (publisher a)) (on_un_demand ∷ l) = has_closed (some (publisher a)) l
has_closed (some (publisher a)) (publisher_close b ∷ l) = a == b
has_closed (some (publisher a)) _ = false
has_closed _ l = true

abbrev pub is_un_demanded : List Action → Bool
is_un_demanded (on_un_demand ∷ l) = true
is_un_demanded _ = false
