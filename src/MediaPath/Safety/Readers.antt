-- ===== src/MediaPath/Safety/Readers.antt =====
-- The handlers for readers and describe requests.
use mediamtx.Base.{ℕ, true, false, List, [], ◌∷◌, ◌≡◌, refl, arith, is_some, is_empty}
use mediamtx.MediaPath.Conf.{has_on_demand_static_source}
use mediamtx.MediaPath.State.{MediaPath, AddReaderReq, DescribeReq, AuthorReq}
use mediamtx.MediaPath.Step.{
  contains, on_demand_static_source_schedule_close, on_demand_publisher_schedule_close,
  on_demand_static_source_start, on_demand_publisher_start, execute_remove_reader,
}
use mediamtx.MediaPath.Handlers.{do_describe, do_add_reader, do_remove_reader}
use mediamtx.MediaPath.Invariant.{Inv, Ensures}
use text.Mathlib.Text.{starts_with}
use mediamtx.MediaPath.Safety.OnHold.{add_reader_post-IsCoherent, add_reader_post_frame}

pub do_describe-Inv :
    (req : DescribeReq) (p : MediaPath)
    → Inv p
    → (starts_with p.conf.fallback "/" ≡ true → is_some req.rtsp_url ≡ true)
    → Ensures Inv (do_describe req p)
unfolding do_describe on_demand_static_source_start on_demand_publisher_start
    has_on_demand_static_source
do_describe-Inv req p v h = ground arith

pub do_add_reader-Inv :
    (req : AddReaderReq) (p : MediaPath) → Inv p → Ensures Inv (do_add_reader req p)
unfolding do_add_reader on_demand_static_source_start on_demand_publisher_start
    has_on_demand_static_source
do_add_reader-Inv req p v =
    ground (arith, add_reader_post-IsCoherent req p v.coherent, add_reader_post_frame req p)

pub contains_empty : (r : ℕ) (rs : List ℕ) → is_empty rs ≡ true → contains r rs ≡ false
unfolding contains
contains_empty r [] h = refl
contains_empty r (x ∷ xs) h = cc

pub do_remove_reader-Inv : (req : AuthorReq) (p : MediaPath) → Inv p → Inv (do_remove_reader req p)
unfolding do_remove_reader execute_remove_reader on_demand_static_source_schedule_close
    on_demand_publisher_schedule_close has_on_demand_static_source
do_remove_reader-Inv req p v = ground (arith, contains_empty req.author p.readers)
