-- ===== src/MediaPath/Safety/OnHold.antt =====
-- Service of the requests on hold, and the parts that the handlers share.
use mediamtx.Base.{true, false, none, List, [], ◌∷◌, ◌≡◌, refl, arith, is_some, is_empty}
use mediamtx.MediaPath.Conf.{has_on_demand_static_source}
use mediamtx.MediaPath.State.{MediaPath, Action, stream_res, AddReaderReq}
use mediamtx.MediaPath.Step.{
  emit, set_ready, add_reader_post, add_readers_post, consume_on_hold_requests, reply_describes,
}
use mediamtx.MediaPath.Invariant.{Inv, IsCoherent}

-- A reader that is let in keeps the source; the requests on hold and the stream stay as they are.
pub add_reader_post-IsCoherent :
    (req : AddReaderReq) (p : MediaPath)
    → IsCoherent p
    → is_some p.stream ≡ true
    → IsCoherent (add_reader_post req p)
unfolding add_reader_post has_on_demand_static_source
add_reader_post-IsCoherent req p v h = ground arith

pub add_reader_post_frame :
    (req : AddReaderReq) (p : MediaPath)
    → ((add_reader_post req p).stream ≡ p.stream)
      × ((add_reader_post req p).conf ≡ p.conf)
      × ((add_reader_post req p).describe_requests_on_hold ≡ p.describe_requests_on_hold)
      × ((add_reader_post req p).reader_add_requests_on_hold ≡ p.reader_add_requests_on_hold)
unfolding add_reader_post
add_reader_post_frame req p = ground arith

pub add_readers_post-IsCoherent :
    (reqs : List AddReaderReq) (p : MediaPath)
    → IsCoherent p
    → is_some p.stream ≡ true
    → IsCoherent (add_readers_post reqs p)
unfolding add_readers_post
add_readers_post-IsCoherent [] p v h = v
add_readers_post-IsCoherent (req ∷ reqs) p v h =
    add_readers_post-IsCoherent reqs (add_reader_post req p) (add_reader_post-IsCoherent req p v h)
      (ground (arith, add_reader_post_frame req p))

pub add_readers_post_frame :
    (reqs : List AddReaderReq) (p : MediaPath)
    → ((add_readers_post reqs p).stream ≡ p.stream)
      × ((add_readers_post reqs p).conf ≡ p.conf)
      × ((add_readers_post reqs p).describe_requests_on_hold ≡ p.describe_requests_on_hold)
unfolding add_readers_post
add_readers_post_frame [] p = (refl, refl, refl)
add_readers_post_frame (req ∷ reqs) p =
    ground (arith, add_reader_post_frame req p, add_readers_post_frame reqs (add_reader_post req p))

pub forget_describes :
    (p : MediaPath) (l : List Action)
    → IsCoherent p
    → IsCoherent (record p { describe_requests_on_hold = []; actions = l })
forget_describes p l v = ground arith

pub forget_readers :
    (p : MediaPath) → IsCoherent p → IsCoherent (record p { reader_add_requests_on_hold = [] })
forget_readers p v = ground arith

pub consumed-Inv :
    (p : MediaPath)
    → IsCoherent p
    → is_empty p.describe_requests_on_hold ≡ true
    → Inv (record p { reader_add_requests_on_hold = [] })
consumed-Inv p v h = ground (arith, forget_readers p v)

-- Serving the requests on hold gives the whole invariant.
pub consume_on_hold_requests-Inv :
    (p : MediaPath) → IsCoherent p → is_some p.stream ≡ true → Inv (consume_on_hold_requests p)
unfolding consume_on_hold_requests
consume_on_hold_requests-Inv p v h =
    consumed-Inv (add_readers_post p.reader_add_requests_on_hold served) consumed
      (rw (add_readers_post_frame p.reader_add_requests_on_hold served).2)
  where
    served : MediaPath
    served = record p {
      describe_requests_on_hold = [];
      actions = reply_describes (stream_res p.stream) p.describe_requests_on_hold p.actions;
    }

    served-IsCoherent : IsCoherent served
    served-IsCoherent = forget_describes p _ v

    consumed : IsCoherent (add_readers_post p.reader_add_requests_on_hold served)
    consumed = add_readers_post-IsCoherent p.reader_add_requests_on_hold served served-IsCoherent h

pub emit-Inv : (a : Action) (p : MediaPath) → Inv p → Inv (emit a p)
emit-Inv a p v = ground arith

pub set_ready-none-Inv :
    (p : MediaPath) → Inv p → is_some p.stream ≡ false → Inv (set_ready none p).0
unfolding set_ready
set_ready-none-Inv p v h = ground arith
