-- ===== src/Logs/Stream/Limit.antt =====
-- `limit_bytes` of a followed log (src/api/log_filter.rs).
use kube_shim.Prelude.{
  ℕ, ◌+◌, ◌≤◌, ◌≡◌, ◌||◌, Option, none, some, List, [], ◌∷◌, ◌++◌, length, take, arith, Bool-cases,
  inl, inr, length-append,
}
use kube_shim.Logs.{Rfc3339}
use kube_shim.Logs.Filter.{LogFilter}
use kube_shim.Logs.Filter.Bounds.{length-take-le}
use kube_shim.Logs.Stream.{
  Event, Follow, follow_start, gather, limited, follow_step, follow, is_end,
}

-- What has been sent and what may be sent yet stay within the limit.
abbrev Room : ℕ → Option ℕ → List ℕ → Type 0
Room limit none sent = ⊥
Room limit (some left) sent = length sent + left ≤ limit

limited-Room :
    (limit : ℕ) (left : Option ℕ) (out sent : List ℕ)
    → Room limit left sent
    → Room limit (limited left out).2 (sent ++ (limited left out).0)
unfolding limited
limited-Room limit none out sent h = elim h [ ]
limited-Room limit (some left) out sent h =
    ground
      (arith, length-append sent out, length-append sent (take left out), length-take-le left out)

Room-more :
    (limit : ℕ) (left : Option ℕ) (out sent : List ℕ)
    → Room limit left (sent ++ out)
    → Room limit left sent
Room-more limit none out sent h = elim h [ ]
Room-more limit (some left) out sent h = omega (arith, length-append sent out)

module _ (rfc3339 : Rfc3339) (filter : LogFilter) (limit : ℕ) where
  follow_step-Room :
      (event : Event) (f : Follow)
      → Room limit f.remaining f.sent
      → Room limit
          (follow_step rfc3339 filter event f).remaining
          (follow_step rfc3339 filter event f).sent
  unfolding follow_step
  follow_step-Room event f h =
      let out = (gather rfc3339 filter event (f.ended || is_end event.arrival) f.merger).0 in
      let room = limited-Room limit f.remaining out f.sent h in
      elim (Bool-cases f.done) [
        | inl e ↦ rw e h
        | inr e ↦ elim (Bool-cases event.receiver_gone) [
          | inl gone ↦ rw (e, gone) (Room-more limit _ _ f.sent room)
          | inr here ↦ rw (e, here) room
        ]
      ]

  follow-Room :
      (events : List Event) (f : Follow)
      → Room limit f.remaining f.sent
      → Room limit (follow rfc3339 filter events f).remaining (follow rfc3339 filter events f).sent
  unfolding follow
  follow-Room [] f h = h
  follow-Room (event ∷ events) f h = follow-Room events _ (follow_step-Room event f h)

Room-le : (limit : ℕ) (left : Option ℕ) (sent : List ℕ) → Room limit left sent → length sent ≤ limit
Room-le limit none sent h = elim h [ ]
Room-le limit (some left) sent h = omega arith

-- A followed log with `limit_bytes` sends no more bytes than the limit, whatever arrives, in which
-- order and when.
pub length-follow-le :
    (rfc3339 : Rfc3339) (filter : LogFilter) (limit : ℕ) (events : List Event)
    → filter.limit_bytes ≡ some limit
    → length (follow rfc3339 filter events (follow_start filter)).sent ≤ limit
length-follow-le rfc3339 filter limit events e =
    Room-le limit _ _
      (follow-Room rfc3339 filter limit events (follow_start filter) (rw e (omega arith)))
