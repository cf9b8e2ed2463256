-- ===== src/Repository/Queue/Wakeups.antt =====
-- A wake-up of the loop that finds no events.
use mathlib.Core.List.{append-nil}
use beskar.Prelude.{suc, ◌≡◌, refl, sym, ◌∙◌, true, false, [], ◌∷◌, ◌++◌, arith}
use beskar.Event.{EventPayload}
use beskar.Repository.Queue.{
  RepoHandler, append_event, event_queue_update, dequeue_events, receive_queued,
}
use beskar.Repository.Queue.Delivery.{
  System, waiting, woken, working, Step, Reach, next, rewake, Reach-Inv,
}

-- Whenever the loop waits, two senders can leave it with a token and an empty queue: the second
-- sender tells the loop of an event that the loop has already taken with the first one.
pub empty_wakeup :
    (s : System) (first second : EventPayload)
    → Reach s
    → s.at ≡ waiting
    → (t : System) × Reach t
      × (t.at ≡ waiting)
      × (t.handler.queue ≡ [])
      × (t.handler.queued ≡ true)
      × (t.sent ≡ (s.sent ++ first ∷ []) ++ second ∷ [])
      × (t.delivered ≡ t.sent)
unfolding append_event event_queue_update dequeue_events receive_queued rewake
empty_wakeup s first second r w =
    let h : RepoHandler = s.handler in
    let open' : h.queued_closed ≡ false = (Reach-Inv r).open_queue in
    let s1 : System = record s {
      handler = append_event first h;
      pending = suc s.pending;
      sent = s.sent ++ first ∷ [];
    } in
    let h2 : RepoHandler = record s1.handler { queued = true } in
    let s2 : System = record s1 { handler = h2; pending = s.pending } in
    let s3 : System = record s2 {
      handler = append_event second h2;
      pending = suc s.pending;
      sent = s1.sent ++ second ∷ [];
    } in
    let h4 : RepoHandler = record s3.handler { queued = false } in
    let s4 : System = record s3 { handler = h4; at = woken } in
    let s5 : System = record s4 {
      handler = record h4 { queue = [] };
      at = working;
      delivered = s4.delivered ++ h4.queue;
    } in
    let h6 : RepoHandler = record s5.handler { queued = true } in
    let s6 : System = record s5 { handler = h6; pending = s.pending } in
    let s7 : System = record s6 { handler = h6; at = waiting } in
    let r7 : Reach s7 =
      next
        (next
          (next
            (next
              (next
                (next (next r (Step.append first refl))
                  (Step.update s.pending h2 refl (ground arith) refl))
                (Step.append second refl))
              (Step.wake h4 w refl refl))
            (Step.dequeue refl refl))
          (Step.update s.pending h6 refl (ground arith) refl))
        (Step.finish h6 refl refl refl) in
    (s7, r7, refl, refl, refl, refl, sym ((Reach-Inv r7).accounted ∙ append-nil s7.delivered))
