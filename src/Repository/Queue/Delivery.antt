-- ===== src/Repository/Queue/Delivery.antt =====
-- Any number of senders and the loop of one handler, as interleaved steps: no event is lost,
-- duplicated or reordered, and no wake-up is missed.
use mathlib.Core.Path.{subst}
use mathlib.Core.List.{append_assoc, append-nil}
use beskar.Prelude.{
  ℕ, suc, ◌<◌, ◌≡◌, refl, sym, ◌∙◌, ap, ◌⊎◌, inl, inr, true, false, List, [], ◌∷◌, ◌++◌, arith,
  if◌then◌else◌, ltb,
}
use beskar.Prelude.Outcome.{Outcome, done}
use beskar.Event.{EventPayload}
use beskar.Repository.Queue.{
  RepoHandler, new_repo_handler, append_event, event_queue_update, dequeue_events,
  event_queue_length, receive_queued,
}

-- Where the loop is: at its `select`, behind a receive from `Queued`, or at work on the events.
pub data At : Type 0 where
  waiting woken working : At

-- `pending`: senders between the append and the update. `sent` and `delivered` are histories.
pub record System : Type 0 where
  pub handler : RepoHandler
  pub pending : ℕ
  pub at : At
  pub sent : List EventPayload
  pub delivered : List EventPayload

abbrev pub init : System
init = record { handler = new_repo_handler; pending = 0; at = waiting; sent = []; delivered = [] }

-- The loop wakes itself when events came in while it worked. Another append between the test and
-- the update has an update of its own.
unfoldable pub rewake : RepoHandler → Outcome RepoHandler
unfolding event_queue_length event_queue_update
rewake rh = if ltb 0 (event_queue_length rh) then event_queue_update rh else done rh

-- Each step performs an operation of the handler.
pub data Step (s : System) (t : System) : Type 0 where
  append :
      (event : EventPayload)
      → t ≡ record s {
        handler = append_event event s.handler;
        pending = suc s.pending;
        sent = s.sent ++ event ∷ [];
      }
      → Step s t
  update :
      (n : ℕ) (rh : RepoHandler)
      → s.pending ≡ suc n
      → event_queue_update s.handler ≡ done rh
      → t ≡ record s { handler = rh; pending = n }
      → Step s t
  wake :
      (rh : RepoHandler)
      → s.at ≡ waiting
      → receive_queued s.handler ≡ done rh
      → t ≡ record s { handler = rh; at = woken }
      → Step s t
  dequeue :
      s.at ≡ woken
      → t ≡ record s {
        handler = (dequeue_events s.handler).1;
        at = working;
        delivered = s.delivered ++ (dequeue_events s.handler).0;
      }
      → Step s t
  finish :
      (rh : RepoHandler)
      → s.at ≡ working
      → rewake s.handler ≡ done rh
      → t ≡ record s { handler = rh; at = waiting }
      → Step s t

pub data Reach : System → Type 0 where
  start : Reach init
  next : {s t : System} → Reach s → Step s t → Reach t

pub record Inv (s : System) : Type 0 where
  pub open_queue : s.handler.queued_closed ≡ false
  pub accounted : s.sent ≡ s.delivered ++ s.handler.queue
  pub noticed :
      (s.handler.queue ≡ [])
      ⊎ (s.handler.queued ≡ true)
      ⊎ (0 < s.pending)
      ⊎ (s.at ≡ woken)
      ⊎ (s.at ≡ working)

init-Inv : Inv init
unfolding new_repo_handler
init-Inv = record { open_queue = refl; accounted = refl; noticed = inl refl }

finish-Inv :
    (s : System) (rh : RepoHandler)
    → Inv s
    → rewake s.handler ≡ done rh
    → Inv (record s { handler = rh; at = waiting })
unfolding rewake
finish-Inv s rh v q = ground arith

-- Every step keeps the accounts and leaves no event unnoticed.
pub Step-Inv : {s t : System} → Step s t → Inv s → Inv t
unfolding append_event event_queue_update receive_queued dequeue_events rewake
Step-Inv {s} {t} (append event e) v = subst Inv (sym e) (record {
  open_queue = v.open_queue;
  accounted =
      ap (λ (l : List EventPayload). l ++ event ∷ []) v.accounted
      ∙ append_assoc s.delivered s.handler.queue (event ∷ []);
  noticed = inr (inr (inl (omega arith)));
})
Step-Inv {s} {t} (update n rh p q e) v = subst Inv (sym e) (ground arith)
Step-Inv {s} {t} (wake rh p q e) v = subst Inv (sym e) (ground arith)
Step-Inv {s} {t} (dequeue p e) v = subst Inv (sym e) (record {
  open_queue = v.open_queue;
  accounted = v.accounted ∙ sym (append-nil (s.delivered ++ s.handler.queue));
  noticed = inl refl;
})
Step-Inv {s} {t} (finish rh p q e) v = subst Inv (sym e) (finish-Inv s rh v q)

pub Reach-Inv : {s : System} → Reach s → Inv s
Reach-Inv start = init-Inv
Reach-Inv (next r st) = Step-Inv st (Reach-Inv r)

-- When no sender is between its two steps, the loop is at its `select` and the channel holds no
-- token, every event that was sent has been delivered, once and in the order of the appends.
pub quiet-delivered :
    {s : System}
    → Reach s
    → s.pending ≡ 0
    → s.at ≡ waiting
    → s.handler.queued ≡ false
    → s.delivered ≡ s.sent
quiet-delivered {s} r p w q = go (Reach-Inv r).noticed
  where
    go :
        (s.handler.queue ≡ [])
          ⊎ (s.handler.queued ≡ true)
          ⊎ (0 < s.pending)
          ⊎ (s.at ≡ woken)
          ⊎ (s.at ≡ working)
        → s.delivered ≡ s.sent
    go (inl e) = sym ((Reach-Inv r).accounted ∙ ap (◌++◌ s.delivered) e ∙ append-nil s.delivered)
    go (inr h) = ground arith
