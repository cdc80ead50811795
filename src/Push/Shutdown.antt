-- ===== src/Push/Shutdown.antt =====
-- Starting and stopping: `startProducer`, `beginShutdown`, `Stop` and the senders of
-- backend/internal/service/push_delivery.go, and the goroutine of a fan-out in
-- push_notice_broadcast.go, as the steps that any number of goroutines take.
use daeil_scholar.Prelude.{
  ℕ, suc, ◌≤◌, ◌<◌, ◌≡◌, ◌↔◌, ◌⊎◌, refl, Bool, true, false, ◌||◌, List, [], ◌∷◌, arith, leb,
  if◌then◌else◌,
}

-- `closings` counts how often `closing` was closed, and `waiting` the calls of `Stop` that wait for
-- the producers. `panicked` says that queues were closed again, or sent to when they were closed.
pub record Life : Type 0 where
  pub closed : Bool
  pub closings : ℕ
  pub producers : ℕ
  pub waiting : ℕ
  pub queues_closed : Bool
  pub panicked : Bool

abbrev pub started : Life
started = record {
  closed = false;
  closings = 0;
  producers = 0;
  waiting = 0;
  queues_closed = false;
  panicked = false;
}

-- Under the mutex; the second result is whether the caller may go on.
unfoldable pub start_producer : Life → Life × Bool
start_producer s = if s.closed then (s, false) else (record s { producers = suc s.producers }, true)

unfoldable pub begin_shutdown : Life → Life
begin_shutdown s = if s.closed then s else record s { closed = true; closings = suc s.closings }

-- A send on a queue, with a case for a full one, panics if the queue is closed.
unfoldable pub send_item : Life → Life
send_item s = if s.queues_closed then record s { panicked = true } else s

-- The closes of `Stop`, which nothing guards.
unfoldable pub close_queues : Life → Life
close_queues s =
    if s.queues_closed then record s { panicked = true } else record s { queues_closed = true }

-- What the goroutines do.
pub data Event : Type 0 where
  starting ending fan_out_send notifier_send stop_begins stop_closes stop_gives_up : Event

-- A producer exists from its start until it is done, and may send meanwhile. `Stop` begins the
-- shutdown, waits until no producer is left or its context ends, and in the first case closes the
-- queues. `NotifyMessageReceived` and `NotifyVerificationReviewed` send at any time and are no
-- producers.
pub data Step : Event → Life → Life → Type 0 where
  producer_starts : (s : Life) → Step starting s (start_producer s).0
  producer_ends :
      (s : Life) (n : ℕ) → s.producers ≡ suc n → Step ending s (record s { producers = n })
  producer_sends : (s : Life) → 0 < s.producers → Step fan_out_send s (send_item s)
  notifier_sends : (s : Life) → Step notifier_send s (send_item s)
  shutdown_begins :
      (s : Life) → Step stop_begins s (record (begin_shutdown s) { waiting = suc s.waiting })
  queues_close :
      (s : Life) (n : ℕ)
      → s.waiting ≡ suc n
      → s.producers ≡ 0
      → Step stop_closes s (close_queues (record s { waiting = n }))
  stop_ends :
      (s : Life) (n : ℕ) → s.waiting ≡ suc n → Step stop_gives_up s (record s { waiting = n })

-- What was done, the newest first.
pub data Reach (s : Life) : List Event → Life → Type 0 where
  here : Reach s [] s
  next : {e : Event} {es : List Event} {t u : Life} → Reach s es t → Step e t u → Reach s (e ∷ es) u

-- How many calls of `Stop` went on to close the queues.
abbrev pub closes : List Event → ℕ
closes [] = 0
closes (stop_closes ∷ es) = suc (closes es)
closes (_ ∷ es) = closes es

-- How many sends of the notifiers came after such a call.
abbrev pub late_sends : List Event → ℕ
late_sends [] = 0
late_sends (notifier_send ∷ es) =
    let rest = late_sends es in if leb 1 (closes es) then suc rest else rest
late_sends (_ ∷ es) = late_sends es

record IsOrderly (es : List Event) (s : Life) : Type 0 where
  pub once : s.closings ≤ 1
  pub not_yet : s.closed ≡ false → s.closings ≡ 0
  pub none_waits : s.closed ≡ false → s.waiting ≡ 0
  pub after_shutdown : s.queues_closed ≡ true → s.closed ≡ true
  pub no_producer : s.queues_closed ≡ true → s.producers ≡ 0
  pub told : s.queues_closed ≡ leb 1 (closes es)
  pub blamed : s.panicked ≡ (leb 2 (closes es) || leb 1 (late_sends es))

Step-IsOrderly :
    {e : Event} {s t : Life} (es : List Event) → Step e s t → IsOrderly es s → IsOrderly (e ∷ es) t
unfolding start_producer begin_shutdown send_item close_queues
Step-IsOrderly es (producer_starts s) o = ground arith
Step-IsOrderly es (producer_ends s n is) o = ground arith
Step-IsOrderly es (producer_sends s some) o = ground arith
Step-IsOrderly es (notifier_sends s) o = ground arith
Step-IsOrderly es (shutdown_begins s) o = ground arith
Step-IsOrderly es (queues_close s n waits none_left) o = ground arith
Step-IsOrderly es (stop_ends s n waits) o = ground arith

Reach-IsOrderly :
    {s : Life} {es : List Event} {t : Life} → Reach s es t → IsOrderly [] s → IsOrderly es t
Reach-IsOrderly here o = o
Reach-IsOrderly (next {es = es} r step) o = Step-IsOrderly es step (Reach-IsOrderly r o)

-- Whatever the order in which producers start, send and end, the notifiers send, and calls of
-- `Stop` begin, go on or give up: a send or a close panics exactly if two of these calls went on to
-- close the queues, or a notifier sent after one did, so no send of a producer does; while a
-- producer exists the queues are open; none is let in once a shutdown has begun; and the signal of
-- the shutdown is closed once at most.
pub Reach-safe :
    (es : List Event) (s : Life)
    → Reach started es s
    → (s.panicked ≡ true ↔ (2 ≤ closes es) ⊎ (1 ≤ late_sends es))
      × (0 < s.producers → s.queues_closed ≡ false)
      × (s.closed ≡ true → (start_producer s).1 ≡ false)
      × ((begin_shutdown s).closings ≤ 1)
unfolding start_producer begin_shutdown
Reach-safe es s r =
    let o = Reach-IsOrderly r (record {
      once = omega arith;
      not_yet = λ _. refl;
      none_waits = λ _. refl;
      after_shutdown = λ h. cc;
      no_producer = λ h. cc;
      told = refl;
      blamed = refl;
    }) in
    (
      (λ h. ground (arith, o.blamed), λ h. ground (arith, o.blamed)),
      ground (arith, o.no_producer),
      λ closed. ground arith,
      ground (arith, o.once, o.not_yet),
    )
