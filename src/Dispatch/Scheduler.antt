-- ===== src/Dispatch/Scheduler.antt =====
-- The scheduler of src/scheduler.h and src/scheduler.cpp: events that are handed to the dispatcher
-- when their time has come. What is posted to the io_context is a queue that the scheduler's thread
-- goes through in order. A wait on a timer is pending until its time has come or it is cancelled, and
-- its handler runs at some later time. Creating a timer for an id that has one, erasing it from the
-- map and cancelling it abort the pending waits of that id.
pub mod Events
mod Tests
use xynera_ots.Prelude.{
  ℕ, zero, suc, ◌+◌, ◌%◌, ◌^◌, ◌≡◌, Bool, true, false, ◌||◌, List, [], ◌∷◌, ◌++◌, map, ◌==◌,
  if◌then◌else◌,
}
use xynera_ots.Dispatch.{
  ThreadState, terminated, closing, is_terminated, Func, create_task, Dispatcher, add_task,
}

pub data Status : Type 0 where
  pending expired aborted : Status

-- A SchedulerTask whose timer is waited for.
pub record Wait : Type 0 where
  pub event_id : ℕ
  pub func : Func
  pub status : Status

pub data Posted : Type 0 where
  insert : ℕ → Func → Posted
  cancel : ℕ → Posted
  cancel_all : Posted

-- `handed` and `dropped` have no counterpart in the code: the events whose handler gave them to the
-- dispatcher, and those whose handler deleted them. `stopped` is the io_context's.
pub record Scheduler : Type 0 where
  pub state : ThreadState
  pub last_event_id : ℕ
  pub posted : List Posted
  pub waits : List Wait
  pub stopped : Bool
  pub dispatcher : Dispatcher
  pub handed : List ℕ
  pub dropped : List ℕ

abbrev pub abort : Status → Status
abort pending = aborted
abort expired = expired
abort aborted = aborted

abbrev pub abort_wait : ℕ → Wait → Wait
abort_wait i w = if w.event_id == i then record w { status = abort w.status } else w

abbrev pub abort_every : Wait → Wait
abort_every w = record w { status = abort w.status }

-- `addEvent` of a task that has no event id yet.
unfoldable pub add_event : Func → Scheduler → Scheduler
add_event f s =
    let i = (s.last_event_id + 1) % 2 ^ 32 in
    record s { last_event_id = i; posted = s.posted ++ insert i f ∷ [] }

unfoldable pub stop_event : ℕ → Scheduler → Scheduler
stop_event i s = if i == 0 then s else record s { posted = s.posted ++ cancel i ∷ [] }

unfoldable pub shutdown : Scheduler → Scheduler
shutdown s = record s { state = terminated; posted = s.posted ++ cancel_all ∷ [] }

-- `stop` of ThreadHolder.
abbrev pub close : Scheduler → Scheduler
close s = record s { state = closing }

-- What the thread does with an entry of the queue.
unfoldable pub perform : Posted → Scheduler → Scheduler
perform (insert i f) s = record s {
  waits = map (abort_wait i) s.waits ++ record { event_id = i; func = f; status = pending } ∷ [];
}
perform (cancel i) s = record s { waits = map (abort_wait i) s.waits }
perform cancel_all s = record s { waits = map abort_every s.waits; stopped = true }

unfoldable pub perform_next : List Posted → Scheduler → Scheduler
unfolding perform
perform_next [] s = s
perform_next (p ∷ ps) s = if s.stopped then s else perform p (record s { posted = ps })

abbrev pub expire : Status → Status
expire pending = expired
expire expired = expired
expire aborted = aborted

-- The time of the `n`-th wait has come. That is the timer's doing, and may come at any time.
unfoldable pub expire_at : ℕ → List Wait → List Wait
expire_at n [] = []
expire_at zero (w ∷ ws) = record w { status = expire w.status } ∷ ws
expire_at (suc n) (w ∷ ws) = w ∷ expire_at n ws

abbrev pub hand_over : Wait → Bool → Scheduler → Scheduler
hand_over w true s = record s { dropped = w.event_id ∷ s.dropped }
hand_over w false s = record s {
  dispatcher = add_task (create_task w.func) s.dispatcher;
  handed = w.event_id ∷ s.handed;
}

abbrev pub is_aborted : Status → Bool
is_aborted pending = false
is_aborted expired = false
is_aborted aborted = true

abbrev pub is_pending : Status → Bool
is_pending pending = true
is_pending expired = false
is_pending aborted = false

-- The handler of a wait, which stands between `before` and `after`.
unfoldable pub handle : List Wait → Wait → List Wait → Scheduler → Scheduler
unfolding add_task
handle before w after s =
    hand_over w (is_aborted w.status || is_terminated s.state)
      (record s { waits = map (abort_wait w.event_id) (before ++ after) })

pub data Step : Scheduler → Scheduler → Type 0 where
  adds : (f : Func) {s : Scheduler} → Step s (add_event f s)
  stops : (i : ℕ) {s : Scheduler} → Step s (stop_event i s)
  shuts_down : {s : Scheduler} → Step s (shutdown s)
  performs : {s : Scheduler} → Step s (perform_next s.posted s)
  closes : {s : Scheduler} → Step s (close s)
  expires : (n : ℕ) {s : Scheduler} → Step s (record s { waits = expire_at n s.waits })
  handles :
      (before : List Wait) (w : Wait) (after : List Wait) {s : Scheduler}
      → s.waits ≡ before ++ w ∷ after
      → is_pending w.status ≡ false
      → s.stopped ≡ false
      → Step s (handle before w after s)

pub data Run : Scheduler → Scheduler → Type 0 where
  done : {s : Scheduler} → Run s s
  then_step : {s t u : Scheduler} → Run s t → Step t u → Run s u
