-- ===== src/Dispatch/Scheduler/Tests.antt =====
-- An event that is added and waits for its timer, and its end by `stop_event`.
use xynera_ots.Prelude.{◌≡◌, refl, false, arith, []}
use xynera_ots.Dispatch.{job, running, Dispatcher}
use xynera_ots.Dispatch.Scheduler.{
  Scheduler, add_event, stop_event, perform, perform_next, Run, done, then_step, adds, performs,
  expires, expire_at,
}
use xynera_ots.Dispatch.Scheduler.Events.{IsFresh, Tallied, total, same_id, Run-Tallied}
use xynera_ots.Dispatch.Scheduler.Events.Stopped.{cancel-Stopped}

abbrev idle : Dispatcher
idle = record {
  state = running;
  task_list = [];
  tmp_task_list = [];
  dispatcher_cycle = 0;
  log = [];
}

abbrev new : Scheduler
new = record {
  state = running;
  last_event_id = 0;
  posted = [];
  waits = [];
  stopped = false;
  dispatcher = idle;
  handed = [];
  dropped = [];
}

new-IsFresh : IsFresh new
new-IsFresh = record {
  none_counted = refl;
  none_posted = refl;
  none_waiting = refl;
  none_handed = refl;
  none_dropped = refl;
}

abbrev waiting : Scheduler
unfolding add_event perform_next
waiting = perform_next (add_event (job 1) new).posted (add_event (job 1) new)

abbrev to_waiting : Run new waiting
unfolding perform_next waiting add_event
to_waiting = then_step (then_step done (adds (job 1))) performs

Run-Tallied_example : Tallied 1 waiting 1
unfolding perform_next waiting add_event to_waiting
Run-Tallied_example = Run-Tallied 1 to_waiting (omega arith) new-IsFresh

abbrev stopping : Scheduler
unfolding stop_event
stopping = stop_event 1 waiting

abbrev not_waiting : Scheduler
unfolding perform_next stopping
not_waiting = perform_next stopping.posted stopping

-- The time of the event comes too late, and another event is added.
abbrev later : Scheduler
unfolding expire_at add_event not_waiting
later = add_event (job 2) (record not_waiting { waits = expire_at 0 not_waiting.waits })

cancel-Stopped_example : total (same_id 1) later.handed ≡ total (same_id 1) stopping.handed
unfolding perform_next perform stopping not_waiting later waiting add_event stop_event
cancel-Stopped_example =
    cancel-Stopped 1 stopping later [] refl refl (omega arith, omega arith) refl refl
      (then_step (then_step done (expires 0)) (adds (job 2))) (omega arith)

-- The id after 2 ^ 32 - 1 events is 0, which `stop_event` ignores.
wrapped : (add_event (job 1) (record new { last_event_id = 0xFFFFFFFF })).last_event_id ≡ 0
unfolding add_event
wrapped = refl
