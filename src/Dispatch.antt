-- ===== src/Dispatch.antt =====
-- The dispatcher of src/tasks.h and src/tasks.cpp with the states of src/thread_holder_base.h. Each
-- operation under the lock, and the execution of each task, is one step; the steps of other threads
-- come between them in any order. The time of an execution is an argument.
pub mod Order
pub mod Progress
pub mod Queue
pub mod Scheduler
mod Tests
use xynera_ots.Prelude.{
  ℕ, ◌≡◌, ◌+◌, ◌%◌, ◌^◌, Bool, true, false, ◌&&◌, not, List, [], ◌∷◌, ◌++◌, ltb, ◌==◌,
  if◌then◌else◌,
}

pub data ThreadState : Type 0 where
  running closing terminated : ThreadState

-- What a task does: something in the game, or the dispatcher's end.
pub data Func : Type 0 where
  job : ℕ → Func
  terminate : Func

-- An expiration of 0 is SYSTEM_TIME_ZERO.
pub record Task : Type 0 where
  pub expiration : ℕ
  pub func : Func

-- `log` has no counterpart in the code: the tasks that the thread has been through, and whether it
-- executed them.
pub record Dispatcher : Type 0 where
  pub state : ThreadState
  pub task_list : List Task
  pub tmp_task_list : List Task
  pub dispatcher_cycle : ℕ
  pub log : List (Task × Bool)

abbrev pub is_running : ThreadState → Bool
is_running running = true
is_running _ = false

abbrev pub is_terminated : ThreadState → Bool
is_terminated terminated = true
is_terminated _ = false

-- A duration of `ms` from now; without one a task does not expire.
abbrev pub create_task : Func → Task
create_task f = record { expiration = 0; func = f }

abbrev pub create_expiring_task : ℕ → ℕ → Func → Task
create_expiring_task now ms f = record { expiration = now + ms; func = f }

abbrev pub set_dont_expire : Task → Task
set_dont_expire t = record t { expiration = 0 }

abbrev pub has_expired : ℕ → Task → Bool
has_expired now t = if t.expiration == 0 then false else ltb t.expiration now

unfoldable pub add_task : Task → Dispatcher → Dispatcher
add_task t d = if is_running d.state then record d { task_list = d.task_list ++ t ∷ [] } else d

unfoldable pub shutdown : Dispatcher → Dispatcher
shutdown d = record d { task_list = d.task_list ++ create_task terminate ∷ [] }

-- The part of the loop under the lock, where `tmpTaskList` is empty.
unfoldable pub swap : Dispatcher → Dispatcher
swap d =
    if is_terminated d.state
    then d
    else record d { task_list = d.tmp_task_list; tmp_task_list = d.task_list }

abbrev pub perform : Func → Dispatcher → Dispatcher
perform (job n) d = d
perform terminate d = record d { state = terminated }

-- The body of the loop over `tmpTaskList`, with what is left of the list.
unfoldable pub execute_next : ℕ → List Task → Dispatcher → Dispatcher
execute_next now [] d = d
execute_next now (t ∷ ts) d =
    if has_expired now t
    then record d { tmp_task_list = ts; log = d.log ++ (t, false) ∷ [] }
    else perform t.func (record d {
      tmp_task_list = ts;
      dispatcher_cycle = (d.dispatcher_cycle + 1) % 2 ^ 64;
      log = d.log ++ (t, true) ∷ [];
    })

unfoldable pub execute : ℕ → Dispatcher → Dispatcher
unfolding execute_next
execute now d = execute_next now d.tmp_task_list d

-- ThreadHolder::start and stop.
abbrev pub start : Dispatcher → Dispatcher
start d = record d { state = running }

abbrev pub stop : Dispatcher → Dispatcher
stop d = record d { state = closing }

abbrev pub is_idle : Dispatcher → Bool
is_idle d = elim (d.tmp_task_list) [ [] ↦ true | t ∷ ts ↦ false ]

-- One step; the thread swaps the lists when it has been through its own.
pub data Step : Dispatcher → Dispatcher → Type 0 where
  adds : (t : Task) {d : Dispatcher} → Step d (add_task t d)
  shuts_down : {d : Dispatcher} → Step d (shutdown d)
  swaps : {d : Dispatcher} → d.tmp_task_list ≡ [] → Step d (swap d)
  executes : (now : ℕ) {d : Dispatcher} → Step d (execute now d)
  stops : {d : Dispatcher} → Step d (stop d)

pub data Run : Dispatcher → Dispatcher → Type 0 where
  done : {d : Dispatcher} → Run d d
  then_step : {d e f : Dispatcher} → Run d e → Step e f → Run d f
