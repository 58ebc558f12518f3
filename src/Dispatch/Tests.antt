-- ===== src/Dispatch/Tests.antt =====
-- The dispatcher's theorems on a short run.
use xynera_ots.Prelude.{◌≡◌, refl, [], ◌++◌, arith}
use xynera_ots.Dispatch.{
  job, running, terminated, Dispatcher, add_task, shutdown, swap, execute, execute_next,
  create_task, create_expiring_task, Run, done, then_step, adds, swaps, executes,
}
use xynera_ots.Dispatch.Queue.{Moves, view, Run-Moves}
use xynera_ots.Dispatch.Order.{Extends}
use xynera_ots.Dispatch.Progress.{taken, Run-reaches}

abbrev fresh : Dispatcher
fresh = record {
  state = running;
  task_list = [];
  tmp_task_list = [];
  dispatcher_cycle = 0;
  log = [];
}

-- The first task has expired when its turn comes, the second ends the dispatcher.
late :
    (execute 50
      (execute 40 (swap (shutdown (add_task (create_expiring_task 10 20 (job 1)) fresh))))).state
    ≡ terminated
unfolding execute execute_next swap shutdown add_task
late = refl

late_cycle :
    (execute 50 (
      execute 40
        (swap (shutdown (add_task (create_expiring_task 10 20 (job 1)) fresh))))).dispatcher_cycle
    ≡ 1
unfolding execute execute_next swap shutdown add_task
late_cycle = refl

abbrev short_run :
    Run fresh
      (execute 5 (add_task (create_task (job 2)) (swap (add_task (create_task (job 1)) fresh))))
unfolding add_task swap
short_run =
    then_step
      (then_step (then_step (then_step done (adds (create_task (job 1)))) (swaps refl))
        (adds (create_task (job 2))))
      (executes 5)

-- Two tasks are taken over, and a third comes while they are executed.
abbrev two_waiting : Dispatcher
unfolding add_task
two_waiting = add_task (create_task (job 2)) (add_task (create_task (job 1)) fresh)

abbrev long_run :
    Run
      (swap two_waiting)
      (execute 6 (add_task (create_task (job 3)) (execute 5 (swap two_waiting))))
long_run =
    then_step (then_step (then_step done (executes 5)) (adds (create_task (job 3)))) (executes 6)

Run-reaches_example :
    Extends
      (taken two_waiting ++ two_waiting.task_list)
      (taken (execute 6 (add_task (create_task (job 3)) (execute 5 (swap two_waiting)))))
unfolding add_task
Run-reaches_example = Run-reaches two_waiting _ refl refl long_run (omega arith)

Run-Moves_example : Moves (view fresh) (
    view (execute 5 (add_task (create_task (job 2)) (swap (add_task (create_task (job 1)) fresh)))))
Run-Moves_example = Run-Moves short_run
