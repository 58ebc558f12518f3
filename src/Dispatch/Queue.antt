-- ===== src/Dispatch/Queue.antt =====
-- The dispatcher as a queue: the two lists of src/tasks.cpp and the swapping of them are one queue,
-- which any thread pushes to and the dispatcher's thread pops from.
use mathlib.Core.List.{append_assoc, append-nil}
use xynera_ots.Prelude.{
  ℕ, ◌≡◌, inl, inr, refl, sym, ap, subst, ◌∙◌, Bool, true, false, not, List, [], ◌∷◌, ◌++◌,
  Bool-cases,
}
use xynera_ots.Dispatch.{
  Task, Func, job, terminate, Dispatcher, add_task, shutdown, swap, execute, perform, has_expired,
  create_task, Step, adds, shuts_down, swaps, executes, stops, Run, is_running, is_terminated,
  execute_next, done, then_step,
}

-- The tasks that wait, and those that were reached with whether they were executed.
pub record Queue : Type 0 where
  pub waiting : List Task
  pub reached : List (Task × Bool)

-- What may become of a queue: nothing, a task at its end, or its first task reached, and executed
-- unless it has expired at that time.
pub data Move : Queue → Queue → Type 0 where
  stays : {q : Queue} → Move q q
  pushes : (t : Task) {q : Queue} → Move q (record q { waiting = q.waiting ++ t ∷ [] })
  pops :
      (now : ℕ) (t : Task) (ts : List Task) {q : Queue}
      → q.waiting ≡ t ∷ ts
      → Move q (record { waiting = ts; reached = q.reached ++ (t, not (has_expired now t)) ∷ [] })

pub data Moves : Queue → Queue → Type 0 where
  none : {q : Queue} → Moves q q
  then_move : {q r s : Queue} → Moves q r → Move r s → Moves q s

abbrev pub view : Dispatcher → Queue
view d = record { waiting = d.tmp_task_list ++ d.task_list; reached = d.log }

pushed :
    (t : Task) (d : Dispatcher)
    → Move (view d) (view (record d { task_list = d.task_list ++ t ∷ [] }))
pushed t d =
    subst (λ ts. Move (view d) (record { waiting = ts; reached = d.log }))
      (append_assoc d.tmp_task_list d.task_list (t ∷ [])) (pushes t)

perform-view : (f : Func) (d : Dispatcher) → view (perform f d) ≡ view d
perform-view (job n) d = refl
perform-view terminate d = refl

execute_next-Move :
    (now : ℕ) (ts : List Task) (d : Dispatcher)
    → d.tmp_task_list ≡ ts
    → Move (view d) (view (execute_next now ts d))
unfolding execute_next
execute_next-Move now [] d e = stays
execute_next-Move now (t ∷ ts) d e =
    let popped : (b : Bool)
        → has_expired now t ≡ b
        → Move (view d)
            (record { waiting = ts ++ d.task_list; reached = d.log ++ (t, not b) ∷ [] }) =
      λ b h.
        subst
          (λ c.
            Move (view d)
              (record { waiting = ts ++ d.task_list; reached = d.log ++ (t, not c) ∷ [] }))
          h (pops now t (ts ++ d.task_list) (ap (λ us. us ++ d.task_list) e)) in
    elim (Bool-cases (has_expired now t)) [
      | inl y ↦ rw y (popped true y)
      | inr n ↦ rw n (subst (λ q. Move (view d) q) (sym (perform-view t.func _)) (popped false n))
    ]

swap-view : (d : Dispatcher) → d.tmp_task_list ≡ [] → view (swap d) ≡ view d
unfolding swap
swap-view d idle = elim (Bool-cases (is_terminated d.state)) [
  | inl y ↦ rw y refl
  | inr n ↦ rw n (
      ap in_queue (
        ap (λ l. d.task_list ++ l) idle
        ∙ append-nil d.task_list
        ∙ sym (ap (λ l. l ++ d.task_list) idle)))
]
  where
    in_queue : List Task → Queue
    in_queue ts = record { waiting = ts; reached = d.log }

Step-Move : {d e : Dispatcher} → Step d e → Move (view d) (view e)
unfolding add_task shutdown execute
Step-Move (adds t {d}) = elim (Bool-cases (is_running d.state)) [
  | inl y ↦ rw y (pushed t d)
  | inr n ↦ rw n stays
]
Step-Move (shuts_down {d}) = pushed (create_task terminate) d
Step-Move (swaps {d} idle) = subst (λ q. Move (view d) q) (sym (swap-view d idle)) stays
Step-Move (executes now {d}) = execute_next-Move now d.tmp_task_list d refl
Step-Move (stops {d}) = stays

-- However the threads' steps interleave, the dispatcher does what a queue does: tasks are pushed to
-- its end, its first is reached, and executed unless it has expired at that time, or nothing happens.
pub Run-Moves : {d e : Dispatcher} → Run d e → Moves (view d) (view e)
Run-Moves done = none
Run-Moves (then_step r s) = then_move (Run-Moves r) (Step-Move s)
