-- ===== src/Dispatch/Progress.antt =====
-- Every task that waits is reached when the thread has executed as often as there are tasks.
use mathlib.Core.List.{append_assoc, append-nil}
use xynera_ots.Prelude.{
  ℕ, ◌+◌, ◌≤◌, ◌≡◌, inl, inr, refl, sym, ap, ◌∙◌, true, false, arith, List, length, length-append,
  [], ◌∷◌, ◌++◌, map, if◌then◌else◌, Bool-cases, subst,
}
use xynera_ots.Dispatch.{
  Task, Func, job, terminate, Dispatcher, add_task, shutdown, swap, execute, perform, has_expired,
  Step, adds, shuts_down, swaps, executes, stops, Run, is_running, is_terminated, execute_next,
  done, then_step,
}
use xynera_ots.Dispatch.Order.{Extends, by, Extends-refl, extends_trans, map-append}

-- The tasks that the thread has been through.
abbrev pub taken : Dispatcher → List Task
taken d = map (λ e. e.0) d.log

abbrev pub is_execution : {d e : Dispatcher} → Step d e → ℕ
is_execution (adds t) = 0
is_execution shuts_down = 0
is_execution (swaps idle) = 0
is_execution (executes now) = 1
is_execution stops = 0

abbrev pub executions : {d e : Dispatcher} → Run d e → ℕ
executions done = 0
executions (then_step r s) = executions r + is_execution s

-- The thread has been through some of its list, or through all of it.
data Through (d e : Dispatcher) (k : ℕ) : Type 0 where
  through_all : Extends (taken d ++ d.tmp_task_list) (taken e) → Through d e k
  through_some :
      (ts : List Task)
      → (d.tmp_task_list ≡ ts ++ e.tmp_task_list)
      → (taken e ≡ taken d ++ ts)
      → (length ts ≡ k)
      → Through d e k

-- A step that leaves the list and the log.
same :
    {d e f : Dispatcher} {k : ℕ}
    → f.tmp_task_list ≡ e.tmp_task_list
    → f.log ≡ e.log
    → Through d e k
    → Through d f (k + 0)
same {d} p q (through_all x) =
    through_all (subst (λ l. Extends (taken d ++ d.tmp_task_list) (map (λ e. e.0) l)) (sym q) x)
same {k = k} p q (through_some ts a b n) =
    through_some ts (a ∙ ap (λ l. ts ++ l) (sym p)) (ap (λ l. map (λ e. e.0) l) q ∙ b)
      (omega (arith, n))

finished :
    {d e : Dispatcher} {k : ℕ}
    → e.tmp_task_list ≡ []
    → Through d e k
    → Extends (taken d ++ d.tmp_task_list) (taken e)
finished p (through_all x) = x
finished {d} {e} p (through_some ts a b n) =
    let whole : d.tmp_task_list ≡ ts = a ∙ ap (λ l. ts ++ l) p ∙ append-nil ts in
    subst (λ l. Extends l (taken e)) (b ∙ ap (λ l. taken d ++ l) (sym whole)) Extends-refl

-- The thread has come to the next task of its list.
Next : List Task → Dispatcher → Dispatcher → Type 0
Next [] e f = f ≡ e
Next (t ∷ ts) e f = (f.tmp_task_list ≡ ts) × (taken f ≡ taken e ++ t ∷ [])

perform-Next :
    (f : Func) (t : Task) (ts : List Task) (d e : Dispatcher)
    → (e.tmp_task_list ≡ ts) × (taken e ≡ taken d ++ t ∷ [])
    → (perform f e).tmp_task_list ≡ ts × (taken (perform f e) ≡ taken d ++ t ∷ [])
perform-Next (job n) t ts d e h = h
perform-Next terminate t ts d e h = h

execute_next-Next : (now : ℕ) (ts : List Task) (d : Dispatcher) → Next ts d (execute_next now ts d)
unfolding execute_next Next
execute_next-Next now [] d = refl
execute_next-Next now (t ∷ ts) d = elim (Bool-cases (has_expired now t)) [
  | inl y ↦ rw y (refl, map-append d.log ((t, false) ∷ []))
  | inr n ↦ rw n (perform-Next t.func t ts d _ (refl, map-append d.log ((t, true) ∷ [])))
]

onward :
    {d e f : Dispatcher} {k : ℕ} (us : List Task)
    → e.tmp_task_list ≡ us
    → Next us e f
    → Through d e k
    → Through d f (k + 1)
unfolding Next
onward {d} {e} [] p h x =
    through_all (subst (λ g. Extends (taken d ++ d.tmp_task_list) (taken g)) (sym h) (finished p x))
onward {d} {e} {f} (u ∷ us) p h (through_all x) =
    through_all (extends_trans x (subst (λ l. Extends (taken e) l) (sym h.1) (by (u ∷ []))))
onward {d} {e} {f} (u ∷ us) p h (through_some ts a b n) =
    through_some (ts ++ u ∷ [])
      (a
        ∙ ap (λ l. ts ++ l) (p ∙ ap (λ l. u ∷ l) (sym h.0))
        ∙ sym (append_assoc ts (u ∷ []) f.tmp_task_list))
      (h.1 ∙ ap (λ l. l ++ u ∷ []) b ∙ append_assoc (taken d) ts (u ∷ []))
      (omega (arith, n, length-append ts (u ∷ [])))

swap-Through :
    {d e : Dispatcher} {k : ℕ} → e.tmp_task_list ≡ [] → Through d e k → Through d (swap e) (k + 0)
unfolding swap
swap-Through {d} {e} p x = elim (Bool-cases (is_terminated e.state)) [
  | inl y ↦ rw y (same refl refl x)
  | inr n ↦ rw n (through_all (finished p x))
]

add_task-Through :
    {d e : Dispatcher} {k : ℕ} (t : Task) → Through d e k → Through d (add_task t e) (k + 0)
unfolding add_task
add_task-Through {d} {e} t x = elim (Bool-cases (is_running e.state)) [
  | inl y ↦ rw y (same refl refl x)
  | inr n ↦ rw n (same refl refl x)
]

Step-Through :
    {d e f : Dispatcher} {k : ℕ} (s : Step e f) → Through d e k → Through d f (k + is_execution s)
unfolding shutdown execute
Step-Through (adds t) x = add_task-Through t x
Step-Through shuts_down x = same refl refl x
Step-Through (swaps idle) x = swap-Through idle x
Step-Through {e = e} (executes now) x =
    onward e.tmp_task_list refl (execute_next-Next now e.tmp_task_list e) x
Step-Through stops x = same refl refl x

Run-Through : {d e : Dispatcher} (r : Run d e) → Through d e (executions r)
Run-Through {d} done = through_some [] refl (sym (append-nil (taken d))) refl
Run-Through (then_step r s) = Step-Through s (Run-Through r)

empty : (ts : List Task) → length ts ≡ 0 → ts ≡ []
empty [] h = refl
empty (t ∷ ts) h = absurd (omega (arith, h))

reached :
    {d e : Dispatcher} {k : ℕ}
    → Through d e k
    → length d.tmp_task_list ≤ k
    → Extends (taken d ++ d.tmp_task_list) (taken e)
reached (through_all x) l = x
reached {d} {e} (through_some ts a b n) l =
    finished {d = d} {e = e}
      (empty e.tmp_task_list (omega (arith, ap length a, length-append ts e.tmp_task_list, n, l)))
      (through_some ts a b n)

swapped :
    (d : Dispatcher)
    → is_terminated d.state ≡ false
    → ((swap d).tmp_task_list ≡ d.task_list) × (taken (swap d) ≡ taken d)
unfolding swap
swapped d alive = (
  ap (λ b. (if b then d else after).tmp_task_list) alive,
  ap (λ b. taken (if b then d else after)) alive,
)
  where
    after : Dispatcher
    after = record d { task_list = d.tmp_task_list; tmp_task_list = d.task_list }

-- From the point where an idle dispatcher that is not terminated takes its tasks over, however the
-- steps of other threads come between: when the thread has executed as often as there were tasks,
-- it has been through every one of them, in their order.
pub Run-reaches :
    (d e : Dispatcher)
    → d.tmp_task_list ≡ []
    → is_terminated d.state ≡ false
    → (r : Run (swap d) e) → length d.task_list ≤ executions r
    → Extends (taken d ++ d.task_list) (taken e)
Run-reaches d e idle alive r l =
    let (list, log) = swapped d alive in
    let enough : length (swap d).tmp_task_list ≤ executions r = omega (arith, ap length list, l) in
    subst (λ ts. Extends ts (taken e))
      (ap (λ ts. ts ++ (swap d).tmp_task_list) log ∙ ap (λ ts. taken d ++ ts) list)
      (reached (Run-Through r) enough)
