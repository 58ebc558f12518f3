-- ===== src/Dispatch/Order.antt =====
-- The tasks that the dispatcher of src/tasks.cpp executes and those that it passes over.
use mathlib.Core.List.{append_assoc, append-nil}
use xynera_ots.Prelude.{
  ℕ, suc, ◌%◌, ◌^◌, ◌≡◌, inl, inr, refl, sym, ap, ◌∙◌, Bool, true, false, arith, ◌&&◌, ◌||◌, not,
  List, [], ◌∷◌, ◌++◌, map, ◌==◌, if◌then◌else◌, Bool-cases, subst,
}
use xynera_ots.Dispatch.{
  Task, Func, job, terminate, Dispatcher, add_task, shutdown, swap, execute, perform, has_expired,
  Step, adds, shuts_down, swaps, executes, stops, Run, is_running, is_terminated, execute_next,
  done, then_step,
}

pub data Extends : List Task → List Task → Type 0 where
  by : (xs : List Task) {as' : List Task} → Extends as' (as' ++ xs)

-- How many tasks of the log were executed.
abbrev pub executed : List (Task × Bool) → ℕ
executed [] = 0
executed ((t, b) ∷ es) = if b then suc (executed es) else executed es

pub map-append :
    (xs ys : List (Task × Bool))
    → map (λ e. e.0) (xs ++ ys) ≡ map (λ e. e.0) xs ++ map (λ e. e.0) ys
map-append [] ys = refl
map-append (x ∷ xs) ys = ap (λ r. x.0 ∷ r) (map-append xs ys)

pub Extends-refl : {xs : List Task} → Extends xs xs
Extends-refl {xs} = subst (λ zs. Extends xs zs) (append-nil xs) (by [])

pub extends_trans : {xs ys zs : List Task} → Extends xs ys → Extends ys zs → Extends xs zs
extends_trans {xs} (by as') (by bs) =
    subst (λ zs. Extends xs zs) (sym (append_assoc xs as' bs)) (by (as' ++ bs))

-- No entry that was not executed is one without expiration.
unfoldable pub kept : List (Task × Bool) → Bool
kept [] = true
kept ((t, b) ∷ es) = (b || not (t.expiration == 0)) && kept es

pub record Honest (d : Dispatcher) : Type 0 where
  pub cycle : d.dispatcher_cycle ≡ executed d.log % 2 ^ 64
  pub none_dropped : kept d.log ≡ true

executed-append :
    (es : List (Task × Bool)) (t : Task) (b : Bool)
    → executed (es ++ (t, b) ∷ []) ≡ (if b then suc (executed es) else executed es)
executed-append [] t b = refl
executed-append ((u, c) ∷ es) t b = ground (arith, executed-append es t b)

kept-append :
    (es : List (Task × Bool)) (t : Task) (b : Bool)
    → kept (es ++ (t, b) ∷ []) ≡ (kept es && (b || not (t.expiration == 0)))
unfolding kept
kept-append [] t b = ground arith
kept-append ((u, c) ∷ es) t b = ground (arith, kept-append es t b)

perform-Honest : (f : Func) {d : Dispatcher} → Honest d → Honest (perform f d)
perform-Honest (job n) h = h
perform-Honest terminate h = record { cycle = h.cycle; none_dropped = h.none_dropped }

execute_next-Honest :
    (now : ℕ) (ts : List Task) (d : Dispatcher) → Honest d → Honest (execute_next now ts d)
unfolding execute_next
execute_next-Honest now [] d h = h
execute_next-Honest now (t ∷ ts) d h = elim (Bool-cases (has_expired now t)) [
  | inl y ↦ rw y (record {
    cycle = h.cycle ∙ ap (λ n. n % 2 ^ 64) (sym (executed-append d.log t false));
    none_dropped = kept-append d.log t false ∙ ground (arith, h.none_dropped);
  })
  | inr n ↦ rw n (
      perform-Honest t.func (record {
        cycle = ground (arith, h.cycle, executed-append d.log t true);
        none_dropped = kept-append d.log t true ∙ ground (arith, h.none_dropped);
      }))
]

execute-Honest : (now : ℕ) (d : Dispatcher) → Honest d → Honest (execute now d)
unfolding execute
execute-Honest now d h = execute_next-Honest now d.tmp_task_list d h

Step-Honest : {d e : Dispatcher} → Step d e → Honest d → Honest e
unfolding add_task shutdown swap
Step-Honest (adds t {d}) h = elim (Bool-cases (is_running d.state)) [
  | inl y ↦ rw y (record { cycle = h.cycle; none_dropped = h.none_dropped })
  | inr n ↦ rw n h
]
Step-Honest (shuts_down {d}) h = record { cycle = h.cycle; none_dropped = h.none_dropped }
Step-Honest (swaps {d} idle) h = elim (Bool-cases (is_terminated d.state)) [
  | inl y ↦ rw y h
  | inr n ↦ rw n (record { cycle = h.cycle; none_dropped = h.none_dropped })
]
Step-Honest (executes now {d}) h = execute-Honest now d h
Step-Honest (stops {d}) h = record { cycle = h.cycle; none_dropped = h.none_dropped }

-- At any time the cycle counter is the number of tasks executed, modulo 2 ^ 64, and every task
-- passed over without being executed had an expiration.
pub Run-Honest : {d e : Dispatcher} → Run d e → Honest d → Honest e
Run-Honest done h = h
Run-Honest (then_step r s) h = Step-Honest s (Run-Honest r h)
