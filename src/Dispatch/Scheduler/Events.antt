-- ===== src/Dispatch/Scheduler/Events.antt =====
-- Where an event is: posted, waited for, handed to the dispatcher or dropped. Each is in one place.
pub mod Stopped
use xynera_ots.Prelude.{
  ℕ, zero, suc, ◌+◌, ◌%◌, ◌^◌, ◌≤◌, ◌<◌, ◌≡◌, refl, sym, ap, ◌∙◌, inl, inr, Bool, true, false, ◌&&◌,
  ◌||◌, not, Bool-cases, List, [], ◌∷◌, ◌++◌, map, leb, ◌==◌, if◌then◌else◌, arith,
}
use xynera_ots.Dispatch.{Func, is_terminated}
use xynera_ots.Dispatch.Scheduler.{
  Status, pending, expired, aborted, Wait, Posted, insert, cancel, cancel_all, Scheduler, abort,
  abort_wait, abort_every, add_event, stop_event, shutdown, perform, perform_next, expire_at,
  hand_over, is_aborted, handle, Step, adds, stops, shuts_down, performs, closes, close, expires,
  handles, Run, done, then_step,
}

abbrev pub total : {A : Type 0} → (A → ℕ) → List A → ℕ
total f [] = 0
total f (x ∷ xs) = f x + total f xs

pub total-append :
    {A : Type 0} (f : A → ℕ) (xs ys : List A) → total f (xs ++ ys) ≡ total f xs + total f ys
total-append f [] ys = omega arith
total-append f (x ∷ xs) ys = omega (arith, total-append f xs ys)

total-map :
    {A : Type 0} (f : A → ℕ) (g : A → A)
    → ((x : A) → f (g x) ≡ f x)
    → (xs : List A) → total f (map g xs) ≡ total f xs
total-map f g h [] = refl
total-map f g h (x ∷ xs) = omega (arith, h x, total-map f g h xs)

abbrev pub same_id : ℕ → ℕ → ℕ
same_id i j = if j == i then 1 else 0

abbrev pub posted_id : ℕ → Posted → ℕ
posted_id i (insert j f) = same_id i j
posted_id i (cancel j) = 0
posted_id i cancel_all = 0

abbrev pub wait_id : ℕ → Wait → ℕ
wait_id i w = same_id i w.event_id

-- How often the event `i` is anywhere.
pub tally : ℕ → Scheduler → ℕ
tally i s =
    total (posted_id i) s.posted
    + total (wait_id i) s.waits
    + total (same_id i) s.handed
    + total (same_id i) s.dropped

abort_wait-id : (i j : ℕ) (w : Wait) → wait_id i (abort_wait j w) ≡ wait_id i w
abort_wait-id i j w = elim (Bool-cases (w.event_id == j)) [ inl y ↦ rw y refl | inr n ↦ rw n refl ]

abort_all-id :
    (i j : ℕ) (ws : List Wait) → total (wait_id i) (map (abort_wait j) ws) ≡ total (wait_id i) ws
abort_all-id i j ws = total-map (wait_id i) (abort_wait j) (abort_wait-id i j) ws

expire_at-id :
    (i n : ℕ) (ws : List Wait) → total (wait_id i) (expire_at n ws) ≡ total (wait_id i) ws
unfolding expire_at
expire_at-id i n [] = refl
expire_at-id i zero (w ∷ ws) = refl
expire_at-id i (suc n) (w ∷ ws) = omega (arith, expire_at-id i n ws)

perform-tally :
    (i : ℕ) (p : Posted) (ps : List Posted) (s : Scheduler)
    → s.posted ≡ p ∷ ps
    → tally i (perform p (record s { posted = ps })) ≡ tally i s
unfolding perform tally
perform-tally i (insert j f) ps s e =
    let w : Wait = record { event_id = j; func = f; status = pending } in
    omega (
      arith,
      ap (total (posted_id i)) e,
      total-append (wait_id i) (map (abort_wait j) s.waits) (w ∷ []),
      abort_all-id i j s.waits,
    )
perform-tally i (cancel j) ps s e =
    omega (arith, ap (total (posted_id i)) e, abort_all-id i j s.waits)
perform-tally i cancel_all ps s e =
    omega (arith, ap (total (posted_id i)) e, total-map (wait_id i) abort_every (λ w. refl) s.waits)

perform_next-tally :
    (i : ℕ) (ps : List Posted) (s : Scheduler)
    → s.posted ≡ ps
    → tally i (perform_next ps s) ≡ tally i s
unfolding perform_next
perform_next-tally i [] s e = refl
perform_next-tally i (p ∷ ps) s e =
    let next = perform p (record s { posted = ps }) in
    elim (Bool-cases s.stopped) [
      | inl y ↦ ap (λ b. tally i (if b then s else next)) y
      | inr n ↦ ap (λ b. tally i (if b then s else next)) n ∙ perform-tally i p ps s e
    ]

handle-tally :
    (i : ℕ) (before : List Wait) (w : Wait) (after : List Wait) (s : Scheduler)
    → s.waits ≡ before ++ w ∷ after
    → tally i (handle before w after s) ≡ tally i s
unfolding handle tally
handle-tally i before w after s e =
    let a = ap (total (wait_id i)) e in
    let b = total-append (wait_id i) before (w ∷ after) in
    let c = total-append (wait_id i) before after in
    let d = abort_all-id i w.event_id (before ++ after) in
    elim (Bool-cases (is_aborted w.status || is_terminated s.state)) [
      | inl y ↦ rw y (omega (arith, a, b, c, d))
      | inr n ↦ rw n (omega (arith, a, b, c, d))
    ]

abbrev pub is_addition : {s t : Scheduler} → Step s t → ℕ
is_addition (adds f) = 1
is_addition (stops i) = 0
is_addition shuts_down = 0
is_addition performs = 0
is_addition closes = 0
is_addition (expires n) = 0
is_addition (handles before w after e p g) = 0

abbrev pub additions : {s t : Scheduler} → Run s t → ℕ
additions done = 0
additions (then_step r s) = additions r + is_addition s

-- Whether `n` events have been added of which `i` is one.
abbrev pub was_added : ℕ → ℕ → ℕ
was_added i n = if leb 1 i && leb i n then 1 else 0

abbrev pub Tallied : ℕ → Scheduler → ℕ → Type 0
Tallied i s n = (s.last_event_id ≡ n) × (tally i s ≡ was_added i n)

add_event-Tallied :
    (i : ℕ) (f : Func) (s : Scheduler) (n : ℕ)
    → n + 1 < 2 ^ 32
    → Tallied i s n
    → Tallied i (add_event f s) (n + 1)
unfolding add_event tally
add_event-Tallied i f s n l h =
    let e : (s.last_event_id + 1) % 2 ^ 32 ≡ n + 1 = omega (arith, h.0) in
    let a = total-append (posted_id i) s.posted (insert ((s.last_event_id + 1) % 2 ^ 32) f ∷ []) in
    (e, ground (arith, a, e, h.1))

same-Tallied :
    (i n : ℕ) (s t : Scheduler)
    → t.last_event_id ≡ s.last_event_id
    → tally i t ≡ tally i s
    → Tallied i s n
    → Tallied i t (n + 0)
same-Tallied i n s t e f h = (omega (arith, e, h.0), ground (arith, f, h.1))

perform-last : (p : Posted) (s : Scheduler) → (perform p s).last_event_id ≡ s.last_event_id
unfolding perform
perform-last (insert j f) s = refl
perform-last (cancel j) s = refl
perform-last cancel_all s = refl

pub perform_next-last :
    (ps : List Posted) (s : Scheduler) → (perform_next ps s).last_event_id ≡ s.last_event_id
unfolding perform_next
perform_next-last [] s = refl
perform_next-last (p ∷ ps) s =
    let next = record s { posted = ps } in
    elim (Bool-cases s.stopped) [
      | inl y ↦ ap (λ b. (if b then s else perform p next).last_event_id) y
      | inr n ↦ ap (λ b. (if b then s else perform p next).last_event_id) n ∙ perform-last p next
    ]

pub hand_over-last :
    (w : Wait) (b : Bool) (s : Scheduler) → (hand_over w b s).last_event_id ≡ s.last_event_id
hand_over-last w true s = refl
hand_over-last w false s = refl

stop_event-Tallied :
    (i j n : ℕ) (s : Scheduler) → Tallied i s n → Tallied i (stop_event j s) (n + 0)
unfolding stop_event tally
stop_event-Tallied i j n s h =
    let a = total-append (posted_id i) s.posted (cancel j ∷ []) in
    elim (Bool-cases (j == 0)) [
      | inl y ↦ rw y (same-Tallied i n s s refl refl h)
      | inr k ↦ rw k (
          same-Tallied i n s (record s { posted = s.posted ++ cancel j ∷ [] }) refl
            (omega (arith, a)) h)
    ]

Step-Tallied :
    (i n : ℕ) {s t : Scheduler} (e : Step s t)
    → n + is_addition e < 2 ^ 32
    → Tallied i s n
    → Tallied i t (n + is_addition e)
unfolding shutdown tally handle
Step-Tallied i n (adds f {s}) l h = add_event-Tallied i f s n l h
Step-Tallied i n (stops j {s}) l h = stop_event-Tallied i j n s h
Step-Tallied i n (shuts_down {s}) l h =
    same-Tallied i n s (shutdown s) refl
      (omega (arith, total-append (posted_id i) s.posted (cancel_all ∷ []))) h
Step-Tallied i n (performs {s}) l h =
    same-Tallied i n s (perform_next s.posted s) (perform_next-last s.posted s)
      (perform_next-tally i s.posted s refl) h
Step-Tallied i n (closes {s}) l h = same-Tallied i n s (close s) refl refl h
Step-Tallied i n (expires k {s}) l h =
    same-Tallied i n s (record s { waits = expire_at k s.waits }) refl
      (omega (arith, expire_at-id i k s.waits)) h
Step-Tallied i n (handles before w after {s} e p g) l h =
    same-Tallied i n s (handle before w after s) (hand_over-last w _ _)
      (handle-tally i before w after s e) h

-- Nothing was added yet.
pub record IsFresh (s : Scheduler) : Type 0 where
  pub none_counted : s.last_event_id ≡ 0
  pub none_posted : s.posted ≡ []
  pub none_waiting : s.waits ≡ []
  pub none_handed : s.handed ≡ []
  pub none_dropped : s.dropped ≡ []

-- From a scheduler that has had no event yet, however the steps of the threads and the timers
-- interleave: while fewer than 2 ^ 32 events are added, the last event id is their number, and each
-- id from 1 up to it is in one place, once: posted, waiting for its timer, handed to the dispatcher or
-- dropped; other ids are nowhere.
pub Run-Tallied :
    {s t : Scheduler} (i : ℕ) (r : Run s t)
    → additions r < 2 ^ 32
    → IsFresh s
    → Tallied i t (additions r)
unfolding tally
Run-Tallied {s} i done l h = (
  h.none_counted,
  ground (
    arith,
    ap (total (posted_id i)) h.none_posted,
    ap (total (wait_id i)) h.none_waiting,
    ap (total (same_id i)) h.none_handed,
    ap (total (same_id i)) h.none_dropped,
  ),
)
Run-Tallied i (then_step r e) l h =
    Step-Tallied i (additions r) e l (Run-Tallied i r (omega arith) h)
