-- ===== src/Dispatch/Scheduler/Events/Stopped.antt =====
-- An event that is stopped before its time has come is never handed to the dispatcher.
use xynera_ots.Prelude.{
  ℕ, zero, suc, ◌+◌, ◌%◌, ◌^◌, ◌≤◌, ◌<◌, ◌≡◌, refl, sym, ap, subst, inl, inr, Bool, true, false,
  ◌||◌, Bool-cases, List, [], ◌∷◌, ◌++◌, map, ◌==◌, if◌then◌else◌, arith,
}
use xynera_ots.Dispatch.{ThreadState, terminated, Func, is_terminated}
use xynera_ots.Dispatch.Scheduler.{
  Status, pending, expired, aborted, Wait, Posted, insert, cancel, cancel_all, Scheduler, abort,
  abort_wait, abort_every, add_event, stop_event, shutdown, perform, perform_next, expire,
  expire_at, hand_over, is_aborted, is_pending, handle, Step, adds, stops, shuts_down, performs,
  closes, expires, handles, Run, done, then_step,
}
use xynera_ots.Dispatch.Scheduler.Events.{
  total, total-append, same_id, posted_id, is_addition, additions, perform_next-last,
  hand_over-last,
}

abbrev pub live_status : Status → ℕ
live_status pending = 1
live_status expired = 1
live_status aborted = 0

abbrev pub expired_status : Status → ℕ
expired_status pending = 0
expired_status expired = 1
expired_status aborted = 0

-- A wait of the event that is not aborted, and one whose time has come.
abbrev pub live : ℕ → Wait → ℕ
live i w = if w.event_id == i then live_status w.status else 0

abbrev pub due : ℕ → Wait → ℕ
due i w = if w.event_id == i then expired_status w.status else 0

live-abort : (a : Status) → live_status (abort a) ≡ expired_status a
live-abort pending = refl
live-abort expired = refl
live-abort aborted = refl

expired-live : (a : Status) → expired_status a ≤ live_status a
expired-live pending = omega arith
expired-live expired = omega arith
expired-live aborted = omega arith

abort_wait-live : (i j : ℕ) (w : Wait) → live i (abort_wait j w) ≤ live i w
abort_wait-live i j w =
    let a = live-abort w.status in
    let b = expired-live w.status in
    elim (Bool-cases (w.event_id == j)) [
      | inl y ↦ rw y (ground (arith, a, b))
      | inr n ↦ rw n (ground arith)
    ]

abort_every-live : (i : ℕ) (w : Wait) → live i (abort_every w) ≤ live i w
abort_every-live i w = ground (arith, live-abort w.status, expired-live w.status)

abort_wait-due : (i : ℕ) (w : Wait) → live i (abort_wait i w) ≡ due i w
abort_wait-due i w = ground (arith, live-abort w.status)

total-below :
    (f : Wait → ℕ) (g : Wait → Wait)
    → ((w : Wait) → f (g w) ≤ f w)
    → (ws : List Wait) → total f (map g ws) ≤ total f ws
total-below f g h [] = omega arith
total-below f g h (w ∷ ws) = omega (arith, h w, total-below f g h ws)

total-due : (i : ℕ) (ws : List Wait) → total (live i) (map (abort_wait i) ws) ≡ total (due i) ws
total-due i [] = refl
total-due i (w ∷ ws) = omega (arith, abort_wait-due i w, total-due i ws)

expire-live : (a : Status) → live_status (expire a) ≡ live_status a
expire-live pending = refl
expire-live expired = refl
expire-live aborted = refl

expire_at-live : (i n : ℕ) (ws : List Wait) → total (live i) (expire_at n ws) ≤ total (live i) ws
unfolding expire_at
expire_at-live i n [] = omega arith
expire_at-live i zero (w ∷ ws) = ground (arith, expire-live w.status)
expire_at-live i (suc n) (w ∷ ws) = omega (arith, expire_at-live i n ws)

-- The event was added, nothing posted starts it, no wait of it is alive, and it was handed over
-- `n` times.
pub record Stopped (i n : ℕ) (s : Scheduler) : Type 0 where
  pub was_added : (1 ≤ i) × (i ≤ s.last_event_id)
  pub none_posted : total (posted_id i) s.posted ≡ 0
  pub none_live : total (live i) s.waits ≡ 0
  pub handed_over : total (same_id i) s.handed ≡ n

perform-Stopped :
    (i n : ℕ) (p : Posted) (ps : List Posted) (s : Scheduler)
    → s.posted ≡ p ∷ ps
    → Stopped i n s
    → Stopped i n (perform p (record s { posted = ps }))
unfolding perform
perform-Stopped i n (insert j f) ps s e h =
    let w : Wait = record { event_id = j; func = f; status = pending } in
    let a = ap (total (posted_id i)) e in
    record {
      was_added = h.was_added;
      none_posted = omega (arith, a, h.none_posted);
      none_live = ground (
        arith,
        a,
        h.none_posted,
        h.none_live,
        total-append (live i) (map (abort_wait j) s.waits) (w ∷ []),
        total-below (live i) (abort_wait j) (abort_wait-live i j) s.waits,
      );
      handed_over = h.handed_over;
    }
perform-Stopped i n (cancel j) ps s e h = record {
  was_added = h.was_added;
  none_posted = omega (arith, ap (total (posted_id i)) e, h.none_posted);
  none_live =
      omega (arith, h.none_live, total-below (live i) (abort_wait j) (abort_wait-live i j) s.waits);
  handed_over = h.handed_over;
}
perform-Stopped i n cancel_all ps s e h = record {
  was_added = h.was_added;
  none_posted = omega (arith, ap (total (posted_id i)) e, h.none_posted);
  none_live =
      omega (arith, h.none_live, total-below (live i) abort_every (abort_every-live i) s.waits);
  handed_over = h.handed_over;
}

perform_next-Stopped :
    (i n : ℕ) (ps : List Posted) (s : Scheduler)
    → s.posted ≡ ps
    → Stopped i n s
    → Stopped i n (perform_next ps s)
unfolding perform_next
perform_next-Stopped i n [] s e h = h
perform_next-Stopped i n (p ∷ ps) s e h =
    let next = perform p (record s { posted = ps }) in
    elim (Bool-cases s.stopped) [
      | inl y ↦ subst (λ b. Stopped i n (if b then s else next)) (sym y) h
      | inr k ↦
          subst (λ b. Stopped i n (if b then s else next)) (sym k) (perform-Stopped i n p ps s e h)
    ]

add_event-Stopped :
    (i n : ℕ) (f : Func) (s : Scheduler)
    → s.last_event_id + 1 < 2 ^ 32
    → Stopped i n s
    → Stopped i n (add_event f s)
unfolding add_event
add_event-Stopped i n f s l h =
    let e : (s.last_event_id + 1) % 2 ^ 32 ≡ s.last_event_id + 1 = omega (arith, l) in
    let (least, most) = h.was_added in
    record {
      was_added = (least, omega (arith, most, e));
      none_posted = ground (
        arith,
        e,
        most,
        h.none_posted,
        total-append (posted_id i) s.posted (insert ((s.last_event_id + 1) % 2 ^ 32) f ∷ []),
      );
      none_live = h.none_live;
      handed_over = h.handed_over;
    }

posts :
    (i n : ℕ) (p : Posted) (s : Scheduler) (a : ThreadState)
    → posted_id i p ≡ 0
    → Stopped i n s
    → Stopped i n (record s { state = a; posted = s.posted ++ p ∷ [] })
posts i n p s a e h = record {
  was_added = h.was_added;
  none_posted = omega (arith, e, h.none_posted, total-append (posted_id i) s.posted (p ∷ []));
  none_live = h.none_live;
  handed_over = h.handed_over;
}

stop_event-Stopped : (i n j : ℕ) (s : Scheduler) → Stopped i n s → Stopped i n (stop_event j s)
unfolding stop_event
stop_event-Stopped i n j s h =
    let next : Scheduler = record s { posted = s.posted ++ cancel j ∷ [] } in
    elim (Bool-cases (j == 0)) [
      | inl y ↦ subst (λ b. Stopped i n (if b then s else next)) (sym y) h
      | inr k ↦
          subst (λ b. Stopped i n (if b then s else next)) (sym k)
            (posts i n (cancel j) s s.state refl h)
    ]

alive : (a : Status) → is_aborted a ≡ false → live_status a ≡ 1
alive pending e = refl
alive expired e = refl
alive aborted e = absurd cc

hand_over-Stopped :
    (i n : ℕ) (w : Wait) (b : Bool) (s : Scheduler)
    → (b ≡ false → same_id i w.event_id ≡ 0)
    → Stopped i n s
    → Stopped i n (hand_over w b s)
hand_over-Stopped i n w true s e h = record {
  was_added = h.was_added;
  none_posted = h.none_posted;
  none_live = h.none_live;
  handed_over = h.handed_over;
}
hand_over-Stopped i n w false s e h = record {
  was_added = h.was_added;
  none_posted = h.none_posted;
  none_live = h.none_live;
  handed_over = omega (arith, e refl, h.handed_over);
}

handle-Stopped :
    (i n : ℕ) (before : List Wait) (w : Wait) (after : List Wait) (s : Scheduler)
    → s.waits ≡ before ++ w ∷ after
    → is_pending w.status ≡ false
    → Stopped i n s
    → Stopped i n (handle before w after s)
unfolding handle
handle-Stopped i n before w after s e p h =
    let a = ap (total (live i)) e in
    let b = total-append (live i) before (w ∷ after) in
    let c = total-append (live i) before after in
    let d =
      total-below (live i) (abort_wait w.event_id) (abort_wait-live i w.event_id)
        (before ++ after) in
    let left : total (live i) (map (abort_wait w.event_id) (before ++ after)) ≡ 0 =
      omega (arith, a, b, c, d, h.none_live) in
    let dead : live i w ≡ 0 = omega (arith, a, b, h.none_live) in
    hand_over-Stopped i n w (is_aborted w.status || is_terminated s.state)
      (record s { waits = map (abort_wait w.event_id) (before ++ after) })
      (λ g. ground (arith, dead, alive w.status (ground (arith, g))))
      (record {
        was_added = h.was_added;
        none_posted = h.none_posted;
        none_live = left;
        handed_over = h.handed_over;
      })

Step-Stopped :
    (i n : ℕ) {s t : Scheduler} (e : Step s t)
    → s.last_event_id + is_addition e < 2 ^ 32
    → Stopped i n s
    → Stopped i n t
unfolding shutdown
Step-Stopped i n (adds f {s}) l h = add_event-Stopped i n f s l h
Step-Stopped i n (stops j {s}) l h = stop_event-Stopped i n j s h
Step-Stopped i n (shuts_down {s}) l h = posts i n cancel_all s terminated refl h
Step-Stopped i n (performs {s}) l h = perform_next-Stopped i n s.posted s refl h
Step-Stopped i n (closes {s}) l h = record {
  was_added = h.was_added;
  none_posted = h.none_posted;
  none_live = h.none_live;
  handed_over = h.handed_over;
}
Step-Stopped i n (expires k {s}) l h = record {
  was_added = h.was_added;
  none_posted = h.none_posted;
  none_live = omega (arith, h.none_live, expire_at-live i k s.waits);
  handed_over = h.handed_over;
}
Step-Stopped i n (handles before w after {s} e p g) l h = handle-Stopped i n before w after s e p h

stop_event-last : (j : ℕ) (s : Scheduler) → (stop_event j s).last_event_id ≡ s.last_event_id + 0
unfolding stop_event
stop_event-last j s = elim (Bool-cases (j == 0)) [
  | inl y ↦ rw y (omega arith)
  | inr n ↦ rw n (omega arith)
]

Step-last :
    {s t : Scheduler} (e : Step s t)
    → s.last_event_id + is_addition e < 2 ^ 32
    → t.last_event_id ≡ s.last_event_id + is_addition e
unfolding add_event shutdown handle
Step-last (adds f {s}) l = omega (arith, l)
Step-last (stops j {s}) l = stop_event-last j s
Step-last (shuts_down {s}) l = omega arith
Step-last (performs {s}) l = omega (arith, perform_next-last s.posted s)
Step-last (closes {s}) l = omega arith
Step-last (expires k {s}) l = omega arith
Step-last (handles before w after {s} e p g) l = omega (
  arith,
  hand_over-last w (is_aborted w.status || is_terminated s.state)
      (record s { waits = map (abort_wait w.event_id) (before ++ after) }),
)

Run-Stopped :
    (i n : ℕ) {s t : Scheduler} (r : Run s t)
    → s.last_event_id + additions r < 2 ^ 32
    → Stopped i n s
    → Stopped i n t × (t.last_event_id ≡ s.last_event_id + additions r)
Run-Stopped i n done l h = (h, omega arith)
Run-Stopped i n (then_step r e) l h =
    let (stays, last) = Run-Stopped i n r (omega (arith, l)) h in
    (
      Step-Stopped i n e (omega (arith, l, last)) stays,
      omega (arith, last, Step-last e (omega (arith, l, last))),
    )

cancelled :
    (i : ℕ) (s : Scheduler) (ps : List Posted)
    → s.posted ≡ cancel i ∷ ps
    → s.stopped ≡ false
    → (1 ≤ i) × (i ≤ s.last_event_id)
    → total (posted_id i) s.posted ≡ 0
    → total (due i) s.waits ≡ 0
    → Stopped i (total (same_id i) s.handed) (perform_next s.posted s)
unfolding perform_next perform
cancelled i s ps e alive added none_posted none_due =
    let next : Scheduler = record s { posted = ps; waits = map (abort_wait i) s.waits } in
    let stops_it : Stopped i (total (same_id i) s.handed) next = record {
      was_added = added;
      none_posted = omega (arith, ap (total (posted_id i)) e, none_posted);
      none_live = omega (arith, total-due i s.waits, none_due);
      handed_over = refl;
    } in
    subst (λ q. Stopped i (total (same_id i) s.handed) (perform_next q s)) (sym e)
      (subst (λ b. Stopped i (total (same_id i) s.handed) (if b then s else next)) (sym alive)
        stops_it)

-- When the thread comes to the cancelling of an event that was added, that nothing else posted
-- starts again and whose time has not come, then however the steps go on, while fewer than 2 ^ 32
-- events are added in all, the event is handed to the dispatcher no more often than it was before.
pub cancel-Stopped :
    (i : ℕ) (s t : Scheduler) (ps : List Posted)
    → s.posted ≡ cancel i ∷ ps
    → s.stopped ≡ false
    → (1 ≤ i) × (i ≤ s.last_event_id)
    → total (posted_id i) s.posted ≡ 0
    → total (due i) s.waits ≡ 0
    → (r : Run (perform_next s.posted s) t) → s.last_event_id + additions r < 2 ^ 32
    → total (same_id i) t.handed ≡ total (same_id i) s.handed
cancel-Stopped i s t ps e alive added none_posted none_due r l =
    let start = cancelled i s ps e alive added none_posted none_due in
    let bound = perform_next-last s.posted s in
    (Run-Stopped i (total (same_id i) s.handed) r (omega (arith, l, bound)) start).0.handed_over
