-- ===== src/Party/Sharing.antt =====
-- When a party shares experience.
use xynera_ots.Prelude.{
  ℕ, ◌*◌, ◌/◌, ◌≡◌, ◌↔◌, ◌⊎◌, ◌≤◌, inl, inr, refl, sym, ◌∙◌, Bool, true, false, arith, ◌&&◌, ◌||◌,
  not, List, [], ◌∷◌, ltb, ◌==◌, if◌then◌else◌, Bool-cases,
}
use xynera_ots.Geometry.{are_in_range}
use xynera_ots.Party.{
  Player, Party, World, SharedExpStatus, ok, too_far_away, level_diff_too_large, member_inactive,
  empty_party, is_empty, contains, highest_level, min_level, is_active,
  get_member_shared_experience_status, first_status, get_shared_experience_status,
}

module _ (players : ℕ → Player) where
  highest_le : (high : ℕ) (ms : List ℕ) → high ≤ highest_level players high ms
  unfolding highest_level
  highest_le high [] = omega arith
  highest_le high (m ∷ ms) =
      ground (arith, highest_le (if ltb high (players m).level then (players m).level else high) ms)

  highest_bounds :
      (r : ℕ) (ms : List ℕ) (high : ℕ)
      → contains r ms ≡ true
      → (players r).level ≤ highest_level players high ms
  unfolding highest_level contains
  highest_bounds r [] high h = cc
  highest_bounds r (m ∷ ms) high h = elim (Bool-cases (m == r)) [
    | inl y ↦
        let same : m ≡ r = ground arith in
        rw (← same) (
          ground
            (arith, highest_le (if ltb high (players m).level then (players m).level else high) ms))
    | inr n ↦ highest_bounds r ms _ (ground arith)
  ]

  -- The highest level is the leader's or a member's.
  highest_level-found :
      (b : ℕ) (ms : List ℕ) (high : ℕ)
      → high ≤ b
      → ((r : ℕ) → contains r ms ≡ true → (players r).level ≤ b)
      → highest_level players high ms ≤ b
  unfolding highest_level contains
  highest_level-found b [] high h k = h
  highest_level-found b (m ∷ ms) high h k =
      let here = k m (ground arith) in
      highest_level-found b ms _ (ground (arith, here)) (λ r c. k r (ground arith))

min_level_iff : (h l : ℕ) → (min_level h ≤ l) ↔ (h * 2 ≤ l * 3)
min_level_iff h l = (λ e. omega arith, λ e. omega arith)

-- What a participant must be like: his level at least two thirds of everyone's, near the leader,
-- and active lately or exempt.
pub record Fits (w : World) (p : Party) (m : ℕ) : Type 0 where
  pub levels :
      (r : ℕ)
      → contains r (p.leader ∷ p.member_list) ≡ true
      → (w.players r).level * 2 ≤ (w.players m).level * 3
  pub near : are_in_range 30 30 1 (w.players p.leader).position (w.players m).position ≡ true
  pub busy : ((w.players m).not_gain_in_fight ≡ true) ⊎ (is_active w p m ≡ true)

highest_within :
    (w : World) (p : Party) (b : ℕ)
    → (highest_level w.players (w.players p.leader).level p.member_list ≤ b)
      ↔ ((r : ℕ) → contains r (p.leader ∷ p.member_list) ≡ true → (w.players r).level ≤ b)
unfolding contains
highest_within w p b = (
  λ h r c. elim (Bool-cases (p.leader == r)) [
    | inl y ↦
        let same : p.leader ≡ r = ground arith in
        rw (← same)
          (omega (arith, highest_le w.players (w.players p.leader).level p.member_list, h))
    | inr n ↦
        let k : contains r p.member_list ≡ true = ground arith in
        omega (arith, highest_bounds w.players r p.member_list (w.players p.leader).level k, h)
  ],
  λ h.
      highest_level-found w.players b p.member_list _ (h p.leader (ground arith))
        (λ r c. h r (ground arith)),
)

tests_iff :
    (alone low near exempt busy : Bool)
    → ((if alone
          then empty_party
          else (if low
              then level_diff_too_large
              else (if not near
                  then too_far_away
                  else (if not exempt && not busy then member_inactive else ok))))
        ≡ ok)
      ↔ ((alone ≡ false) × (low ≡ false) × (near ≡ true) × ((exempt ≡ true) ⊎ (busy ≡ true)))
tests_iff alone low near exempt busy = ground arith

enough_iff : (l h : ℕ) → (ltb l (min_level h) ≡ false) ↔ (h * 2 ≤ l * 3)
enough_iff l h = (λ e. ground arith, λ e. ground arith)

levels_iff :
    (w : World) (p : Party) (m : ℕ)
    → (ltb
          (w.players m).level
          (min_level (highest_level w.players (w.players p.leader).level p.member_list))
        ≡ false)
      ↔ ((r : ℕ)
          → contains r (p.leader ∷ p.member_list) ≡ true
          → (w.players r).level * 2 ≤ (w.players m).level * 3)
levels_iff w p m =
    let l = (w.players m).level in
    let within = highest_within w p (l * 3 / 2) in
    let enough = enough_iff l (highest_level w.players (w.players p.leader).level p.member_list) in
    (
      λ e r c.
          let top = enough.0 e in
          let mine = within.0 (omega (arith, top)) r c in omega (arith, mine),
      λ k. enough.1 (
          let all = within.1 (λ r c. let mine = k r c in omega (arith, mine)) in
          omega (arith, all)),
    )

member_status_iff :
    (w : World) (p : Party) (m : ℕ)
    → (get_member_shared_experience_status w p m ≡ ok)
      ↔ ((is_empty p.member_list ≡ false) × Fits w p m)
unfolding get_member_shared_experience_status
member_status_iff w p m =
    let tests =
      tests_iff (is_empty p.member_list)
        (ltb (w.players m).level
          (min_level (highest_level w.players (w.players p.leader).level p.member_list)))
        (are_in_range 30 30 1 (w.players p.leader).position (w.players m).position)
        (w.players m).not_gain_in_fight (is_active w p m) in
    (
      λ e.
          let (some_member, low, near, busy) = tests.0 e in
          (some_member, record { levels = (levels_iff w p m).0 low; near = near; busy = busy }),
      λ (some_member, fits).
          tests.1 (some_member, (levels_iff w p m).1 fits.levels, fits.near, fits.busy),
    )

first_status_iff :
    (w : World) (p : Party) (ms : List ℕ)
    → (first_status w p ms ≡ ok)
      ↔ ((m : ℕ) → contains m ms ≡ true → get_member_shared_experience_status w p m ≡ ok)
unfolding first_status contains
first_status_iff w p [] = (λ e m c. cc, λ k. refl)
first_status_iff w p (a ∷ ms) =
    by_status (get_member_shared_experience_status w p a) refl (first_status_iff w p ms)
  where
    by_status :
        (s : SharedExpStatus)
        → get_member_shared_experience_status w p a ≡ s
        → (first_status w p ms ≡ ok)
          ↔ ((m : ℕ) → contains m ms ≡ true → get_member_shared_experience_status w p m ≡ ok)
        → ((elim s [ ok ↦ first_status w p ms | s' ↦ s' ]) ≡ ok) ↔ (
            (m : ℕ)
            → (a == m || contains m ms) ≡ true
            → get_member_shared_experience_status w p m ≡ ok)
    by_status ok e ih = (
      λ f m c. elim (Bool-cases (a == m)) [
        | inl y ↦ let same : a ≡ m = ground arith in rw (← same) e
        | inr n ↦ ih.0 f m (ground arith)
      ],
      λ k. ih.1 (λ m c. k m (ground arith)),
    )
    by_status too_far_away e ih = (λ f. cc, λ k. let here = sym e ∙ k a (ground arith) in here)
    by_status level_diff_too_large e ih =
        (λ f. cc, λ k. let here = sym e ∙ k a (ground arith) in here)
    by_status member_inactive e ih = (λ f. cc, λ k. let here = sym e ∙ k a (ground arith) in here)
    by_status empty_party e ih = (λ f. cc, λ k. let here = sym e ∙ k a (ground arith) in here)

-- The party's status is good exactly when it has a member and the leader and every member fit.
pub status_iff :
    (w : World) (p : Party)
    → (get_shared_experience_status w p ≡ ok) ↔ (
        (is_empty p.member_list ≡ false)
        × ((m : ℕ) → contains m (p.leader ∷ p.member_list) ≡ true → Fits w p m))
unfolding get_shared_experience_status
status_iff w p =
    let each = first_status_iff w p (p.leader ∷ p.member_list) in
    let leader_fits = (member_status_iff w p p.leader).0 in
    (
      λ e.
          let lead = leader_fits (each.0 e p.leader (leader_in p.leader p.member_list)) in
          (lead.0, λ m c. ((member_status_iff w p m).0 (each.0 e m c)).1),
      λ (some_member, fit). each.1 (λ m c. (member_status_iff w p m).1 (some_member, fit m c)),
    )
  where
    leader_in : (a : ℕ) (ms : List ℕ) → contains a (a ∷ ms) ≡ true
    leader_in a ms = unfold contains in ground arith
