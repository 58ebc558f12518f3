-- ===== src/Map/Path/Find/Sound.antt =====
-- The result of getPathMatching of src/map.cpp: with enough fuel it is that there is no path, or a
-- path for the creature.
use xynera_ots.Prelude.{ℕ, zero, suc, ◌^◌, ◌≤◌, ◌<◌, none, arith}
use xynera_ots.Map.Nodes.{start_nodes}
use xynera_ots.Map.Nodes.Weight.{measure, weight, total, total-next}
use xynera_ots.Map.Path.{Search}
use xynera_ots.Map.Path.Linked.{IsThere, start_nodes-Linked}
use xynera_ots.Map.Path.Find.{
  State, Round, again, ended, round, loop, get_path_matching, search_fuel,
}
use xynera_ots.Map.Path.Find.Trace.{Inner, Found, Sound}
use xynera_ots.Map.Path.Find.Rounds.{Sane, RoundSound, round-Sound}

abbrev pub start_state : ℕ → ℕ → State
start_state x y = record { nodes = start_nodes x y; best_match = 0; found = none }

pub start_state-Sane :
    (a : Search)
    → a.creature.position.x < 2 ^ 16
    → a.creature.position.y < 2 ^ 16
    → Sane a (start_state a.creature.position.x a.creature.position.y)
unfolding Found
start_state-Sane a hx hy = record { linked = start_nodes-Linked a hx hy; is_found = tt }

-- A round that goes on has a rest that is sound.
after_round :
    (fuel : ℕ) (a : Search) (s : State) (r : Round)
    → RoundSound a s r
    → measure s.nodes < suc fuel
    → ((s' : State) → Sane a s' → measure s'.nodes < fuel → Sound a (loop fuel a s'))
    → Sound a (elim r [ again s' ↦ loop fuel a s' | ended o ↦ o ])
unfolding RoundSound
after_round fuel a s (again s') (h, l) m k = k s' h (omega (arith, l, m))
after_round fuel a s (ended o) h m k = h

loop-Sound :
    (fuel : ℕ) (a : Search) (s : State)
    → IsThere a a.creature.position
    → Inner a
    → Sane a s
    → measure s.nodes < fuel
    → Sound a (loop fuel a s)
unfolding loop
loop-Sound zero a s home inner h l = absurd (omega (arith, l))
loop-Sound (suc fuel) a s home inner h l =
    after_round fuel a s (round a s) (round-Sound a home inner s h) l
      (λ s' k m. loop-Sound fuel a s' home inner k m)

start_state-measure : (x y : ℕ) → measure (start_nodes x y) < search_fuel
unfolding measure start_nodes total
start_state-measure x y =
    omega (arith, total-next (weight (start_nodes x y).nodes (start_nodes x y).open_nodes) 0)

-- The search of a creature whose position is in the map's coordinates and has a tile, where no place
-- that the creature is let onto and that the search does not pass over lies on the border of the
-- coordinates, ends: with the fuel search_fuel or more the result is that there is no path, or a path.
-- The creature can walk a path from its position, its last direction first; every place it comes to is
-- one where canWalkTo gives a tile and that is not passed over, and the place at its end meets the
-- condition for some best match. No tile that the code reads without a test is missing.
pub get_path_matching-Sound :
    (fuel : ℕ) (a : Search)
    → search_fuel ≤ fuel
    → a.creature.position.x < 2 ^ 16
    → a.creature.position.y < 2 ^ 16
    → IsThere a a.creature.position
    → Inner a
    → Sound a (get_path_matching fuel a)
unfolding get_path_matching
get_path_matching-Sound fuel a enough hx hy home inner =
    let x = a.creature.position.x in
    let y = a.creature.position.y in
    loop-Sound fuel a (start_state x y) home inner (start_state-Sane a hx hy)
      (omega (arith, start_state-measure x y, enough))
