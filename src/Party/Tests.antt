-- ===== src/Party/Tests.antt =====
-- The theorems of Party: player 1 leads party 9, with 2 as a member and 3 invited.
use xynera_ots.Prelude.{
  ℕ, ◌≡◌, ◌↔◌, refl, Bool, true, false, arith, Option, none, some, List, [], ◌∷◌, ◌==◌,
  if◌then◌else◌,
}
use xynera_ots.Party.{
  is_none, clear_player_points, erase_first, update_shared_experience, Player, Party, World, Events,
  ok, is_empty, contains, remove_every, highest_level, get_member_shared_experience_status,
  first_status, get_shared_experience_status,
}
use xynera_ots.Party.Sharing.{Fits, status_iff}
use xynera_ots.Party.Groups.{leave_party, replace_leader, disband, pass_party_leadership}
use xynera_ots.Party.Groups.Effects.{disband-effect, pass_party_leadership-group}

abbrev knight : Option ℕ → List ℕ → Player
knight party invitations = record {
  online = true;
  level = 60;
  position = record { x = 100; y = 100; z = 7 };
  not_gain_in_fight = false;
  in_fight = false;
  in_protection_zone = false;
  party = party;
  invite_party_list = invitations;
}

abbrev team : Party
team = record {
  leader = 1;
  member_list = 2 ∷ [];
  invite_list = 3 ∷ [];
  ticks_map = λ i. some 900;
  shared_exp_active = true;
  shared_exp_enabled = true;
}

abbrev world : World
world = record {
  players = λ i.
      if i == 1
      then knight (some 9) []
      else (if i == 2
          then knight (some 9) []
          else (if i == 3 then knight none (9 ∷ []) else knight none []));
  parties = λ i. if i == 9 then some team else none;
  last_party = 9;
  now = 1000;
  pz_locked = 60000;
}

abbrev scripts : Bool → Events
scripts disbands = record {
  on_disband = λ w id. disbands;
  on_leave = λ w id player. true;
  on_join = λ w id player. true;
}

shared : get_shared_experience_status world team ≡ ok
unfolding get_shared_experience_status first_status get_member_shared_experience_status
    highest_level
shared = refl

status_iff_example : (get_shared_experience_status world team ≡ ok) ↔ (
    (is_empty team.member_list ≡ false)
    × ((m : ℕ) → contains m (team.leader ∷ team.member_list) ≡ true → Fits world team m))
status_iff_example = status_iff world team

disband-effect_example :
    (w' : World) × (disband (scripts true) 9 world ≡ some w')
    × ((j : ℕ) → w'.parties j ≡ (if j == 9 then none else world.parties j))
    × ((r : ℕ)
        → ((w'.players r).party
            ≡ (if contains r (1 ∷ 2 ∷ []) then none else (world.players r).party))
          × ((w'.players r).invite_party_list ≡ (
              if contains r (3 ∷ [])
              then remove_every 9 (world.players r).invite_party_list
              else (world.players r).invite_party_list)))
disband-effect_example = disband-effect (scripts true) 9 team world refl refl

two_in : contains 2 team.member_list ≡ true
unfolding contains
two_in = refl

pass_party_leadership-group_example :
    (p' : Party) × (w' : World) × (pass_party_leadership 9 2 world ≡ some (true, w'))
    × (w'.parties 9 ≡ some p')
    × (w'.players ≡ world.players)
    × (p'.leader ≡ 2)
    × (p'.invite_list ≡ 3 ∷ [])
    × ((r : ℕ) → contains r (p'.leader ∷ p'.member_list) ≡ contains r (1 ∷ 2 ∷ []))
pass_party_leadership-group_example =
    pass_party_leadership-group 9 2 team world refl refl (λ e. ground arith) two_in

abbrev pair : World
pair = record world {
  parties = λ i.
      if i == 9 then some (record team { invite_list = []; shared_exp_active = false }) else none;
}

abbrev left_behind : Option (Bool × World) → Option ℕ × Bool
left_behind none = (none, false)
left_behind (some (done, w)) =
    (elim (w.parties 9) [ none ↦ none | some p ↦ some p.leader ], is_none ((w.players 1).party))

-- The leader of two leaves and the script keeps the party: it is still his, and he has none.
vetoed : left_behind (leave_party (scripts false) 9 1 pair) ≡ (some 1, true)
unfolding leave_party replace_leader erase_first update_shared_experience clear_player_points
    disband
vetoed = refl
