-- ===== src/Party.antt =====
-- Parties: src/party.h, src/party.cpp, the party's part of src/player.cpp and the handlers of
-- src/game.cpp. Players and parties are numbers that stand for their addresses; a deleted party is
-- one that the store does not have. What players are sent is output and not part of the state, and
-- the Lua events are functions of the world: they answer, and change nothing.
pub mod Sharing
pub mod Groups
pub mod Handlers
mod Tests
use xynera_ots.Prelude.{
  ℕ, ◌+◌, ◌-◌, ◌*◌, ◌/◌, ◌%◌, ◌^◌, Bool, true, false, ◌&&◌, ◌||◌, not, Option, none, some, List, [],
  ◌∷◌, ◌++◌, ltb, leb, ◌==◌, if◌then◌else◌,
}
use xynera_ots.Net.Message.{Pos}
use xynera_ots.Geometry.{are_in_range}

pub record Player : Type 0 where
  pub online : Bool
  pub level : ℕ
  pub position : Pos
  pub not_gain_in_fight : Bool
  pub in_fight : Bool
  pub in_protection_zone : Bool
  pub party : Option ℕ
  pub invite_party_list : List ℕ

pub record Party : Type 0 where
  pub leader : ℕ
  pub member_list : List ℕ
  pub invite_list : List ℕ
  pub ticks_map : ℕ → Option ℕ
  pub shared_exp_active : Bool
  pub shared_exp_enabled : Bool

-- `last_party` is `partyAutoUID`; `now` and `pz_locked` are the clock and the configured time.
pub record World : Type 0 where
  pub players : ℕ → Player
  pub parties : ℕ → Option Party
  pub last_party : ℕ
  pub now : ℕ
  pub pz_locked : ℕ

pub record Events : Type 0 where
  pub on_disband : World → ℕ → Bool
  pub on_leave : World → ℕ → ℕ → Bool
  pub on_join : World → ℕ → ℕ → Bool

pub data SharedExpStatus : Type 0 where
  ok too_far_away level_diff_too_large member_inactive empty_party : SharedExpStatus

abbrev pub set_player : ℕ → Player → World → World
set_player i v w = record w { players = λ j. if j == i then v else w.players j }

abbrev pub put_party : ℕ → Option Party → World → World
put_party i v w = record w { parties = λ j. if j == i then v else w.parties j }

abbrev pub set_party : ℕ → Option ℕ → World → World
set_party i v w = set_player i (record (w.players i) { party = v }) w

abbrev pub is_none : {A : Type 0} → Option A → Bool
is_none none = true
is_none (some a) = false

abbrev pub is_empty : List ℕ → Bool
is_empty [] = true
is_empty (x ∷ xs) = false

unfoldable pub contains : ℕ → List ℕ → Bool
contains a [] = false
contains a (b ∷ bs) = b == a || contains a bs

-- `erase` of what `find` gives: the first occurrence.
unfoldable pub erase_first : ℕ → List ℕ → List ℕ
erase_first a [] = []
erase_first a (b ∷ bs) = if b == a then bs else b ∷ erase_first a bs

-- `std::list::remove`.
unfoldable pub remove_every : ℕ → List ℕ → List ℕ
remove_every a [] = []
remove_every a (b ∷ bs) = let rest = remove_every a bs in if b == a then rest else b ∷ rest

unfoldable pub highest_level : (ℕ → Player) → ℕ → List ℕ → ℕ
highest_level players high [] = high
highest_level players high (m ∷ ms) =
    highest_level players (if ltb high (players m).level then (players m).level else high) ms

-- ceil (h * 2 / 3); a float holds this exactly for every level below 2 ^ 21.
abbrev pub min_level : ℕ → ℕ
min_level h = (h * 2 + 2) / 3

-- Healed or attacked recently; `timeDiff` is a uint64_t.
abbrev pub is_active : World → Party → ℕ → Bool
is_active w p player = elim (p.ticks_map player) [
  | none ↦ false
  | some t ↦ leb ((w.now + 2 ^ 64 - t) % 2 ^ 64) w.pz_locked
]

unfoldable pub get_member_shared_experience_status : World → Party → ℕ → SharedExpStatus
unfolding highest_level
get_member_shared_experience_status w p player =
    if is_empty p.member_list
    then empty_party
    else (if ltb (w.players player).level
          (min_level (highest_level w.players (w.players p.leader).level p.member_list))
        then level_diff_too_large
        else (if not
              (are_in_range 30 30 1 (w.players p.leader).position (w.players player).position)
            then too_far_away
            else (if not (w.players player).not_gain_in_fight && not (is_active w p player)
                then member_inactive
                else ok)))

pub can_use_shared_experience : World → Party → ℕ → Bool
unfolding get_member_shared_experience_status
can_use_shared_experience w p player = elim (get_member_shared_experience_status w p player) [
  | ok ↦ true
  | _ ↦ false
]

unfoldable pub first_status : World → Party → List ℕ → SharedExpStatus
first_status w p [] = ok
first_status w p (m ∷ ms) = elim (get_member_shared_experience_status w p m) [
  | ok ↦ first_status w p ms
  | s ↦ s
]

unfoldable pub get_shared_experience_status : World → Party → SharedExpStatus
unfolding first_status
get_shared_experience_status w p = first_status w p (p.leader ∷ p.member_list)

abbrev pub is_ok : SharedExpStatus → Bool
is_ok ok = true
is_ok _ = false

unfoldable pub update_shared_experience : World → Party → Party
update_shared_experience w p =
    if p.shared_exp_active
    then record p { shared_exp_enabled = is_ok (get_shared_experience_status w p) }
    else p

-- The result is the code's, with the party as it then is.
unfoldable pub set_shared_experience : World → ℕ → Bool → Party → Bool × Party
set_shared_experience w player active p =
    if not (p.leader == player)
    then (false, p)
    else (if (if p.shared_exp_active then active else not active) then (true, p) else (
      true,
      let p' = record p { shared_exp_active = active } in
          if active
          then record p' { shared_exp_enabled = is_ok (get_shared_experience_status w p') }
          else p',
    ))

unfoldable pub update_player_ticks : World → ℕ → ℕ → Party → Party
update_player_ticks w player points p =
    if not (points == 0) && not (w.players player).not_gain_in_fight
    then update_shared_experience w
        (record p { ticks_map = λ j. if j == player then some w.now else p.ticks_map j })
    else p

unfoldable pub clear_player_points : World → ℕ → Party → Party
clear_player_points w player p = elim (p.ticks_map player) [
  | none ↦ p
  | some t ↦
      update_shared_experience w
        (record p { ticks_map = λ j. if j == player then none else p.ticks_map j })
]

-- `getActiveMembers`: the members and then the leader. A leader with the flag is not among them.
pub active_among : World → Party → List ℕ → List ℕ
active_among w p [] = []
active_among w p (m ∷ ms) =
    let rest = active_among w p ms in
    if (w.players m).not_gain_in_fight || is_active w p m then m ∷ rest else rest

pub get_active_members : World → Party → List ℕ
unfolding active_among
get_active_members w p =
    active_among w p p.member_list
    ++ (if not (w.players p.leader).not_gain_in_fight && is_active w p p.leader
        then p.leader ∷ []
        else [])

-- `id` is the address of the party that the call is on.
pub can_open_corpse : World → ℕ → Party → ℕ → Bool
can_open_corpse w id p owner =
    if (w.players owner).online
    then p.leader == owner || elim ((w.players owner).party) [ none ↦ false | some q ↦ q == id ]
    else false
