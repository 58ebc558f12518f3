-- ===== src/Party/Groups.antt =====
-- The operations of a party on who is in it and who is invited, and the handlers that call them.
-- The result is `none` where the code would follow a pointer to a deleted party.
pub mod Effects
use xynera_ots.Prelude.{
  ℕ, ◌+◌, ◌%◌, ◌^◌, Bool, true, false, ◌&&◌, ◌||◌, not, Option, none, some, List, [], ◌∷◌, ◌++◌,
  ◌==◌, if◌then◌else◌,
}
use xynera_ots.Party.{
  Player, Party, World, Events, set_player, put_party, set_party, is_empty, contains, erase_first,
  remove_every, update_shared_experience, set_shared_experience, clear_player_points,
}

infixl 5 ◌>>=◌
abbrev pub ◌>>=◌ {ℓ κ} : {A : Type ℓ} {B : Type κ} → Option A → (A → Option B) → Option B
none >>= f = none
some a >>= f = f a

abbrev pub empty : Party → Bool
empty p = is_empty p.member_list && is_empty p.invite_list

-- The constructor: the new party's number is the next one.
unfoldable pub create : ℕ → World → World
create leader w =
    let id = (w.last_party + 1) % 2 ^ 32 in
    record (put_party id
      (some (record {
        leader = leader;
        member_list = [];
        invite_list = [];
        ticks_map = λ i. none;
        shared_exp_active = false;
        shared_exp_enabled = false;
      }))
      (set_party leader (some id) w)) { last_party = id }

unfoldable pub add_party_invitation : ℕ → ℕ → World → World
unfolding contains
add_party_invitation player id w =
    let v = w.players player in
    if contains id v.invite_party_list
    then w
    else set_player player (record v { invite_party_list = id ∷ v.invite_party_list }) w

unfoldable pub remove_party_invitation : ℕ → ℕ → World → World
unfolding remove_every
remove_party_invitation player id w =
    let v = w.players player in
    set_player player (record v { invite_party_list = remove_every id v.invite_party_list }) w

-- The loops of `disband` over the invited players and the members.
unfoldable pub uninvite : ℕ → List ℕ → World → World
unfolding remove_party_invitation
uninvite id [] w = w
uninvite id (i ∷ is) w = uninvite id is (remove_party_invitation i id w)

unfoldable pub release : List ℕ → World → World
release [] w = w
release (m ∷ ms) w = release ms (set_party m none w)

unfoldable pub disband : Events → ℕ → World → Option World
unfolding uninvite release
disband ev id w = do
  p ← w.parties id
  if not (ev.on_disband w id)
      then some w
      else some (
          put_party id none
            (release p.member_list (uninvite id p.invite_list (set_party p.leader none w))))

unfoldable pub remove_invite : Events → ℕ → ℕ → Bool → World → Option (Bool × World)
unfolding contains erase_first remove_party_invitation disband
remove_invite ev id player from_player w = do
  p ← w.parties id
  if not (contains player p.invite_list)
      then some (false, w)
      else (let p' = record p { invite_list = erase_first player p.invite_list } in
          let w1 = put_party id (some p') w in
          let w2 = if from_player then remove_party_invitation player id w1 else w1 in
          if empty p' then (do w3 ← disband ev id w2; some (true, w3)) else some (true, w2))

-- The loop of `clearPartyInvitations`, and the call.
unfoldable pub clear_all : Events → ℕ → List ℕ → World → Option World
unfolding remove_invite
clear_all ev player [] w = some w
clear_all ev player (id ∷ ids) w = do
  (found, w') ← remove_invite ev id player false w
  clear_all ev player ids w'

unfoldable pub clear_party_invitations : Events → ℕ → World → Option World
unfolding clear_all
clear_party_invitations ev player w = do
  w' ← clear_all ev player (w.players player).invite_party_list w
  some (set_player player (record (w'.players player) { invite_party_list = [] }) w')

abbrev pub is_in : World → ℕ → ℕ → Bool
is_in w id player = elim ((w.players player).party) [ none ↦ false | some q ↦ q == id ]

unfoldable pub pass_party_leadership : ℕ → ℕ → World → Option (Bool × World)
unfolding erase_first update_shared_experience
pass_party_leadership id player w = do
  p ← w.parties id
  if p.leader == player || not (is_in w id player)
      then some (false, w)
      else (let p' = record p {
        leader = player;
        member_list = p.leader ∷ erase_first player p.member_list;
      } in
          some (true, put_party id (some (update_shared_experience w p')) w))

-- The part of `leaveParty` that picks a new leader: whether one is missing, and the world then.
unfoldable pub replace_leader : ℕ → ℕ → Party → World → Option (Bool × World)
unfolding pass_party_leadership
replace_leader id player p w =
    if not (p.leader == player) then some (false, w) else elim (p.member_list) [
      | [] ↦ some (true, w)
      | m ∷ ms ↦
          if is_empty ms && is_empty p.invite_list
          then some (true, w)
          else (do (passed, w') ← pass_party_leadership id m w; some (false, w'))
    ]

unfoldable pub leave_party : Events → ℕ → ℕ → World → Option (Bool × World)
unfolding replace_leader erase_first update_shared_experience clear_player_points disband
leave_party ev id player w = do
  p ← w.parties id
  if (not (is_in w id player) && not (p.leader == player)) || not (ev.on_leave w id player)
      then some (false, w)
      else (do
        (missing_leader, w1) ← replace_leader id player p w
        p1 ← w1.parties id
        let w2 = set_party player none w1
        let p2 = record p1 { member_list = erase_first player p1.member_list }
        let p3 = clear_player_points w2 player (update_shared_experience w2 p2)
        let w3 = put_party id (some p3) w2
        if missing_leader || empty p3
            then (do w4 ← disband ev id w3; some (true, w4))
            else some (true, w3))

unfoldable pub join_party : Events → ℕ → ℕ → World → Option (Bool × World)
unfolding clear_party_invitations update_shared_experience
join_party ev id player w = do
  p ← w.parties id
  if not (ev.on_join w id player) then some (false, w) else (do
    w1 ← if is_empty p.member_list then clear_party_invitations ev p.leader w else some w
    p1 ← w1.parties id
    let p2 = record p1 { member_list = p1.member_list ++ player ∷ [] }
    w2 ← clear_party_invitations ev player (set_party player (some id) (put_party id (some p2) w1))
    p3 ← w2.parties id
    some (true, put_party id (some (update_shared_experience w2 p3)) w2))

unfoldable pub invite_player : ℕ → ℕ → World → Option (Bool × World)
unfolding contains add_party_invitation
invite_player id player w = do
  p ← w.parties id
  if contains player p.invite_list
      then some (false, w)
      else (let p' = record p { invite_list = p.invite_list ++ player ∷ [] } in
          some (true, add_party_invitation player id (put_party id (some p') w)))
