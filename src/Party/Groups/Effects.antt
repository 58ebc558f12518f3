-- ===== src/Party/Groups/Effects.antt =====
-- What the operations of a party do to it and to the players.
use xynera_ots.Prelude.{
  ℕ, ◌≡◌, ◌≢◌, inl, inr, refl, ap, ap₂, ◌∙◌, true, false, arith, ◌||◌, none, some, List, [], ◌∷◌,
  ◌==◌, if◌then◌else◌, Bool-cases,
}
use xynera_ots.Party.{
  Party, World, Events, put_party, set_party, contains, erase_first, remove_every,
  update_shared_experience,
}
use xynera_ots.Party.Groups.{
  disband, uninvite, release, remove_party_invitation, pass_party_leadership, is_in,
}

release-parties : (ms : List ℕ) (w : World) → (release ms w).parties ≡ w.parties
unfolding release
release-parties [] w = refl
release-parties (m ∷ ms) w = release-parties ms (set_party m none w)

release-party :
    (r : ℕ) (ms : List ℕ) (w : World)
    → ((release ms w).players r).party ≡ (if contains r ms then none else (w.players r).party)
unfolding release contains
release-party r [] w = refl
release-party r (m ∷ ms) w = ground (arith, release-party r ms (set_party m none w))

release-invitations :
    (r : ℕ) (ms : List ℕ) (w : World)
    → ((release ms w).players r).invite_party_list ≡ (w.players r).invite_party_list
unfolding release
release-invitations r [] w = refl
release-invitations r (m ∷ ms) w = ground (arith, release-invitations r ms (set_party m none w))

uninvite-parties : (id : ℕ) (is : List ℕ) (w : World) → (uninvite id is w).parties ≡ w.parties
unfolding uninvite remove_party_invitation
uninvite-parties id [] w = refl
uninvite-parties id (m ∷ ms) w = uninvite-parties id ms (remove_party_invitation m id w)

uninvite-party :
    (id r : ℕ) (is : List ℕ) (w : World)
    → ((uninvite id is w).players r).party ≡ (w.players r).party
unfolding uninvite remove_party_invitation
uninvite-party id r [] w = refl
uninvite-party id r (m ∷ ms) w =
    ground (arith, uninvite-party id r ms (remove_party_invitation m id w))

remove_every-twice : (a : ℕ) (xs : List ℕ) → remove_every a (remove_every a xs) ≡ remove_every a xs
unfolding remove_every
remove_every-twice a [] = refl
remove_every-twice a (b ∷ bs) = elim (Bool-cases (b == a)) [
  | inl y ↦ rw y (remove_every-twice a bs)
  | inr n ↦ rw (n, n, remove_every-twice a bs) refl
]

uninvite-invitations :
    (id r : ℕ) (is : List ℕ) (w : World)
    → ((uninvite id is w).players r).invite_party_list ≡ (
        if contains r is
        then remove_every id (w.players r).invite_party_list
        else (w.players r).invite_party_list)
unfolding uninvite remove_party_invitation contains
uninvite-invitations id r [] w = refl
uninvite-invitations id r (m ∷ ms) w = ground (
  arith,
  uninvite-invitations id r ms (remove_party_invitation m id w),
  remove_every-twice id (w.players r).invite_party_list,
)

contains-erase_first :
    (a r : ℕ) (ms : List ℕ)
    → contains a ms ≡ true
    → contains r ms ≡ (a == r || contains r (erase_first a ms))
unfolding contains erase_first
contains-erase_first a r [] h = cc
contains-erase_first a r (m ∷ ms) h = elim (Bool-cases (m == a)) [
  | inl y ↦ let same : m ≡ a = ground arith in rw (y, ← same) refl
  | inr n ↦ rw n (ground (arith, contains-erase_first a r ms (ground arith)))
]

update_shared_experience-group :
    (w : World) (p : Party)
    → ((update_shared_experience w p).leader ≡ p.leader)
      × ((update_shared_experience w p).member_list ≡ p.member_list)
      × ((update_shared_experience w p).invite_list ≡ p.invite_list)
unfolding update_shared_experience
update_shared_experience-group w p = elim (Bool-cases p.shared_exp_active) [
  | inl y ↦ rw y (refl, refl, refl)
  | inr n ↦ rw n (refl, refl, refl)
]

swapped :
    (r a b : ℕ) (ms : List ℕ)
    → contains r ms ≡ (b == r || contains r (erase_first b ms))
    → contains r (b ∷ a ∷ erase_first b ms) ≡ contains r (a ∷ ms)
unfolding contains
swapped r a b ms h = ground arith

-- Passing the leadership to a member changes the leader and nobody's being in the party.
pub pass_party_leadership-group :
    (id player : ℕ) (p : Party) (w : World)
    → w.parties id ≡ some p
    → (w.players player).party ≡ some id
    → p.leader ≢ player
    → contains player p.member_list ≡ true
    → (p' : Party) × (w' : World) × (pass_party_leadership id player w ≡ some (true, w'))
      × (w'.parties id ≡ some p')
      × (w'.players ≡ w.players)
      × (p'.leader ≡ player)
      × (p'.invite_list ≡ p.invite_list)
      × ((r : ℕ) → contains r (p'.leader ∷ p'.member_list) ≡ contains r (p.leader ∷ p.member_list))
unfolding pass_party_leadership
pass_party_leadership-group id player p w e inside other member =
    let p1 = record p {
      leader = player;
      member_list = p.leader ∷ erase_first player p.member_list;
    } in
    let p' = update_shared_experience w p1 in
    let kept = update_shared_experience-group w p1 in
    let apart : (p.leader == player) ≡ false = ground arith in
    let in_it : is_in w id player ≡ true = ground (arith, inside) in
    let itself : (id == id) ≡ true = ground arith in
    (
      p',
      put_party id (some p') w,
      rw (e, apart, in_it) refl,
      rw itself refl,
      refl,
      kept.0,
      kept.2,
      λ r.
          ap₂ (λ a as'. contains r (a ∷ as')) kept.0 kept.1
          ∙ swapped r p.leader player p.member_list
              (contains-erase_first player r p.member_list member),
    )

-- A party that the scripts let disband is deleted; no other party changes. Its leader and members
-- have no party afterwards, the invited players no invitation to it, and nobody else's are changed.
pub disband-effect :
    (ev : Events) (id : ℕ) (p : Party) (w : World)
    → w.parties id ≡ some p
    → ev.on_disband w id ≡ true
    → (w' : World) × (disband ev id w ≡ some w')
      × ((j : ℕ) → w'.parties j ≡ (if j == id then none else w.parties j))
      × ((r : ℕ)
          → ((w'.players r).party
              ≡ (if contains r (p.leader ∷ p.member_list) then none else (w.players r).party))
            × ((w'.players r).invite_party_list ≡ (
                if contains r p.invite_list
                then remove_every id (w.players r).invite_party_list
                else (w.players r).invite_party_list)))
unfolding disband contains
disband-effect ev id p w e allowed =
    let w1 = set_party p.leader none w in
    let w2 = uninvite id p.invite_list w1 in
    let w3 = release p.member_list w2 in
    let same_parties : w3.parties ≡ w.parties =
      release-parties p.member_list w2 ∙ uninvite-parties id p.invite_list w1 in
    (
      put_party id none w3,
      rw (e, allowed) refl,
      λ j. ap (λ f. if j == id then none else f j) same_parties,
      λ r. (
        ground (arith, release-party r p.member_list w2, uninvite-party id r p.invite_list w1),
        ground (
          arith,
          release-invitations r p.member_list w2,
          uninvite-invitations id r p.invite_list w1,
        ),
      ),
    )
