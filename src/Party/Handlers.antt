-- ===== src/Party/Handlers.antt =====
-- The party's handlers in src/game.cpp. A result is `none` where the code would follow a pointer to
-- a deleted party.
use xynera_ots.Prelude.{
  ℕ, Bool, true, false, ◌&&◌, ◌||◌, not, Option, none, some, ◌==◌, if◌then◌else◌,
}
use xynera_ots.Party.{World, Events, contains, is_none, put_party, set_shared_experience}
use xynera_ots.Party.Groups.{
  ◌>>=◌, create, remove_invite, pass_party_leadership, leave_party, join_party, invite_player,
}

-- Player::isInviting.
unfoldable pub is_inviting : ℕ → ℕ → World → Option Bool
unfolding contains
is_inviting host guest w = elim ((w.players host).party) [
  | none ↦ some false
  | some id ↦ do p ← w.parties id; some (p.leader == host && contains guest p.invite_list)
]

-- Player::isPartner.
unfoldable pub is_partner : ℕ → ℕ → World → Bool
is_partner player other w = if player == other then false else elim ((w.players player).party) [
  | none ↦ false
  | some id ↦ elim ((w.players other).party) [ none ↦ false | some q ↦ q == id ]
]

pub player_invite_to_party : ℕ → ℕ → World → Option World
unfolding is_inviting create invite_player
player_invite_to_party player invited w =
    if player == invited || not (w.players player).online || not (w.players invited).online
    then some w
    else (do
      inviting ← is_inviting invited player w
      if inviting || not (is_none ((w.players invited).party))
          then some w
          else elim ((w.players player).party) [
            | none ↦
                let w' = create player w in
                (do (done, w'') ← invite_player w'.last_party invited w'; some w'')
            | some id ↦ (do
              p ← w.parties id
              if not (p.leader == player)
                  then some w
                  else (do (done, w') ← invite_player id invited w; some w'))
          ])

pub player_join_party : Events → ℕ → ℕ → World → Option World
unfolding is_inviting join_party
player_join_party ev player leader w =
    if not (w.players player).online || not (w.players leader).online then some w else (do
      inviting ← is_inviting leader player w
      if not inviting then some w else elim ((w.players leader).party) [
        | none ↦ some w
        | some id ↦ (do
          p ← w.parties id
          if not (p.leader == leader) || not (is_none ((w.players player).party))
              then some w
              else (do (done, w') ← join_party ev id player w; some w'))
      ])

-- With `revokeInvitation`, which only sends messages besides.
pub player_revoke_party_invitation : Events → ℕ → ℕ → World → Option World
unfolding is_inviting remove_invite
player_revoke_party_invitation ev player invited w =
    if not (w.players player).online then some w else elim ((w.players player).party) [
      | none ↦ some w
      | some id ↦ (do
        p ← w.parties id
        if not (p.leader == player) || not (w.players invited).online then some w else (do
          inviting ← is_inviting player invited w
          if not inviting
              then some w
              else (do (done, w') ← remove_invite ev id invited true w; some w')))
    ]

pub player_pass_party_leadership : ℕ → ℕ → World → Option World
unfolding is_partner pass_party_leadership
player_pass_party_leadership player heir w =
    if not (w.players player).online then some w else elim ((w.players player).party) [
      | none ↦ some w
      | some id ↦ (do
        p ← w.parties id
        if not (p.leader == player) || not (w.players heir).online || not (is_partner player heir w)
            then some w
            else (do (done, w') ← pass_party_leadership id heir w; some w'))
    ]

pub player_leave_party : Events → ℕ → World → Option World
unfolding leave_party
player_leave_party ev player w =
    if not (w.players player).online || (w.players player).in_fight
    then some w
    else elim ((w.players player).party) [
      | none ↦ some w
      | some id ↦ (do (done, w') ← leave_party ev id player w; some w')
    ]

pub player_enable_shared_party_experience : ℕ → Bool → World → Option World
unfolding set_shared_experience
player_enable_shared_party_experience player active w =
    let v = w.players player in
    if not v.online || (v.in_fight && not v.in_protection_zone) then some w else elim (v.party) [
      | none ↦ some w
      | some id ↦ (do
        p ← w.parties id
        some (put_party id (some (set_shared_experience w player active p).1) w))
    ]
