-- ===== src/Guild/Ranks.antt =====
-- Ranks of a loaded guild, and who is online.

use xynera_ots.Prelude.{
  ℕ, ◌≤◌, ◌≡◌, ◌≢◌, ◌⊎◌, inl, inr, refl, sym, ap, ◌∙◌, Bool, true, false, none, some, List, [], ◌∷◌,
  ◌++◌, ltb, ◌==◌, if◌then◌else◌, arith, Bool-cases,
}
use xynera_ots.Guild.{
  Guild, GuildRank, create, remove_all, remove_member, first_rank, get_rank_by_level, add_rank,
  add_ranks, load_guild,
}

abbrev pub AllBelow : ℕ → List GuildRank → Type 0
AllBelow n [] = Unit {0}
AllBelow n (r ∷ rs) = (r.level ≤ n) × AllBelow n rs

-- The leader's level is the highest of the ranks, and some rank has it (or there is none above 0).
pub record IsTop (g : Guild) : Type 0 where
  pub bounds : AllBelow g.leader_rank_level g.ranks
  pub reached :
      (g.leader_rank_level ≡ 0)
      ⊎ ((r : GuildRank) × (get_rank_by_level g.leader_rank_level g ≡ some r)
          × (r.level ≡ g.leader_rank_level))

AllBelow-append :
    (m n : ℕ) (r : GuildRank) (rs : List GuildRank)
    → m ≤ n
    → r.level ≤ n
    → AllBelow m rs
    → AllBelow n (rs ++ r ∷ [])
AllBelow-append m n r [] h k b = (k, tt)
AllBelow-append m n r (s ∷ rs) h k b = (omega arith, AllBelow-append m n r rs h k b.1)

first_rank-append :
    (p : GuildRank → Bool) (rs : List GuildRank) (r s : GuildRank)
    → first_rank p rs ≡ some s
    → first_rank p (rs ++ r ∷ []) ≡ some s
unfolding first_rank
first_rank-append p [] r s e = cc
first_rank-append p (x ∷ rs) r s e = ground (arith, first_rank-append p rs r s)

first_rank-append_self :
    (p : GuildRank → Bool) (rs : List GuildRank) (r : GuildRank)
    → p r ≡ true
    → (s : GuildRank) × (first_rank p (rs ++ r ∷ []) ≡ some s) × (p s ≡ true)
unfolding first_rank
first_rank-append_self p [] r e = (r, rw e refl, e)
first_rank-append_self p (x ∷ rs) r e = elim (Bool-cases (p x)) [
  | inl y ↦ (x, rw y refl, y)
  | inr n ↦ let (s, found, holds) = first_rank-append_self p rs r e in (s, rw n found, holds)
]

add_rank-reached :
    (id : ℕ) (name : List ℕ) (level : ℕ) (g : Guild)
    → IsTop g
    → let g' = add_rank id name level g in
      (g'.leader_rank_level ≡ 0)
      ⊎ ((r : GuildRank) × (get_rank_by_level g'.leader_rank_level g' ≡ some r)
          × (r.level ≡ g'.leader_rank_level))
unfolding add_rank get_rank_by_level
add_rank-reached id name level g h = elim (Bool-cases (ltb g.leader_rank_level level)) [
  | inl higher ↦ rw higher (
      let (s, found, holds) =
        first_rank-append_self (λ r. r.level == level) g.ranks
          (record { id = id; name = name; level = level }) (ground arith) in
      inr (s, found, ground arith))
  | inr lower ↦ rw lower (elim h.reached [
    | inl none_yet ↦ inl none_yet
    | inr (r, found, holds) ↦
        inr (r, first_rank-append (λ s. s.level == g.leader_rank_level) g.ranks _ r found, holds)
  ])
]

add_rank-IsTop :
    (id : ℕ) (name : List ℕ) (level : ℕ) (g : Guild) → IsTop g → IsTop (add_rank id name level g)
add_rank-IsTop id name level g h = record {
  bounds =
      unfold add_rank in
      AllBelow-append g.leader_rank_level _ _ g.ranks (ground arith) (ground arith) h.bounds;
  reached = add_rank-reached id name level g h;
}

add_ranks-IsTop : (rs : List GuildRank) (g : Guild) → IsTop g → IsTop (add_ranks rs g)
unfolding add_ranks
add_ranks-IsTop [] g h = h
add_ranks-IsTop (r ∷ rs) g h = add_ranks-IsTop rs _ (add_rank-IsTop r.id r.name r.level g h)

-- In a guild loaded from the database, whatever its rows, the leader's level bounds the level of
-- every rank, and `getRankByLevel` finds a rank of that level unless it is 0.
pub load_guild-IsTop :
    (id : ℕ) (row : List ℕ × List ℕ) (rs : List GuildRank)
    → (g : Guild) × (load_guild id (some row) rs ≡ some g) × IsTop g
unfolding load_guild create
load_guild-IsTop id (name, motd) rs =
    (_, refl, add_ranks-IsTop rs _ (record { bounds = tt; reached = inl refl }))

abbrev pub online : ℕ → List ℕ → Bool
online p [] = false
online p (m ∷ ms) = if m == p then true else online p ms

online-remove_all :
    (p j : ℕ) (ms : List ℕ) → online j (remove_all p ms) ≡ (if j == p then false else online j ms)
unfolding remove_all
online-remove_all p j [] = ground arith
online-remove_all p j (m ∷ ms) = ground (arith, online-remove_all p j ms)

-- Whoever is removed is no longer online, everyone else stays as he was, and the guild goes away
-- exactly when nobody is left.
pub remove_member-online :
    (p : ℕ) (g : Guild)
    → ((remove_member p g ≡ none) × ((j : ℕ) → j ≢ p → online j g.members_online ≡ false))
      ⊎ ((g' : Guild) × (remove_member p g ≡ some g')
          × (g'.members_online ≢ [])
          × ((j : ℕ)
              → online j g'.members_online ≡ (if j == p then false else online j g.members_online)))
remove_member-online p g = by_rest (remove_all p g.members_online) refl
  where
    by_rest :
        (rest : List ℕ)
        → remove_all p g.members_online ≡ rest
        → ((remove_member p g ≡ none) × ((j : ℕ) → j ≢ p → online j g.members_online ≡ false))
          ⊎ ((g' : Guild) × (remove_member p g ≡ some g')
              × (g'.members_online ≢ [])
              × ((j : ℕ)
                  → online j g'.members_online
                    ≡ (if j == p then false else online j g.members_online)))
    by_rest [] e = inl (
      unfold remove_member in rw (e, remove_member) refl,
      λ j ne. ground (arith, online-remove_all p j g.members_online, ap (online j) e),
    )
    by_rest (m ∷ ms) e = inr (
      record g { members_online = m ∷ ms },
      unfold remove_member in rw (e, remove_member) refl,
      λ c. cc,
      λ j. ap (online j) (sym e) ∙ online-remove_all p j g.members_online,
    )
