-- ===== src/Guild.antt =====
-- The guild in memory: src/guild.h and src/guild.cpp. A player is his number, a name a list of
-- character codes.
pub mod Ranks
mod Tests
use xynera_ots.Prelude.{
  ℕ, Bool, true, false, ◌&&◌, not, Option, none, some, List, [], ◌∷◌, ◌++◌, ltb, ◌==◌,
  if◌then◌else◌,
}

pub record GuildRank : Type 0 where
  pub id : ℕ
  pub name : List ℕ
  pub level : ℕ

pub record Guild : Type 0 where
  pub id : ℕ
  pub name : List ℕ
  pub motd : List ℕ
  pub members_online : List ℕ
  pub ranks : List GuildRank
  pub member_count : ℕ
  pub leader_rank_level : ℕ

pub create : ℕ → List ℕ → Guild
create id name = record {
  id = id;
  name = name;
  motd = [];
  members_online = [];
  ranks = [];
  member_count = 0;
  leader_rank_level = 0;
}

pub add_member : ℕ → Guild → Guild
add_member player g = record g { members_online = g.members_online ++ player ∷ [] }

-- `std::list::remove` takes out every occurrence.
pub remove_all : ℕ → List ℕ → List ℕ
remove_all p [] = []
remove_all p (m ∷ ms) = let rest = remove_all p ms in if m == p then rest else m ∷ rest

-- `none` is the guild removed from the game and deleted.
pub remove_member : ℕ → Guild → Option Guild
unfolding remove_all
remove_member player g = elim (remove_all player g.members_online) [
  | [] ↦ none
  | m ∷ ms ↦ some (record g { members_online = m ∷ ms })
]

same_name : List ℕ → List ℕ → Bool
same_name [] [] = true
same_name (a ∷ xs) (b ∷ ys) = a == b && same_name xs ys
same_name _ _ = false

pub first_rank : (GuildRank → Bool) → List GuildRank → Option GuildRank
first_rank p [] = none
first_rank p (r ∷ rs) = if p r then some r else first_rank p rs

pub get_rank_by_id : ℕ → Guild → Option GuildRank
unfolding first_rank
get_rank_by_id id g = first_rank (λ r. r.id == id) g.ranks

pub get_rank_by_name : List ℕ → Guild → Option GuildRank
unfolding first_rank same_name
get_rank_by_name name g = first_rank (λ r. same_name r.name name) g.ranks

pub get_rank_by_level : ℕ → Guild → Option GuildRank
unfolding first_rank
get_rank_by_level level g = first_rank (λ r. r.level == level) g.ranks

pub add_rank : ℕ → List ℕ → ℕ → Guild → Guild
add_rank id name level g =
    let top = if ltb g.leader_rank_level level then level else g.leader_rank_level in
    record g {
      ranks = g.ranks ++ record { id = id; name = name; level = level } ∷ [];
      leader_rank_level = top;
    }

-- The loop of `loadGuild` over the rows of `guild_ranks`.
pub add_ranks : List GuildRank → Guild → Guild
unfolding add_rank
add_ranks [] g = g
add_ranks (r ∷ rs) g = add_ranks rs (add_rank r.id r.name r.level g)

-- `loadGuild` with the database's answers: the name and motd of the row, and the rank rows.
pub load_guild : ℕ → Option (List ℕ × List ℕ) → List GuildRank → Option Guild
unfolding create add_ranks
load_guild id none rows = none
load_guild id (some (name, motd)) rows =
    some (add_ranks rows (record (create id name) { motd = motd }))
