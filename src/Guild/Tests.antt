-- ===== src/Guild/Tests.antt =====
-- A guild with two ranks and two members online.
use xynera_ots.Prelude.{◌≡◌, refl, none, some, List, [], ◌∷◌}
use xynera_ots.Guild.{Guild, GuildRank, create, add_member, remove_member, load_guild}
use xynera_ots.Guild.Ranks.{IsTop, load_guild-IsTop}

abbrev rows : List GuildRank
rows =
    record { id = 1; name = 76 ∷ []; level = 3 } ∷ record { id = 2; name = 77 ∷ []; level = 1 } ∷ []

load_guild-IsTop_example : (g : Guild) × (load_guild 7 (some (71 ∷ [], [])) rows ≡ some g) × IsTop g
load_guild-IsTop_example = load_guild-IsTop 7 (71 ∷ [], []) rows

last_leaves : remove_member 10 (add_member 10 (create 7 [])) ≡ none
unfolding remove_member add_member create
last_leaves = refl
