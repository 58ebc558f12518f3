-- ===== src/Geometry/Order.antt =====
-- The order of positions.
use xynera_ots.Prelude.{◌≡◌, true, false, arith, ◌↔◌, ◌<◌, ◌⊎◌}
use xynera_ots.Net.Message.{Pos}
use xynera_ots.Geometry.{before, after, same_position}

-- `<` is the lexicographic order by floor, row and column.
pub before_iff :
    (p q : Pos)
    → (before p q ≡ true)
      ↔ ((p.z < q.z) ⊎ ((p.z ≡ q.z) × ((p.y < q.y) ⊎ ((p.y ≡ q.y) × (p.x < q.x)))))
unfolding before
before_iff p q = ground arith

pub before_trans : (p q r : Pos) → before p q ≡ true → before q r ≡ true → before p r ≡ true
unfolding before
before_trans p q r h k = ground arith

-- Of two positions that are not equal, exactly one is before the other; `>` holds of equal ones.
pub before_total :
    (p q : Pos)
    → ((same_position p q ≡ false) ↔ (before p q ≡ true) ⊎ (before q p ≡ true))
      × ((after p q ≡ true) ↔ (before q p ≡ true) ⊎ (same_position p q ≡ true))
unfolding before after
before_total p q = ground arith
