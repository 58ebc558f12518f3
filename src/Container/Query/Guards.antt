-- ===== src/Container/Query/Guards.antt =====
-- The tests of the queries of src/container.cpp that end them with an error.
use xynera_ots.Prelude.{◌≡◌, refl, ◌⊎◌, inl, inr, Bool, true, false, ◌&&◌, ◌||◌, not, if◌then◌else◌}
use xynera_ots.Container.Query.{
  ReturnValue, other, not_moveable, no_error, not_possible, cannot_pickup, this_is_impossible,
  item_cannot_be_moved_there, quiver_ammo_only, cannot_move_item_is_not_store_item,
  player_is_not_invited, container_not_enough_room, is_no_error,
}

-- A test gives no error just if it fails and the rest gives none.
pub go_on :
    (b : Bool) (e : ReturnValue) (rest : ReturnValue)
    → is_no_error e ≡ false
    → (if b then e else rest) ≡ no_error
    → (b ≡ false) × (rest ≡ no_error)
go_on true e rest h t = absurd cc
go_on false e rest h t = (refl, t)

pub passed :
    (b : Bool) (e : ReturnValue) (rest : ReturnValue)
    → b ≡ false
    → rest ≡ no_error
    → (if b then e else rest) ≡ no_error
passed true e rest f h = absurd cc
passed false e rest f h = h

-- A test with one of two errors.
pub either_error :
    (b s : Bool) (rest : ReturnValue)
    → (if b
        then (if s then item_cannot_be_moved_there else cannot_move_item_is_not_store_item)
        else rest)
      ≡ no_error
    → (b ≡ false) × (rest ≡ no_error)
either_error true true rest h = absurd cc
either_error true false rest h = absurd cc
either_error false s rest h = (refl, h)

pub true-false : true ≡ false → ⊥
true-false e = cc

-- The tests, as sums.
pub either : (a b : Bool) → (not a && not b) ≡ false → (a ≡ true) ⊎ (b ≡ true)
either true b e = inl refl
either false true e = inr refl
either false false e = absurd cc

pub no_test : (a b : Bool) → (a ≡ true) ⊎ (b ≡ true) → (not a && not b) ≡ false
no_test true b s = refl
no_test false true s = refl
no_test false false (inl e) = absurd cc
no_test false false (inr e) = absurd cc

pub implied : (a b : Bool) → (a && not b) ≡ false → (a ≡ false) ⊎ (b ≡ true)
implied false b e = inl refl
implied true true e = inr refl
implied true false e = absurd cc

pub no_implied : (a b : Bool) → (a ≡ false) ⊎ (b ≡ true) → (a && not b) ≡ false
no_implied false b s = refl
no_implied true true s = refl
no_implied true false (inl e) = absurd cc
no_implied true false (inr e) = absurd cc

pub neither : (a b : Bool) → (a || b) ≡ false → (a ≡ false) × (b ≡ false)
neither true b e = absurd cc
neither false b e = (refl, e)

pub second : (a b c : Bool) → (a && (b && not c)) ≡ false → (a ≡ false) ⊎ ((b ≡ false) ⊎ (c ≡ true))
second false b c e = inl refl
second true b c e = inr (implied b c e)

pub no_second :
    (a b c : Bool) → (a ≡ false) ⊎ ((b ≡ false) ⊎ (c ≡ true)) → (a && (b && not c)) ≡ false
no_second false b c s = refl
no_second true b c (inl e) = absurd cc
no_second true b c (inr s) = no_implied b c s

pub no_error_lem : (r : ReturnValue) → r ≡ no_error → is_no_error r ≡ true
no_error_lem r h = cc

pub is_no_error_lem : (r : ReturnValue) → is_no_error r ≡ true → r ≡ no_error
is_no_error_lem no_error h = refl
is_no_error_lem not_possible h = absurd cc
is_no_error_lem player_is_not_invited h = absurd cc
is_no_error_lem not_moveable h = absurd cc
is_no_error_lem container_not_enough_room h = absurd cc
is_no_error_lem cannot_pickup h = absurd cc
is_no_error_lem this_is_impossible h = absurd cc
is_no_error_lem cannot_move_item_is_not_store_item h = absurd cc
is_no_error_lem item_cannot_be_moved_there h = absurd cc
is_no_error_lem quiver_ammo_only h = absurd cc
is_no_error_lem (other n) h = absurd cc
