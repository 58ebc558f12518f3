-- ===== src/Container/Amounts/All.antt =====
-- getAllItemTypeCount counts everything below the container.
use xynera_ots.Prelude.{
  ℕ, ◌+◌, ◌%◌, ◌^◌, ◌<◌, ◌≡◌, refl, Bool, ◌&&◌, ◌||◌, not, List, [], ◌∷◌, ◌==◌, if◌then◌else◌,
  arith,
}
use xynera_ots.Container.Iterator.{Item, Items, item, container, nil, cons, address, pushed}
use xynera_ots.Container.Iterator.Visits.{total, sum, sum-get_items}
use xynera_ots.Container.Amounts.{
  Kind, CountMap, add_count, take_one, take_list, inside, get_all_item_type_count,
}

mutual
  -- The sum over an item and all below it, and over all of a list.
  pub below : (ℕ → ℕ) → Item → ℕ
  below own (item a) = own a
  below own (container a is) = own a + below_all own is

  pub below_all : (ℕ → ℕ) → Items → ℕ
  below_all own nil = 0
  below_all own (cons i is) = below own i + below_all own is

below_inside :
    (own : ℕ → ℕ) (i : Item) (is : Items)
    → below_all own (cons i is)
      ≡ own (address i) + total (below_all own) (pushed i) + below_all own is
unfolding below below_all pushed
below_inside own (item a) is = omega arith
below_inside own (container a nil) is = omega arith
below_inside own (container a (cons j js)) is = omega arith

below_none : (own : ℕ → ℕ) → below_all own nil ≡ 0
unfolding below_all
below_none own = refl

-- What an item of a kind counts for an id and a tier.
pub counted : Bool → ℕ → ℕ → Kind → ℕ
counted skip_tiered id tier k =
    if k.id == id && (k.tier == tier && (not skip_tiered || tier == 0)) then k.item_count else 0

take_one-counted :
    (skip_tiered : Bool) (id tier : ℕ) (k : Kind) (m : CountMap)
    → m id tier < 2 ^ 32
    → take_one skip_tiered k m id tier ≡ (m id tier + counted skip_tiered id tier k) % 2 ^ 32
unfolding take_one add_count counted
take_one-counted skip_tiered id tier k m h = ground arith

take_list-counted :
    (kind : ℕ → Kind) (skip_tiered : Bool) (id tier : ℕ) (bs : List ℕ) (m : CountMap)
    → m id tier < 2 ^ 32
    → take_list kind skip_tiered bs m id tier
      ≡ (m id tier + sum (λ a. counted skip_tiered id tier (kind a)) bs) % 2 ^ 32
unfolding take_list
take_list-counted kind skip_tiered id tier [] m h = omega arith
take_list-counted kind skip_tiered id tier (a ∷ bs) m h =
    let one = take_one-counted skip_tiered id tier (kind a) m h in
    let m' = take_one skip_tiered (kind a) m in
    omega (arith, one, take_list-counted kind skip_tiered id tier bs m' (omega (arith, one)))

inside-below : (own : ℕ → ℕ) (i : Item) → own (address i) + sum own (inside i) ≡ below own i
unfolding inside below
inside-below own (item a) = omega arith
inside-below own (container a is) =
    omega (arith, sum-get_items own (below_all own) (below_none own) (below_inside own) is)

-- For each id and tier, getAllItemTypeCount adds to what the map has the counts of all items of that
-- id and tier that are below the container, at whatever depth, modulo 2 ^ 32; if tiered items are
-- skipped, nothing for a tier other than 0.
pub get_all_item_type_count-counted :
    (kind : ℕ → Kind) (skip_tiered : Bool) (id tier : ℕ) (is : Items) (m : CountMap)
    → m id tier < 2 ^ 32
    → get_all_item_type_count kind skip_tiered is m id tier
      ≡ (m id tier + below_all (λ a. counted skip_tiered id tier (kind a)) is) % 2 ^ 32
unfolding get_all_item_type_count below_all
get_all_item_type_count-counted kind skip_tiered id tier nil m h = omega arith
get_all_item_type_count-counted kind skip_tiered id tier (cons i is) m h =
    let own : ℕ → ℕ = λ a. counted skip_tiered id tier (kind a) in
    let one = take_one-counted skip_tiered id tier (kind (address i)) m h in
    let m1 = take_one skip_tiered (kind (address i)) m in
    let inner = take_list-counted kind skip_tiered id tier (inside i) m1 (omega (arith, one)) in
    let m2 = take_list kind skip_tiered (inside i) m1 in
    let rest =
      get_all_item_type_count-counted kind skip_tiered id tier is m2 (omega (arith, inner)) in
    omega (arith, one, inner, rest, inside-below own i)
