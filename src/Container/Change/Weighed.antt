-- ===== src/Container/Change/Weighed.antt =====
-- The weight and the ammunition that a container keeps count of.
use xynera_ots.Prelude.{
  ℕ, zero, suc, ◌+◌, ◌^◌, ◌≡◌, refl, sym, ap, subst, inl, inr, Bool, true, false, ◌&&◌, not,
  Bool-cases, Option, none, some, List, [], ◌∷◌, ◌++◌, map, leb, ◌==◌, if◌then◌else◌, arith,
}
use xynera_ots.Container.Change.{
  Item, Around, Container, u32, negative, item_weight, add_total, update_item_weight,
  internal_add_thing, add_thing, add_item_back, Split, prepend, split_at_address, split_at_index,
  put_at, update_found, update_thing, replace_found, replace_thing, left_of, erase_at, remove_found,
  remove_thing, Change, adds, internal_adds, adds_back, updates, replaces, removes, apply_change,
  apply_changes,
}

abbrev pub sum : (Item → ℕ) → List Item → ℕ
sum f [] = 0
sum f (i ∷ is) = f i + sum f is

sum-append : (f : Item → ℕ) (is js : List Item) → sum f (is ++ js) ≡ sum f is + sum f js
sum-append f [] js = omega arith
sum-append f (i ∷ is) js = omega (arith, sum-append f is js)

-- Each of the containers around weighs what it holds, the innermost of them something of weight `w`.
unfoldable pub AroundWeighed : ℕ → List Around → Type 0
AroundWeighed w [] = Unit
AroundWeighed w (a ∷ as') =
    (a.total ≡ u32 (sum item_weight a.beside + w)) × AroundWeighed (a.own_weight + a.total) as'

-- What a container keeps count of is true, modulo 2 ^ 32, of it and of every container around it.
pub record Weighed (c : Container) : Type 0 where
  pub weight : c.total_weight ≡ u32 (sum item_weight c.itemlist)
  pub ammo : c.ammo_count ≡ u32 (sum (λ i. i.count) c.itemlist)
  pub outer : AroundWeighed (c.this_weight + c.total_weight) c.around

add_total-AroundWeighed :
    (diff w v : ℕ) (as' : List Around)
    → u32 v ≡ u32 (w + diff)
    → AroundWeighed w as'
    → AroundWeighed v (map (add_total diff) as')
unfolding AroundWeighed
add_total-AroundWeighed diff w v [] e h = tt
add_total-AroundWeighed diff w v (a ∷ as') e (here, outer) = (
  omega (arith, e, here),
  add_total-AroundWeighed diff (a.own_weight + a.total) (a.own_weight + u32 (a.total + diff)) as'
      (omega arith) outer,
)

-- What a change of the list has to do to the count.
changed-Weighed :
    (c : Container) (is : List Item) (diff n : ℕ)
    → Weighed c
    → u32 (sum item_weight is) ≡ u32 (sum item_weight c.itemlist + diff)
    → n ≡ u32 (sum (λ i. i.count) is)
    → Weighed (record (update_item_weight diff (record c { itemlist = is })) { ammo_count = n })
changed-Weighed c is diff n h w a = record {
  weight = omega (arith, h.weight, w);
  ammo = a;
  outer =
      add_total-AroundWeighed diff (c.this_weight + c.total_weight)
        (c.this_weight + u32 (c.total_weight + diff)) c.around (omega arith) h.outer;
}

if_both : (b : Bool) (c d : Container) → Weighed c → Weighed d → Weighed (if b then c else d)
if_both true c d h k = h
if_both false c d h k = k

internal_add_thing-Weighed :
    (i : Item) (c : Container) → Weighed c → Weighed (internal_add_thing i c)
unfolding internal_add_thing
internal_add_thing-Weighed i c h =
    changed-Weighed c (i ∷ c.itemlist) (item_weight i) (u32 (c.ammo_count + i.count)) h
      (omega arith) (omega (arith, h.ammo))

add_thing-Weighed :
    (index : ℕ) (i : Item) (c : Container) → Weighed c → Weighed (add_thing index i c)
unfolding add_thing
add_thing-Weighed index i c h =
    if_both (leb (u32 (c.max_size + 2 ^ 31)) (u32 (index + 2 ^ 31))) c (internal_add_thing i c) h
      (internal_add_thing-Weighed i c h)

add_item_back-Weighed : (i : Item) (c : Container) → Weighed c → Weighed (add_item_back i c)
unfolding add_item_back
add_item_back-Weighed i c h =
    let w = sum-append item_weight c.itemlist (i ∷ []) in
    let n = sum-append (λ j. j.count) c.itemlist (i ∷ []) in
    changed-Weighed c (c.itemlist ++ i ∷ []) (item_weight i) (u32 (c.ammo_count + i.count)) h
      (omega (arith, w)) (omega (arith, n, h.ammo))

-- The list is what stands before, at and after the place.
abbrev Splits : List Item → Option Split → Type 0
Splits is none = Unit
Splits is (some s) = is ≡ s.before ++ s.found ∷ s.after

prepend-Splits :
    (i : Item) (is : List Item) (o : Option Split) → Splits is o → Splits (i ∷ is) (prepend i o)
prepend-Splits i is none h = tt
prepend-Splits i is (some s) h = ap (λ js. i ∷ js) h

split_at_address-Splits : (a : ℕ) (is : List Item) → Splits is (split_at_address a is)
unfolding split_at_address
split_at_address-Splits a [] = tt
split_at_address-Splits a (i ∷ is) = elim (Bool-cases (i.address == a)) [
  | inl y ↦
      subst
        (λ b. Splits (i ∷ is) (
          if b
          then some (record { before = []; found = i; after = is })
          else prepend i (split_at_address a is)))
        (sym y) refl
  | inr n ↦
      subst
        (λ b. Splits (i ∷ is) (
          if b
          then some (record { before = []; found = i; after = is })
          else prepend i (split_at_address a is)))
        (sym n) (prepend-Splits i is (split_at_address a is) (split_at_address-Splits a is))
]

split_at_index-Splits : (n : ℕ) (is : List Item) → Splits is (split_at_index n is)
unfolding split_at_index
split_at_index-Splits n [] = tt
split_at_index-Splits zero (i ∷ is) = refl
split_at_index-Splits (suc n) (i ∷ is) =
    prepend-Splits i is (split_at_index n is) (split_at_index-Splits n is)

sum-split :
    (f : Item → ℕ) (is : List Item) (s : Split)
    → is ≡ s.before ++ s.found ∷ s.after
    → sum f is ≡ sum f s.before + f s.found + sum f s.after
sum-split f is s e = omega (arith, ap (sum f) e, sum-append f s.before (s.found ∷ s.after))

put_at-Weighed :
    (count : ℕ) (y : Item) (c : Container) (s : Split)
    → u32 count ≡ u32 y.count
    → Splits c.itemlist (some s)
    → Weighed c
    → Weighed (put_at count y c s)
unfolding put_at
put_at-Weighed count y c s k e h =
    let w = sum-split item_weight c.itemlist s e in
    let n = sum-split (λ j. j.count) c.itemlist s e in
    let w' = sum-append item_weight s.before (y ∷ s.after) in
    let n' = sum-append (λ j. j.count) s.before (y ∷ s.after) in
    changed-Weighed c (s.before ++ y ∷ s.after)
      (u32 (negative (item_weight s.found) + item_weight y))
      (u32 (c.ammo_count + count + negative s.found.count)) h (omega (arith, w, w'))
      (omega (arith, n, n', k, h.ammo))

erase_at-Weighed :
    (c : Container) (s : Split) → Splits c.itemlist (some s) → Weighed c → Weighed (erase_at c s)
unfolding erase_at
erase_at-Weighed c s e h =
    let w = sum-split item_weight c.itemlist s e in
    let n = sum-split (λ j. j.count) c.itemlist s e in
    let w' = sum-append item_weight s.before s.after in
    let n' = sum-append (λ j. j.count) s.before s.after in
    changed-Weighed c (s.before ++ s.after) (negative (item_weight s.found))
      (u32 (c.ammo_count + negative s.found.count)) h (omega (arith, w, w'))
      (omega (arith, n, n', h.ammo))

update_found-Weighed :
    (changed : Item → Item) (count : ℕ) (c : Container) (o : Option Split)
    → ((i : Item) → u32 (changed i).count ≡ u32 count)
    → Splits c.itemlist o
    → Weighed c
    → Weighed (update_found changed count c o)
unfolding update_found
update_found-Weighed changed count c none k e h = h
update_found-Weighed changed count c (some s) k e h =
    put_at-Weighed count (changed s.found) c s (sym (k s.found)) e h

replace_found-Weighed :
    (y : Item) (c : Container) (o : Option Split)
    → Splits c.itemlist o
    → Weighed c
    → Weighed (replace_found y c o)
unfolding replace_found
replace_found-Weighed y c none e h = h
replace_found-Weighed y c (some s) e h = put_at-Weighed y.count y c s refl e h

remove_found-Weighed :
    (count : ℕ) (c : Container) (o : Option Split)
    → Splits c.itemlist o
    → Weighed c
    → Weighed (remove_found count c o)
unfolding remove_found
remove_found-Weighed count c none e h = h
remove_found-Weighed count c (some s) e h =
    let n = left_of s.found.count count in
    let y : Item = record s.found { count = n } in
    if_both (s.found.stackable && not (s.found.count == count)) (put_at n y c s) (erase_at c s)
      (put_at-Weighed n y c s refl e h) (erase_at-Weighed c s e h)

-- An update is given the count that the item has afterwards.
unfoldable pub Counts : Change → Type 0
Counts (adds index i) = Unit
Counts (internal_adds i) = Unit
Counts (adds_back i) = Unit
Counts (updates changed a count) = (i : Item) → u32 (changed i).count ≡ u32 count
Counts (replaces index i) = Unit
Counts (removes a count) = Unit

apply_change-Weighed :
    (x : Change) (c : Container) → Counts x → Weighed c → Weighed (apply_change x c)
unfolding apply_change update_thing replace_thing remove_thing Counts
apply_change-Weighed (adds index i) c k h = add_thing-Weighed index i c h
apply_change-Weighed (internal_adds i) c k h = internal_add_thing-Weighed i c h
apply_change-Weighed (adds_back i) c k h = add_item_back-Weighed i c h
apply_change-Weighed (updates changed a count) c k h =
    update_found-Weighed changed count c (split_at_address a c.itemlist) k
      (split_at_address-Splits a c.itemlist) h
apply_change-Weighed (replaces index i) c k h =
    replace_found-Weighed i c (split_at_index index c.itemlist)
      (split_at_index-Splits index c.itemlist) h
apply_change-Weighed (removes a count) c k h =
    remove_found-Weighed count c (split_at_address a c.itemlist)
      (split_at_address-Splits a c.itemlist) h

unfoldable pub AllCount : List Change → Type 0
AllCount [] = Unit
AllCount (x ∷ xs) = Counts x × AllCount xs

-- Whatever sequence of items is put in, put in its place, changed and taken out, in parts or whole:
-- if the weight and the ammunition that a container keeps count of are those of its items, and the
-- weights of the containers around it those of what they hold, modulo 2 ^ 32, so they are afterwards,
-- where each updateThing is given the count that the item has after it.
pub apply_changes-Weighed :
    (xs : List Change) (c : Container) → AllCount xs → Weighed c → Weighed (apply_changes xs c)
unfolding apply_changes AllCount
apply_changes-Weighed [] c k h = h
apply_changes-Weighed (x ∷ xs) c (k, ks) h =
    apply_changes-Weighed xs (apply_change x c) ks (apply_change-Weighed x c k h)
