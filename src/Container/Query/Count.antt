-- ===== src/Container/Query/Count.antt =====
-- queryMaxCount of src/container.cpp: how many of an item a container takes. `equals` is Item::equals.
use xynera_ots.Prelude.{
  ℕ, ◌+◌, ◌-◌, ◌*◌, ◌%◌, ◌^◌, ◌≤◌, ◌<◌, ◌≡◌, ap, ◌↔◌, inl, inr, Bool, true, false, ◌&&◌, ◌||◌, not,
  Bool-cases, Option, none, some, List, [], ◌∷◌, ltb, ◌==◌, if◌then◌else◌, arith,
}
use xynera_ots.Container.Query.{
  ReturnValue, no_error, not_possible, container_not_enough_room, is_no_error, Item, creature,
  of_item, Thing, Container, wherever, flag_nolimit, has_bit_set, size, get_item_by_index,
  query_add,
}
use xynera_ots.Container.Query.Add.{query_add_same}

-- `std::max<int32_t>(capacity() - size(), 0)`.
unfoldable pub free_slots : Container → ℕ
unfolding size
free_slots c =
    let d = (c.max_size + 2 ^ 32 - size c.itemlist % 2 ^ 32) % 2 ^ 32 in
    if ltb d (2 ^ 31) then d else 0

-- The loop's test of an item that is there.
unfoldable pub takes_more : (Item → Item → Bool) → Item → Item → Bool
takes_more equals i x = not (x.address == i.address) && (equals x i && ltb x.count 100)

-- The loop over the items, with `n` and `slotIndex`; `accepts` is queryAdd at an index.
unfoldable pub stack_room : (Item → Item → Bool) → (ℕ → Bool) → Item → ℕ → ℕ → List Item → ℕ
stack_room equals accepts i n slot [] = n
stack_room equals accepts i n slot (x ∷ xs) =
    let same = takes_more equals i x in
    stack_room equals accepts i (if same && accepts slot then (n + (100 - x.count)) % 2 ^ 32 else n)
      (if same then slot + 1 else slot) xs

unfoldable pub room_at : (Item → Item → Bool) → Bool → Item → Option Item → ℕ
room_at equals accepts i none = 0
room_at equals accepts i (some x) =
    if equals i x && (ltb x.count 100 && accepts) then 100 - x.count else 0

pub accepts_at : Bool → Container → Item → ℕ → ℕ → ℕ → Bool
unfolding query_add
accepts_at only_invited c i count flags j =
    is_no_error (query_add only_invited c j (of_item i) count flags none)

-- `n` of the branch for a stackable item.
unfoldable pub stackable_room : Bool → (Item → Item → Bool) → Container → ℕ → Item → ℕ → ℕ → ℕ
unfolding stack_room room_at get_item_by_index accepts_at
stackable_room only_invited equals c index i count flags =
    let accepts = accepts_at only_invited c i count flags in
    if index == wherever
    then stack_room equals accepts i 0 0 c.itemlist
    else room_at equals (accepts index) i (get_item_by_index index c.itemlist)

-- The result and `maxQueryCount`.
unfoldable pub count_item :
    Bool → (Item → Item → Bool) → Container → ℕ → Item → ℕ → ℕ → ReturnValue × ℕ
unfolding free_slots stackable_room has_bit_set
count_item only_invited equals c index i count flags =
    let stacked =
      (free_slots c * 100 + stackable_room only_invited equals c index i count flags) % 2 ^ 32 in
    if has_bit_set flag_nolimit flags || c.pagination
    then (no_error, if ltb 1 count then count else 1)
    else (if i.stackable
        then (if ltb stacked count then container_not_enough_room else no_error, stacked)
        else (if free_slots c == 0 then container_not_enough_room else no_error, free_slots c))

unfoldable pub query_max_count :
    Bool → (Item → Item → Bool) → Container → ℕ → Thing → ℕ → ℕ → ReturnValue × ℕ
unfolding count_item
query_max_count only_invited equals c index (creature a) count flags = (not_possible, 0)
query_max_count only_invited equals c index (of_item i) count flags =
    count_item only_invited equals c index i count flags

-- What the stacks of equal items that are not full can still take.
pub spare : (Item → Item → Bool) → Item → List Item → ℕ
spare equals i [] = 0
spare equals i (x ∷ xs) =
    let rest = spare equals i xs in if takes_more equals i x then 100 - x.count + rest else rest

spare-size :
    (equals : Item → Item → Bool) (i : Item) (xs : List Item) → spare equals i xs ≤ 100 * size xs
unfolding spare size
spare-size equals i [] = omega arith
spare-size equals i (x ∷ xs) =
    let ih = spare-size equals i xs in
    elim (Bool-cases (takes_more equals i x)) [
      | inl same ↦ rw same (omega arith)
      | inr differs ↦ rw differs (omega arith)
    ]

stack_room-spare :
    (equals : Item → Item → Bool) (accepts : ℕ → Bool) (answer : Bool) (i : Item)
    → ((j : ℕ) → j < wherever → accepts j ≡ answer)
    → (n slot : ℕ) (xs : List Item) → (slot + size xs < wherever)
    → (n + spare equals i xs < 2 ^ 32)
    → stack_room equals accepts i n slot xs ≡ n + (if answer then spare equals i xs else 0)
unfolding stack_room spare size
stack_room-spare equals accepts answer i h n slot [] s l = ground arith
stack_room-spare equals accepts false i h n slot (x ∷ xs) s l =
    let here = h slot (omega arith) in
    elim (Bool-cases (takes_more equals i x)) [
      | inl same ↦
          rw (same, here)
            (stack_room-spare equals accepts false i h n (slot + 1) xs (omega arith)
              (ground (arith, l, same)))
      | inr differs ↦ rw differs (
          stack_room-spare equals accepts false i h n slot xs (omega arith)
            (ground (arith, l, differs)))
    ]
stack_room-spare equals accepts true i h n slot (x ∷ xs) s l =
    let here = h slot (omega arith) in
    elim (Bool-cases (takes_more equals i x)) [
      | inl same ↦
          let fits : n + (100 - x.count + spare equals i xs) < 2 ^ 32 = ground (arith, l, same) in
          let e =
            stack_room-spare equals accepts true i h ((n + (100 - x.count)) % 2 ^ 32) (slot + 1) xs
              (omega arith) (omega arith) in
          rw (same, here) (omega (arith, e))
      | inr differs ↦ rw differs (
          stack_room-spare equals accepts true i h n slot xs (omega arith)
            (ground (arith, l, differs)))
    ]

abbrev pub SmallContainer : Container → Type 0
SmallContainer c = (c.max_size < 2 ^ 16) × (size c.itemlist < 2 ^ 16)

-- What queryMaxCount says without a limit lifted, for an item that can be stacked and for one that
-- cannot: the free places at a hundred each, and what the stacks that are there still take if
-- queryAdd would let the item in; or the free places.
pub room_for : Bool → (Item → Item → Bool) → Container → Item → ℕ → ℕ → ℕ
unfolding accepts_at spare
room_for only_invited equals c i count flags =
    let free = c.max_size - size c.itemlist in
    if i.stackable
    then free * 100
      + (if accepts_at only_invited c i count flags 0 then spare equals i c.itemlist else 0)
    else free

accepts_at_same :
    (only_invited : Bool) (c : Container) (i : Item) (count flags j : ℕ)
    → (j < wherever)
    → accepts_at only_invited c i count flags j ≡ accepts_at only_invited c i count flags 0
unfolding accepts_at
accepts_at_same only_invited c i count flags j l =
    ap is_no_error (query_add_same only_invited c j 0 i count flags none l (omega arith))

free_slots_lem : (c : Container) → SmallContainer c → free_slots c ≡ c.max_size - size c.itemlist
unfolding free_slots
free_slots_lem c h = ground arith

count_item-error :
    (only_invited : Bool) (equals : Item → Item → Bool) (c : Container) (i : Item)
    → (count flags : ℕ) → (has_bit_set flag_nolimit flags ≡ false)
    → (c.pagination ≡ false)
    → (let answer = count_item only_invited equals c wherever i count flags in
        (answer.0 ≡ no_error) ↔ ((if i.stackable then count else 1) ≤ answer.1))
unfolding count_item
count_item-error only_invited equals c i count flags e p =
    rw (e, p)
      (elim (Bool-cases i.stackable) [
        | inl s ↦ rw s (λ x. ground arith, λ x. ground arith)
        | inr s ↦ rw s (λ x. ground arith, λ x. ground arith)
      ])

-- The count that queryMaxCount gives for an item at INDEX_WHEREEVER, of a container that has no
-- pagination and asked without FLAG_NOLIMIT, is the room there is; there is no error just if a
-- stackable item has at most that count, and another one has a free place.
pub query_max_count-room :
    (only_invited : Bool) (equals : Item → Item → Bool) (c : Container) (i : Item)
    → (count flags : ℕ) → (has_bit_set flag_nolimit flags ≡ false)
    → (c.pagination ≡ false)
    → SmallContainer c
    → (let answer = query_max_count only_invited equals c wherever (of_item i) count flags in
        (answer.1 ≡ room_for only_invited equals c i count flags)
        × ((answer.0 ≡ no_error)
            ↔ ((if i.stackable then count else 1) ≤ room_for only_invited equals c i count flags)))
unfolding query_max_count count_item stackable_room room_for
query_max_count-room only_invited equals c i count flags e p h =
    let free = free_slots_lem c h in
    let answer = accepts_at only_invited c i count flags 0 in
    let n =
      stack_room-spare equals (accepts_at only_invited c i count flags) answer i
        (λ j l. accepts_at_same only_invited c i count flags j l) 0 0 c.itemlist (omega arith)
        (omega (arith, spare-size equals i c.itemlist)) in
    let b = spare-size equals i c.itemlist in
    let (allows, needs) = count_item-error only_invited equals c i count flags e p in
    let amount : (count_item only_invited equals c wherever i count flags).1
        ≡ room_for only_invited equals c i count flags =
      ground (arith, n, free, e, p, b, h) in
    (amount, (λ x. omega (arith, allows x, amount), λ x. needs (omega (arith, x, amount))))
