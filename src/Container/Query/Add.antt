-- ===== src/Container/Query/Add.antt =====
-- What queryAdd of src/container.cpp asks for, and its parts.
pub mod Exact
use xynera_ots.Prelude.{
  ℕ, ◌<◌, ◌≡◌, ◌≢◌, refl, sym, ap, ◌∙◌, subst, ◌⊎◌, ◌↔◌, inl, inr, Bool, true, false, ◌&&◌, ◌||◌,
  not, Bool-cases, Option, List, [], ◌∷◌, leb, ◌==◌, if◌then◌else◌, arith,
}
use xynera_ots.Container.Query.{
  ReturnValue, other, not_moveable, no_error, not_possible, cannot_pickup, this_is_impossible,
  item_cannot_be_moved_there, quiver_ammo_only, cannot_move_item_is_not_store_item,
  player_is_not_invited, container_not_enough_room, is_no_error, Item, of_item, Cylinder, Container,
  wherever, flag_nolimit, flag_childisowner, flag_ignorenotpickupable, has_bit_set, size,
  with_child, is_barred, get_top_parent, in_store_inbox, query_parents, query_top, query_room,
  query_up, query_item, query_thing, query_add,
}
use xynera_ots.Container.Query.Guards.{
  go_on, passed, either_error, either, no_test, implied, no_implied, neither, second, no_second,
  no_error_lem, is_no_error_lem, true-false,
}

-- No cylinder of the list is at the address.
unfoldable pub Outside : ℕ → List Cylinder → Type 0
Outside a [] = Unit
Outside a (p ∷ ps) = (p.cylinder_address ≢ a) × Outside a ps

-- No cylinder of the list is an inbox.
unfoldable pub NoInbox : List Cylinder → Type 0
NoInbox [] = Unit
NoInbox (p ∷ ps) = (p.inbox ≡ false) × NoInbox ps

-- The item may be put into the container at the index.
pub record Allowed (only_invited : Bool) (c : Container) (index : ℕ) (i : Item) (count flags : ℕ)
    (actor : Option ℕ) : Type 0 where
  pub unlocked : (c.unlocked ≡ true) ⊎ (has_bit_set flag_nolimit flags ≡ true)
  pub pickupable : (i.pickupable ≡ true) ⊎ (has_bit_set flag_ignorenotpickupable flags ≡ true)
  pub not_itself : i.address ≢ c.self.cylinder_address
  pub not_inside : Outside i.address c.parents
  pub store_items :
      ((i.store_item ≡ false) × (i.holds_store_items ≡ false))
      ⊎ ((get_top_parent c).depot_chest ≡ true)
  pub ammo : (c.quiver ≡ false) ⊎ (i.ammo ≡ true)
  pub store_container :
      (c.container_store_item ≡ false)
      ⊎ ((in_store_inbox c.parents ≡ false) ⊎ (c.gold_pouch ≡ true))
  pub no_inbox : (has_bit_set flag_nolimit flags ≡ true) ⊎ NoInbox c.parents
  pub room :
      (has_bit_set flag_nolimit flags ≡ true)
      ⊎ ((index ≢ wherever) ⊎ ((size c.itemlist < c.max_size) ⊎ (c.pagination ≡ true)))
  pub invited : is_barred only_invited actor (get_top_parent c) ≡ false
  pub top_allows :
      ((get_top_parent c).cylinder_address ≡ c.self.cylinder_address)
      ⊎ ((get_top_parent c).query_add_there i count (with_child flags) actor ≡ no_error)

-- The loops through the parents.
pub parents-allowed :
    (nolimit : Bool) (a : ℕ) (ps : List Cylinder)
    → query_parents nolimit a ps ≡ no_error
    → Outside a ps × ((nolimit ≡ true) ⊎ NoInbox ps)
unfolding query_parents Outside NoInbox
parents-allowed nolimit a [] h = (tt, inr tt)
parents-allowed nolimit a (p ∷ ps) h =
    let (apart, on) = go_on (p.cylinder_address == a) this_is_impossible _ refl h in
    let (open_box, rest) = go_on (not nolimit && p.inbox) container_not_enough_room _ refl on in
    let (outside, boxes) = parents-allowed nolimit a ps rest in
    (
      (λ e. absurd (ground (arith, e, apart)), outside),
      elim boxes [
        | inl n ↦ inl n
        | inr f ↦ elim (Bool-cases nolimit) [
          | inl n ↦ inl n
          | inr l ↦ inr (ground (arith, open_box, l), f)
        ]
      ],
    )

pub allowed-parents :
    (nolimit : Bool) (a : ℕ) (ps : List Cylinder)
    → Outside a ps
    → (nolimit ≡ true) ⊎ NoInbox ps
    → query_parents nolimit a ps ≡ no_error
unfolding query_parents Outside NoInbox
allowed-parents nolimit a [] o b = refl
allowed-parents nolimit a (p ∷ ps) (f, o) (inl n) =
    passed (p.cylinder_address == a) this_is_impossible _
      (elim (Bool-cases (p.cylinder_address == a)) [
        | inl y ↦ absurd (f (ground (arith, y)))
        | inr m ↦ m
      ])
      (passed (not nolimit && p.inbox) container_not_enough_room _ (ground (arith, n))
        (allowed-parents nolimit a ps o (inl n)))
allowed-parents nolimit a (p ∷ ps) (f, o) (inr (q, b)) =
    passed (p.cylinder_address == a) this_is_impossible _
      (elim (Bool-cases (p.cylinder_address == a)) [
        | inl y ↦ absurd (f (ground (arith, y)))
        | inr m ↦ m
      ])
      (passed (not nolimit && p.inbox) container_not_enough_room _ (ground (arith, q))
        (allowed-parents nolimit a ps o (inr b)))

-- The item and the container of the section, asked at an index.
module _ (only_invited : Bool) (c : Container) (index : ℕ) (i : Item) (count flags : ℕ)
    (actor : Option ℕ) where
  abbrev nolimit : Bool
  nolimit = has_bit_set flag_nolimit flags

  abbrev top : Cylinder
  top = get_top_parent c

  pub top-allowed :
      query_top only_invited c i count flags actor ≡ no_error
      → (is_barred only_invited actor top ≡ false)
        × ((top.cylinder_address ≡ c.self.cylinder_address)
            ⊎ (top.query_add_there i count (with_child flags) actor ≡ no_error))
  unfolding query_top
  top-allowed h =
      let answer = top.query_add_there i count (with_child flags) actor in
      let (free, on) = go_on (is_barred only_invited actor top) player_is_not_invited _ refl h in
      (
        free,
        elim (Bool-cases (top.cylinder_address == c.self.cylinder_address)) [
          | inl y ↦ inl (ground (arith, y))
          | inr n ↦ inr (sym (ap (λ b. if not b then answer else no_error) n) ∙ on)
        ],
      )

  pub allowed-top :
      is_barred only_invited actor top ≡ false
      → (top.cylinder_address ≡ c.self.cylinder_address)
        ⊎ (top.query_add_there i count (with_child flags) actor ≡ no_error)
      → query_top only_invited c i count flags actor ≡ no_error
  unfolding query_top
  allowed-top free s =
      let answer = top.query_add_there i count (with_child flags) actor in
      let own = top.cylinder_address == c.self.cylinder_address in
      passed (is_barred only_invited actor top) player_is_not_invited _ free (elim s [
        | inl e ↦
            let y : own ≡ true = ground (arith, e) in ap (λ b. if not b then answer else no_error) y
        | inr e ↦ elim (Bool-cases own) [
          | inl y ↦ ap (λ b. if not b then answer else no_error) y
          | inr n ↦ ap (λ b. if not b then answer else no_error) n ∙ e
        ]
      ])

  abbrev Room : Type 0
  Room =
      (nolimit ≡ true)
      ⊎ ((index ≢ wherever) ⊎ ((size c.itemlist < c.max_size) ⊎ (c.pagination ≡ true)))

  abbrev is_full : Bool
  is_full =
      not nolimit && (index == wherever && (leb c.max_size (size c.itemlist) && not c.pagination))

  full-Room : is_full ≡ false → Room
  full-Room f = elim (Bool-cases nolimit) [
    | inl y ↦ inl y
    | inr l ↦ elim (Bool-cases (index == wherever)) [
      | inr n ↦ inr (inl (λ e. absurd (ground (arith, n, e))))
      | inl w ↦ elim (Bool-cases (leb c.max_size (size c.itemlist))) [
        | inr n ↦ inr (inr (inl (ground (arith, n))))
        | inl g ↦ elim (Bool-cases c.pagination) [
          | inl p ↦ inr (inr (inr p))
          | inr q ↦ absurd (ground (arith, f, l, w, g, q))
        ]
      ]
    ]
  ]

  Room-full : Room → is_full ≡ false
  Room-full (inl y) = ground (arith, y)
  Room-full (inr (inl n)) = elim (Bool-cases (index == wherever)) [
    | inl w ↦ absurd (n (ground (arith, w)))
    | inr w ↦ ground (arith, w)
  ]
  Room-full (inr (inr (inl l))) = ground (arith, l)
  Room-full (inr (inr (inr p))) = ground (arith, p)

  pub room-allowed :
      query_room only_invited c index i count flags actor ≡ no_error
      → Room × (query_top only_invited c i count flags actor ≡ no_error)
  unfolding query_room
  room-allowed h =
      let (f, on) = go_on is_full container_not_enough_room _ refl h in (full-Room f, on)

  pub allowed-room :
      Room
      → query_top only_invited c i count flags actor ≡ no_error
      → query_room only_invited c index i count flags actor ≡ no_error
  unfolding query_room
  allowed-room r h = passed is_full container_not_enough_room _ (Room-full r) h

  pub up-allowed :
      query_up only_invited c index i count flags actor ≡ no_error
      → (query_parents nolimit i.address c.parents ≡ no_error)
        × (query_room only_invited c index i count flags actor ≡ no_error)
  unfolding query_up
  up-allowed h =
      let found = query_parents nolimit i.address c.parents in
      let r = query_room only_invited c index i count flags actor in
      elim (Bool-cases (is_no_error found)) [
        | inl y ↦ (is_no_error_lem found y, sym (ap (λ b. if b then r else found) y) ∙ h)
        | inr n ↦
            let e = sym (ap (λ b. if b then r else found) n) ∙ h in
            absurd (true-false (sym (no_error_lem found e) ∙ n))
      ]

  pub allowed-up :
      query_parents nolimit i.address c.parents ≡ no_error
      → query_room only_invited c index i count flags actor ≡ no_error
      → query_up only_invited c index i count flags actor ≡ no_error
  unfolding query_up
  allowed-up e h =
      let found = query_parents nolimit i.address c.parents in
      let r = query_room only_invited c index i count flags actor in
      ap (λ b. if b then r else found) (no_error_lem found e) ∙ h

  abbrev pub store_test : Bool
  store_test = (i.store_item || i.holds_store_items) && not top.depot_chest

  pub store-allowed :
      store_test ≡ false
      → ((i.store_item ≡ false) × (i.holds_store_items ≡ false)) ⊎ (top.depot_chest ≡ true)
  store-allowed e = elim (implied (i.store_item || i.holds_store_items) top.depot_chest e) [
    | inl n ↦ inl (neither i.store_item i.holds_store_items n)
    | inr d ↦ inr d
  ]

  pub allowed-store :
      ((i.store_item ≡ false) × (i.holds_store_items ≡ false)) ⊎ (top.depot_chest ≡ true)
      → store_test ≡ false
  allowed-store (inl (a, b)) =
      no_implied (i.store_item || i.holds_store_items) top.depot_chest (inl (ground (arith, a, b)))
  allowed-store (inr d) = no_implied (i.store_item || i.holds_store_items) top.depot_chest (inr d)

-- With another index than INDEX_WHEREEVER the answer is the same for every index.
pub query_add_same :
    (only_invited : Bool) (c : Container) (j k : ℕ) (i : Item) (count flags : ℕ)
    → (actor : Option ℕ) → (j < wherever)
    → (k < wherever)
    → query_add only_invited c j (of_item i) count flags actor
      ≡ query_add only_invited c k (of_item i) count flags actor
unfolding query_add query_thing query_item query_up query_room
query_add_same only_invited c j k i count flags actor g h =
    let ej : (j == wherever) ≡ false = ground arith in
    let ek : (k == wherever) ≡ false = ground arith in rw (ej, ek) refl
