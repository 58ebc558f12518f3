-- ===== src/Container/Query/Add/Exact.antt =====
-- When queryAdd of src/container.cpp lets an item in.
use xynera_ots.Prelude.{
  ℕ, ◌≡◌, refl, sym, ap, ◌∙◌, ◌⊎◌, ◌↔◌, inl, inr, Bool, true, false, ◌&&◌, not, Bool-cases, Option,
  ◌==◌, if◌then◌else◌, arith,
}
use xynera_ots.Container.Query.{
  no_error, not_possible, cannot_pickup, this_is_impossible, item_cannot_be_moved_there,
  quiver_ammo_only, Item, of_item, Container, flag_nolimit, flag_childisowner,
  flag_ignorenotpickupable, has_bit_set, in_store_inbox, query_item, query_thing, query_add,
}
use xynera_ots.Container.Query.Guards.{
  go_on, passed, either_error, either, no_test, implied, no_implied, second, no_second,
}
use xynera_ots.Container.Query.Add.{
  Allowed, parents-allowed, allowed-parents, top-allowed, allowed-top, store_test, store-allowed,
  allowed-store, room-allowed, allowed-room, up-allowed, allowed-up,
}

module _ (only_invited : Bool) (c : Container) (index : ℕ) (i : Item) (count flags : ℕ)
    (actor : Option ℕ) where
  item-Allowed :
      (c.unlocked ≡ true) ⊎ ((has_bit_set flag_nolimit flags) ≡ true)
      → query_item only_invited c index i count flags actor ≡ no_error
      → Allowed only_invited c index i count flags actor
  unfolding query_item
  item-Allowed u h =
      let (pick, h1) =
        go_on (not i.pickupable && not (has_bit_set flag_ignorenotpickupable flags)) cannot_pickup _
          refl h in
      let (own, h2) = go_on (i.address == c.self.cylinder_address) this_is_impossible _ refl h1 in
      let (store, h3) =
        go_on (store_test only_invited c index i count flags actor) item_cannot_be_moved_there _
          refl h2 in
      let (quiver, h4) = go_on (c.quiver && not i.ammo) quiver_ammo_only _ refl h3 in
      let (gold, h5) =
        either_error (c.container_store_item && (in_store_inbox c.parents && not c.gold_pouch))
          i.store_item _ h4 in
      let (clear, h6) = up-allowed only_invited c index i count flags actor h5 in
      let (outside, boxes) =
        parents-allowed (has_bit_set flag_nolimit flags) i.address c.parents clear in
      let (space, h7) = room-allowed only_invited c index i count flags actor h6 in
      let (free, answer) = top-allowed only_invited c index i count flags actor h7 in
      record {
        unlocked = u;
        pickupable = either i.pickupable (has_bit_set flag_ignorenotpickupable flags) pick;
        not_itself = λ e. absurd (ground (arith, e, own));
        not_inside = outside;
        store_items = store-allowed only_invited c index i count flags actor store;
        ammo = implied c.quiver i.ammo quiver;
        store_container =
            second c.container_store_item (in_store_inbox c.parents) c.gold_pouch gold;
        no_inbox = boxes;
        room = space;
        invited = free;
        top_allows = answer;
      }

  Allowed-item :
      Allowed only_invited c index i count flags actor
      → query_item only_invited c index i count flags actor ≡ no_error
  unfolding query_item
  Allowed-item h =
      passed (not i.pickupable && not (has_bit_set flag_ignorenotpickupable flags)) cannot_pickup _
        (no_test i.pickupable (has_bit_set flag_ignorenotpickupable flags) h.pickupable)
        (passed (i.address == c.self.cylinder_address) this_is_impossible _
          (elim (Bool-cases (i.address == c.self.cylinder_address)) [
            | inl y ↦ absurd (h.not_itself (ground (arith, y)))
            | inr n ↦ n
          ])
          (passed (store_test only_invited c index i count flags actor) item_cannot_be_moved_there _
            (allowed-store only_invited c index i count flags actor h.store_items)
            (passed (c.quiver && not i.ammo) quiver_ammo_only _ (no_implied c.quiver i.ammo h.ammo)
              (passed (c.container_store_item && (in_store_inbox c.parents && not c.gold_pouch)) _ _
                (no_second c.container_store_item (in_store_inbox c.parents) c.gold_pouch
                  h.store_container)
                (allowed-up only_invited c index i count flags actor
                  (allowed-parents (has_bit_set flag_nolimit flags) i.address c.parents h.not_inside
                    h.no_inbox)
                  (allowed-room only_invited c index i count flags actor h.room (
                    allowed-top only_invited c index i count flags actor h.invited
                      h.top_allows)))))))

-- Asked about an item, not by a container below, queryAdd gives no error just if the item is allowed:
-- the container is unlocked, or the flags lift the limits; the item can be picked up, or the flags do
-- not ask for that; it is not the container and none of what holds it; if it is a store item or holds
-- one, the top parent is a depot chest; a quiver gets ammunition only; a container that is a store item
-- and stands in the store inbox is a gold pouch; none of what holds the container is an inbox, and at
-- INDEX_WHEREEVER there is room or pagination, unless the flags lift the limits; the actor may move
-- things in the top parent's house; and the top parent is the container or allows it itself.
pub query_add_iff :
    (only_invited : Bool) (c : Container) (index : ℕ) (i : Item) (count flags : ℕ)
    → (actor : Option ℕ) → has_bit_set flag_childisowner flags ≡ false
    → (query_add only_invited c index (of_item i) count flags actor ≡ no_error)
      ↔ Allowed only_invited c index i count flags actor
unfolding query_add query_thing
query_add_iff only_invited c index i count flags actor e =
    let lifted = has_bit_set flag_nolimit flags in
    let inner = query_item only_invited c index i count flags actor in
    let locked = not c.unlocked && not lifted in
    let rest = if locked then not_possible else inner in
    let start : query_add only_invited c index (of_item i) count flags actor ≡ rest =
      ap (λ b. if b then no_error else rest) e in
    (
      λ h.
          let (u, on) = go_on locked not_possible inner refl (sym start ∙ h) in
          item-Allowed only_invited c index i count flags actor (either c.unlocked lifted u) on,
      λ h.
          start
          ∙ passed locked not_possible inner (no_test c.unlocked lifted h.unlocked)
              (Allowed-item only_invited c index i count flags actor h),
    )
