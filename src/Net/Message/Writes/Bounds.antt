-- ===== src/Net/Message/Writes/Bounds.antt =====
-- No sequence of writes leaves the buffer, whatever is written.
use xynera_ots.Prelude.{
  ℕ, ◌+◌, ◌≤◌, ◌<◌, ◌%◌, ◌≡◌, refl, ◌∙◌, ◌⊎◌, inl, inr, not, ◌||◌, true, List, [], ◌∷◌, arith,
  length as size, ltb, Bool-cases,
}
use xynera_ots.Net.Bytes.{to_bytes, length-to_bytes}
use xynera_ots.Net.Buffer.{write_at_outside}
use xynera_ots.Net.Message.{
  Message, add_byte, add, add_string, add_position, can_add, put, max_body_length,
}
use xynera_ots.Net.Message.Writes.{Item, byte, number, string, place, write, write_all}

-- The message starts at index 8, is as long as its length says, and ends within the limit.
pub record IsOutgoing (m : Message) : Type 0 where
  pub aligned : m.position ≡ m.length + 8
  pub within : m.position ≤ max_body_length

-- `after` extends `before`: it is well formed, no shorter, and differs from it only between the
-- end of `before` and the limit.
pub record Extends (before after : Message) : Type 0 where
  pub outgoing : IsOutgoing after
  pub grows : before.position ≤ after.position
  pub kept :
      (i : ℕ) → (i < before.position) ⊎ (max_body_length ≤ i) → after.buffer i ≡ before.buffer i

Extends-refl : (m : Message) → IsOutgoing m → Extends m m
Extends-refl m h = record { outgoing = h; grows = omega arith; kept = λ i o. refl }

Extends-trans : (a b c : Message) → Extends a b → Extends b c → Extends a c
Extends-trans a b c h k = record {
  outgoing = k.outgoing;
  grows = omega arith;
  kept = λ i o. k.kept i (omega arith) ∙ h.kept i o;
}

put-Extends :
    (bs : List ℕ) (n : ℕ) (m : Message)
    → size bs ≡ n
    → n + m.position < max_body_length
    → IsOutgoing m
    → Extends m (put bs n m)
put-Extends bs n m e r h = record {
  outgoing = record { aligned = omega arith; within = omega arith };
  grows = omega arith;
  kept = λ i o. write_at_outside m.buffer m.position bs i (omega arith);
}

can_add→lt : (n : ℕ) (m : Message) → can_add m n ≡ true → n + m.position < max_body_length
unfolding can_add
can_add→lt n m h = ground arith

add_byte-Extends : (v : ℕ) (m : Message) → IsOutgoing m → Extends m (add_byte v m)
unfolding add_byte
add_byte-Extends v m h = elim (Bool-cases (can_add m 1)) [
  | inl e ↦ rw e (put-Extends (v % 256 ∷ []) 1 m refl (can_add→lt 1 m e) h)
  | inr e ↦ rw e (Extends-refl m h)
]

add-Extends : (n v : ℕ) (m : Message) → IsOutgoing m → Extends m (add n v m)
unfolding add
add-Extends n v m h = elim (Bool-cases (can_add m n)) [
  | inl e ↦ rw e (put-Extends (to_bytes n v) n m (length-to_bytes n v) (can_add→lt n m e) h)
  | inr e ↦ rw e (Extends-refl m h)
]

add-position-le : (n v : ℕ) (m : Message) → (add n v m).position ≤ m.position + n
unfolding add
add-position-le n v m = ground arith

add_string-Extends : (s : List ℕ) (m : Message) → IsOutgoing m → Extends m (add_string s m)
unfolding add_string
add_string-Extends s m h = elim (Bool-cases (not (can_add m (size s + 2)) || ltb 8192 (size s))) [
  | inl e ↦ rw e (Extends-refl m h)
  | inr e ↦ rw e (
      let head = add-Extends 2 (size s) m h in
      Extends-trans m (add 2 (size s) m) _ head (
        put-Extends s (size s) (add 2 (size s) m) refl
          (omega (arith, add-position-le 2 (size s) m, can_add→lt (size s + 2) m (ground arith)))
          head.outgoing))
]

write-Extends : (i : Item) (m : Message) → IsOutgoing m → Extends m (write i m)
unfolding write
write-Extends (byte v) m h = add_byte-Extends v m h
write-Extends (number n v) m h = add-Extends n v m h
write-Extends (string s) m h = add_string-Extends s m h
write-Extends (place p) m h =
    let x = add-Extends 2 p.x m h in
    let y = add-Extends 2 p.y (add 2 p.x m) x.outgoing in
    let z = add_byte-Extends p.z (add 2 p.y (add 2 p.x m)) y.outgoing in
    unfold add_position in
    Extends-trans m (add 2 p.x m) _ x (Extends-trans (add 2 p.x m) (add 2 p.y (add 2 p.x m)) _ y z)

-- Whatever is written to a well-formed message, it stays well formed, and no byte in front of the
-- old end or from the limit on changes.
pub write_all-Extends : (is : List Item) (m : Message) → IsOutgoing m → Extends m (write_all is m)
unfolding write_all
write_all-Extends [] m h = Extends-refl m h
write_all-Extends (i ∷ is) m h =
    let first = write-Extends i m h in
    Extends-trans m (write i m) _ first (write_all-Extends is (write i m) first.outgoing)
