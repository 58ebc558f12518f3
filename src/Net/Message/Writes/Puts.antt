-- ===== src/Net/Message/Writes/Puts.antt =====
-- Each write that fits is one copy of the item's bytes behind what is there.
use xynera_ots.Prelude.{
  ℕ, ◌+◌, ◌≤◌, ◌<◌, ◌%◌, ◌≡◌, refl, sym, ap, ◌∙◌, Bool, true, false, List, [], ◌∷◌, ◌++◌, arith,
  length as size, length-append, ltb,
}
use mathlib.Core.List.{append_assoc}
use xynera_ots.Net.Bytes.{to_bytes, length-to_bytes}
use xynera_ots.Net.Buffer.{write_at, write_at_append}
use xynera_ots.Net.Message.{
  Message, Pos, add_byte, add, add_string, add_position, can_add, put, max_body_length,
}
use xynera_ots.Net.Message.Writes.{
  Item, byte, number, string, place, write, write_all, bytes, all_bytes, CanSend, CanSendAll,
}

-- `n` more bytes fit.
abbrev pub Room : Message → ℕ → Type 0
Room m n = (n + m.position < max_body_length) × (m.length + n < 65536)

-- The message with `bs` copied in behind the rest.
abbrev pub extend : List ℕ → Message → Message
extend bs m = record m {
  length = m.length + size bs;
  position = m.position + size bs;
  buffer = write_at m.buffer m.position bs;
}

pub message_eq :
    {l l' p p' : ℕ} {o : Bool} {f f' : ℕ → ℕ}
    → l ≡ l'
    → p ≡ p'
    → f ≡ f'
    → ◌≡◌ {A = Message}
        (record { length = l; position = p; overrun = o; buffer = f })
        (record { length = l'; position = p'; overrun = o; buffer = f' })
message_eq {o} el ep ef = λ i. record { length = el i; position = ep i; overrun = o; buffer = ef i }

pub extend_append : (xs ys : List ℕ) (m : Message) → extend ys (extend xs m) ≡ extend (xs ++ ys) m
extend_append xs ys m =
    let e = length-append xs ys in
    message_eq (omega (arith, e)) (omega (arith, e))
      (sym (write_at_append m.buffer m.position (m.position + size xs) xs ys refl))

put-extend : (bs : List ℕ) (n : ℕ) (m : Message) → size bs ≡ n → Room m n → put bs n m ≡ extend bs m
put-extend bs n m e r = message_eq (omega (arith, e)) (omega (arith, e)) refl

Room-can_add : (n : ℕ) (m : Message) → Room m n → can_add m n ≡ true
unfolding can_add
Room-can_add n m r = ground arith

pub add_byte-extend : (v : ℕ) (m : Message) → v < 256 → Room m 1 → add_byte v m ≡ extend (v ∷ []) m
unfolding add_byte
add_byte-extend v m h r =
    let e : v % 256 ≡ v = omega arith in rw (Room-can_add 1 m r, e) (put-extend (v ∷ []) 1 m refl r)

pub add-extend : (n v : ℕ) (m : Message) → Room m n → add n v m ≡ extend (to_bytes n v) m
unfolding add
add-extend n v m r = rw (Room-can_add n m r) (put-extend (to_bytes n v) n m (length-to_bytes n v) r)

-- A write to a message extended by `xs`.
Room-extend : (xs : List ℕ) (n : ℕ) (m : Message) → Room m (size xs + n) → Room (extend xs m) n
Room-extend xs n m r = omega arith

Room-le : (n k : ℕ) (m : Message) → n ≤ k → Room m k → Room m n
Room-le n k m h r = omega arith

add_string-extend :
    (s : List ℕ) (m : Message)
    → size s ≤ 8192
    → Room m (2 + size s)
    → add_string s m ≡ extend (to_bytes 2 (size s) ++ s) m
unfolding add_string
add_string-extend s m h r =
    let small : ltb 8192 (size s) ≡ false = ground arith in
    rw
      (
        Room-can_add (size s + 2) m (Room-le (size s + 2) (2 + size s) m (omega arith) r),
        small,
        add-extend 2 (size s) m (Room-le 2 (2 + size s) m (omega arith) r),
      )
      (put-extend s (size s) (extend (to_bytes 2 (size s)) m) refl
          (omega (arith, length-to_bytes 2 (size s)))
        ∙ extend_append (to_bytes 2 (size s)) s m)

add_position-extend :
    (p : Pos) (m : Message)
    → p.z < 256
    → Room m 5
    → add_position p m ≡ extend (to_bytes 2 p.x ++ (to_bytes 2 p.y ++ p.z ∷ [])) m
unfolding add_position
add_position-extend p m h r =
    let xs = to_bytes 2 p.x in
    let ys = to_bytes 2 p.y in
    let lx = length-to_bytes 2 p.x in
    let ly = length-to_bytes 2 p.y in
    rw
      (
        add-extend 2 p.x m (Room-le 2 5 m (omega arith) r),
        add-extend 2 p.y (extend xs m) (omega (arith, lx)),
        add_byte-extend p.z (extend ys (extend xs m)) h (omega (arith, lx, ly)),
      )
      (ap (extend (p.z ∷ [])) (extend_append xs ys m)
        ∙ extend_append (xs ++ ys) (p.z ∷ []) m
        ∙ ap (λ bs. extend bs m) (append_assoc xs ys (p.z ∷ [])))

pub write-extend :
    (i : Item) (m : Message) → CanSend i → Room m (size (bytes i)) → write i m ≡ extend (bytes i) m
unfolding write bytes
write-extend (byte v) m h r = add_byte-extend v m h r
write-extend (number n v) m h r = add-extend n v m (omega (arith, length-to_bytes n v))
write-extend (string s) m h r =
    add_string-extend s m h
      (omega (arith, length-to_bytes 2 (size s), length-append (to_bytes 2 (size s)) s))
write-extend (place p) m h r = add_position-extend p m h.2 (
    omega (
      arith,
      length-to_bytes 2 p.x,
      length-to_bytes 2 p.y,
      length-append (to_bytes 2 p.x) (to_bytes 2 p.y ++ p.z ∷ []),
      length-append (to_bytes 2 p.y) (p.z ∷ []),
    ))

-- So a sequence of writes that fits copies the bytes of all items, one behind the other.
pub write_all-extend :
    (is : List Item) (m : Message)
    → CanSendAll is
    → Room m (size (all_bytes is))
    → write_all is m ≡ extend (all_bytes is) m
unfolding write_all all_bytes
write_all-extend [] m h r = message_eq (omega arith) (omega arith) (unfold write_at in refl)
write_all-extend (i ∷ is) m h r =
    let e = length-append (bytes i) (all_bytes is) in
    rw
      (
        write-extend i m h.0
            (Room-le (size (bytes i)) (size (bytes i ++ all_bytes is)) m (omega (arith, e)) r),
        write_all-extend is (extend (bytes i) m) h.1 (omega (arith, e)),
      )
      (extend_append (bytes i) (all_bytes is) m)
