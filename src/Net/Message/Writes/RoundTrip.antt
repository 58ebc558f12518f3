-- ===== src/Net/Message/Writes/RoundTrip.antt =====
-- What was written is read back.
use xynera_ots.Prelude.{
  ℕ, ◌+◌, ◌≤◌, ◌<◌, ◌%◌, ◌≡◌, refl, sym, ap, subst, ◌∙◌, true, false, List, [], ◌∷◌, ◌++◌, map,
  arith, length as size, length-append, take, drop, take-append, drop-append,
}
use xynera_ots.Net.Bytes.{to_bytes, length-to_bytes, byte_range, of_bytes-to_bytes}
use xynera_ots.Net.Buffer.{read_at, read_at_append, read_at-write_at, length-read_at}
use xynera_ots.Net.Message.{
  Message, Pos, reset, get_byte, get, get_chars, get_string, get_position, can_read,
  set_buffer_position, max_size, max_body_length,
}
use xynera_ots.Net.Message.Writes.{
  Item, byte, number, string, place, kind, write_all, read, read_all, bytes, all_bytes, CanSend,
  CanSendAll,
}
use xynera_ots.Net.Message.Writes.Puts.{extend, write_all-extend}

-- The message holds `bs` at its position, within its length and the buffer.
pub record Holds (m : Message) (bs : List ℕ) : Type 0 where
  pub stored : read_at m.buffer m.position (size bs) ≡ bs
  pub within : m.position + size bs ≤ m.length + 8
  pub fits : m.position + size bs < max_size

abbrev advance : ℕ → Message → Message
advance n m = record m { position = m.position + n }

Holds-can_read : (m : Message) (bs : List ℕ) → Holds m bs → can_read m (size bs) ≡ true
unfolding can_read
Holds-can_read m bs h = ground arith

get-Holds :
    (n v : ℕ) (m : Message) → v < byte_range n → Holds m (to_bytes n v) → get n m ≡ (v, advance n m)
unfolding get
get-Holds n v m fit h =
    let size_eq = length-to_bytes n v in
    let readable : can_read m n ≡ true = rw size_eq at (Holds-can_read m (to_bytes n v) h) in
    let stored : read_at m.buffer m.position n ≡ to_bytes n v = rw size_eq at h.stored in
    let wrap : (m.position + n) % 65536 ≡ m.position + n = omega (arith, size_eq) in
    rw (readable, stored, of_bytes-to_bytes n v fit, wrap) refl

get_chars-Holds :
    (s : List ℕ) (m : Message) → Holds m s → get_chars (size s) m ≡ (s, advance (size s) m)
unfolding get_chars
get_chars-Holds s m h =
    let wrap : (m.position + size s) % 65536 ≡ m.position + size s = omega arith in
    rw (Holds-can_read m s h, h.stored, wrap) refl

first_byte : (f : ℕ → ℕ) (p v : ℕ) → read_at f p 1 ≡ v ∷ [] → f p ≡ v
unfolding read_at
first_byte f p v e = ground arith

get_byte-Holds : (v : ℕ) (m : Message) → Holds m (v ∷ []) → get_byte m ≡ (v, advance 1 m)
unfolding get_byte
get_byte-Holds v m h =
    let stored : read_at m.buffer m.position 1 ≡ v ∷ [] = h.stored in
    let wrap : (m.position + 1) % 65536 ≡ m.position + 1 = omega arith in
    rw (Holds-can_read m (v ∷ []) h, wrap)
      (ap (λ b. (b, advance 1 m)) (first_byte m.buffer m.position v stored))

Holds-append :
    (xs ys : List ℕ) (m : Message)
    → Holds m (xs ++ ys)
    → Holds m xs × Holds (advance (size xs) m) ys
Holds-append xs ys m h = (
  record { stored = front; within = omega (arith, e); fits = omega (arith, e) },
  record { stored = back; within = omega (arith, e); fits = omega (arith, e) },
)
  where
    e : size (xs ++ ys) ≡ size xs + size ys
    e = length-append xs ys

    here : List ℕ
    here = read_at m.buffer m.position (size xs)

    there : List ℕ
    there = read_at m.buffer (m.position + size xs) (size ys)

    joined : here ++ there ≡ xs ++ ys
    joined =
        sym (
          read_at_append m.buffer m.position (size xs) (size ys) (m.position + size xs)
            (size (xs ++ ys)) refl e)
        ∙ h.stored

    here_size : size here ≡ size xs
    here_size = length-read_at m.buffer m.position (size xs)

    front : here ≡ xs
    front =
        sym (take-append (size xs) here there here_size)
        ∙ ap (take (size xs)) joined
        ∙ take-append (size xs) xs ys refl

    back : there ≡ ys
    back =
        sym (drop-append (size xs) here there here_size)
        ∙ ap (drop (size xs)) joined
        ∙ drop-append (size xs) xs ys refl

-- The same where the length `k` of the first part is known.
Holds-after :
    (k : ℕ) (xs ys : List ℕ) (m : Message)
    → size xs ≡ k
    → Holds m (xs ++ ys)
    → Holds (advance k m) ys
Holds-after k xs ys m e h = subst (λ n. Holds (advance n m) ys) e (Holds-append xs ys m h).1

advance_add : (a b n : ℕ) (m : Message) → a + b ≡ n → advance b (advance a m) ≡ advance n m
advance_add a b n m e = ap (λ p. record m { position = p }) (omega arith)

get_string-Holds :
    (s : List ℕ) (n : ℕ) (m : Message)
    → size s ≤ 8192
    → 2 + size s ≡ n
    → Holds m (to_bytes 2 (size s) ++ s)
    → get_string 0 m ≡ (s, advance n m)
unfolding get_string
get_string-Holds s n m c e h =
    let head = to_bytes 2 (size s) in
    rw
      (
        get-Holds 2 (size s) m (omega arith) (Holds-append head s m h).0,
        get_chars-Holds s (advance 2 m) (Holds-after 2 head s m (length-to_bytes 2 (size s)) h),
        advance_add 2 (size s) n m e,
      )
      refl

get_position-Holds :
    (p : Pos) (m : Message)
    → (p.x < 65536) × (p.y < 65536) × (p.z < 256)
    → Holds m (to_bytes 2 p.x ++ (to_bytes 2 p.y ++ p.z ∷ []))
    → get_position m ≡ (p, advance 5 m)
unfolding get_position
get_position-Holds p m c h =
    let xs = to_bytes 2 p.x in
    let ys = to_bytes 2 p.y in
    let h1 = Holds-after 2 xs (ys ++ p.z ∷ []) m (length-to_bytes 2 p.x) h in
    let h2 = Holds-after 2 ys (p.z ∷ []) (advance 2 m) (length-to_bytes 2 p.y) h1 in
    rw
      (
        get-Holds 2 p.x m c.0 (Holds-append xs _ m h).0,
        get-Holds 2 p.y (advance 2 m) c.1 (Holds-append ys _ (advance 2 m) h1).0,
        get_byte-Holds p.z (advance 2 (advance 2 m)) h2,
      )
      (ap (λ (k : Message). (p, k))
        (ap (advance 1) (advance_add 2 2 4 m refl) ∙ advance_add 4 1 5 m refl))

read-Holds :
    (i : Item) (m : Message)
    → CanSend i
    → Holds m (bytes i)
    → read (kind i) m ≡ (i, advance (size (bytes i)) m)
unfolding read bytes
read-Holds (byte v) m c h = rw (get_byte-Holds v m h) refl
read-Holds (number n v) m c h = rw (get-Holds n v m c h, length-to_bytes n v) refl
read-Holds (string s) m c h =
    rw
      (get_string-Holds s (size (to_bytes 2 (size s) ++ s)) m c
        (omega (arith, length-append (to_bytes 2 (size s)) s, length-to_bytes 2 (size s))) h)
      refl
read-Holds (place p) m c h =
    let e : size (to_bytes 2 p.x ++ (to_bytes 2 p.y ++ p.z ∷ [])) ≡ 5 = omega (
      arith,
      length-to_bytes 2 p.x,
      length-to_bytes 2 p.y,
      length-append (to_bytes 2 p.x) (to_bytes 2 p.y ++ p.z ∷ []),
      length-append (to_bytes 2 p.y) (p.z ∷ []),
    ) in
    rw (get_position-Holds p m c h, e) refl

read_all-Holds :
    (is : List Item) (m : Message)
    → CanSendAll is
    → Holds m (all_bytes is)
    → read_all (map kind is) m ≡ (is, advance (size (all_bytes is)) m)
unfolding read_all all_bytes
read_all-Holds [] m c h = ap (λ p. ([], record m { position = p })) (omega arith)
read_all-Holds (i ∷ is) m c h =
    let parts = Holds-append (bytes i) (all_bytes is) m h in
    rw
      (
        read-Holds i m c.0 parts.0,
        read_all-Holds is (advance (size (bytes i)) m) c.1 parts.1,
        advance_add (size (bytes i)) (size (all_bytes is)) (size (bytes i ++ all_bytes is)) m
            (sym (length-append (bytes i) (all_bytes is))),
      )
      refl

written-Holds :
    (bs : List ℕ) (m : Message)
    → 8 + size bs < max_body_length
    → Holds (record (extend bs (reset m)) { position = 8 }) bs
unfolding reset
written-Holds bs m h = record {
  stored = read_at-write_at m.buffer 8 bs;
  within = omega arith;
  fits = omega arith;
}

-- Items written to a fresh message that fit it are all read back, in order, from the position
-- where the message starts, and reading ends where writing did.
pub read_all-write_all :
    (is : List Item) (m : Message)
    → CanSendAll is
    → 8 + size (all_bytes is) < max_body_length
    → let sent = write_all is (reset m) in
      (read_all (map kind is) (set_buffer_position 0 sent).1 ≡ (is, sent))
      × (sent.length ≡ size (all_bytes is))
      × (sent.position ≡ 8 + size (all_bytes is))
      × (sent.overrun ≡ false)
unfolding set_buffer_position reset
read_all-write_all is m c h = rw (write_all-extend is (reset m) c (omega arith)) (
  read_all-Holds is (record (extend (all_bytes is) (reset m)) { position = 8 }) c
      (written-Holds (all_bytes is) m h),
  omega arith,
  refl,
  refl,
)
