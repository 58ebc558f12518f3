-- ===== src/Net/Protocol/Receive.antt =====
-- Taking a frame apart.
use xynera_ots.Prelude.{
  ℕ, ◌+◌, ◌-◌, ◌*◌, ◌%◌, ◌≤◌, ◌<◌, ◌≡◌, inl, refl, ap, ◌∙◌, true, false, some, List, ◌++◌, ltb, leb,
  ◌==◌, length, arith, replicate,
}
use xynera_ots.Net.Bytes.{to_bytes, of_bytes, length-to_bytes, of_bytes-to_bytes}
use xynera_ots.Net.Buffer.{write_at, read_at, read_at-write_at_outside, write_at_append}
use xynera_ots.Net.Message.{Message, u16, max_size, can_read, get, get_length_header}
use xynera_ots.Net.Xtea.{decrypt}
use xynera_ots.Net.Protocol.{
  Protocol, xtea_decrypt, take_inner, accepted, on_recv_message, take_packet,
}
use xynera_ots.Net.Protocol.Inner.{padding, inner, length-inner, read-written}

pub get_lem :
    (k v : ℕ) (m : Message)
    → m.position + k ≤ m.length + 8
    → m.position + k < 65535
    → of_bytes (read_at m.buffer m.position k) ≡ v
    → get k m ≡ (v, record m { position = m.position + k })
unfolding get can_read
get_lem k v m a b e =
    let ok : can_read m k ≡ true = ground arith in
    let wrap : u16 (m.position + k) ≡ m.position + k = omega arith in
    rw (ok, wrap) (ap (λ w. (w, record m { position = m.position + k })) e)

-- The size in front.
size_read : (g : ℕ → ℕ) (n : ℕ) → read_at g 0 2 ≡ to_bytes 2 n → n < 65536 → g 0 + 256 * g 1 ≡ n
unfolding read_at of_bytes
size_read g n e h =
    let whole : g 0 + 256 * g 1 ≡ of_bytes (read_at g 0 2) = omega arith in
    whole ∙ ap of_bytes e ∙ of_bytes-to_bytes 2 n h

-- The parts of what is decrypted, in the buffer.
module _ (g : ℕ → ℕ) (body : List ℕ) where
  abbrev n : ℕ
  n = length body

  abbrev pad : List ℕ
  pad = replicate (padding (n + 2)) 0x33

  abbrev head : ℕ → ℕ
  head = write_at g 6 (to_bytes 2 n)

  split_inner : write_at g 6 (inner body) ≡ write_at (write_at head 8 body) (8 + n) pad
  split_inner =
      write_at_append g 6 8 (to_bytes 2 n) (body ++ pad) (omega (arith, length-to_bytes 2 n))
      ∙ write_at_append head 8 (8 + n) body pad refl

  inner_front : read_at (write_at g 6 (inner body)) 6 2 ≡ to_bytes 2 n
  inner_front = rw split_inner (
      read_at-write_at_outside (write_at head 8 body) 6 (8 + n) 2 pad (inl (omega arith))
      ∙ read_at-write_at_outside head 6 8 2 body (inl (omega arith))
      ∙ read-written g 6 (to_bytes 2 n) 2 (length-to_bytes 2 n))

  inner_back : read_at (write_at g 6 (inner body)) 8 n ≡ body
  inner_back = rw split_inner (
      read_at-write_at_outside (write_at head 8 body) 8 (8 + n) n pad (inl (omega arith))
      ∙ read-written head 8 body n refl)

module _ (g : ℕ → ℕ) (body out : List ℕ) where
  abbrev total : ℕ
  total = length (inner body)

  module _ (m : Message) (fits : length body ≤ 65510) where
    most : total ≤ 65512
    most = let e = length-inner body in ground arith

    pub take_packet-frame :
        read_at g 0 2 ≡ to_bytes 2 (total + 4)
        → take_packet (record m { buffer = g })
          ≡ some (record m { length = total + 6; position = 6; buffer = g })
    unfolding take_packet get_length_header
    take_packet-frame e =
        let t = most in
        let size = size_read g (total + 4) e (omega arith) in
        let some_bytes : (total + 4 == 0) ≡ false = ground arith in
        let few : leb (max_size - 16) (total + 4) ≡ false = ground arith in
        let wrap : u16 (total + 4 + 2) ≡ total + 6 = omega arith in
        rw (size, some_bytes, few, wrap)
          (ap (λ r. some r.1)
            (get_lem 4 (of_bytes (read_at g 2 4))
              (record m { length = total + 6; position = 2; buffer = g }) (omega arith)
              (omega arith) refl))

    pub on_recv_message-frame :
        (p : Protocol)
        → p.encryption_enabled ≡ true
        → read_at g 6 total ≡ out
        → decrypt out p.key ≡ some (inner body)
        → (h : ℕ → ℕ) × (on_recv_message p
              (record m { length = total + 6; position = 6; buffer = g })
            ≡ some (some (record m { length = length body; position = 8; buffer = h })))
          × (read_at h 8 (length body) ≡ body)
    unfolding on_recv_message xtea_decrypt take_inner
    on_recv_message-frame p enc there plain_text =
        (write_at g 6 (inner body), run, inner_back g body)
      where
        received : Message
        received = record m { length = total + 6; position = 6; buffer = g }

        opened : Message
        opened = record received { buffer = write_at g 6 (inner body) }

        taken :
            take_inner received (some (inner body))
            ≡ some (true, record opened { length = length body; position = 8 })
        taken =
            let t = most in
            let size = length-inner body in
            let field : get 2 opened ≡ (length body, record opened { position = 8 }) =
              get_lem 2 (length body) opened (omega arith) (omega arith) (
                ap of_bytes (inner_front g body)
                ∙ of_bytes-to_bytes 2 (length body) (omega arith)) in
            let enough : ltb (total + 6) (length body + 8) ≡ false = ground arith in
            rw (field, enough) refl

        whole : (total + 6 + 2) % 8 ≡ 0
        whole = let size = length-inner body in ground arith

        decrypted : xtea_decrypt p.key received ≡ take_inner received (some (inner body))
        decrypted =
            let exact : total + 6 - 6 ≡ total = omega arith in
            rw (whole, exact, there, plain_text) refl

        run :
            on_recv_message p received
            ≡ some (
                some (record m {
                  length = length body;
                  position = 8;
                  buffer = write_at g 6 (inner body);
                }))
        run = rw enc (ap accepted (decrypted ∙ taken))
