-- ===== src/Net/Protocol/RoundTrip.antt =====
-- A packet that is sent comes back when it is received with the same key.
use xynera_ots.Prelude.{
  ℕ, ◌+◌, ◌≤◌, ◌<◌, ◌≡◌, ◌≢◌, inr, refl, sym, ap, ◌∙◌, Bool, true, false, some, List, length, arith,
}
use xynera_ots.Net.Bytes.{to_bytes, IsBytes, length-to_bytes}
use xynera_ots.Net.Buffer.{
  write_at, read_at, length-read_at, read_at_same, read_at-write_at_outside,
}
use xynera_ots.Net.Message.{Message}
use xynera_ots.Net.Message.Writes.Puts.{message_eq}
use xynera_ots.Net.Xtea.{decrypt}
use xynera_ots.Net.Xtea.RoundTrip.{decrypt-encrypt}
use xynera_ots.Net.Protocol.{
  disabled, OutputMessage, Protocol, on_send_message, on_recv_message, take_packet,
}
use xynera_ots.Net.Protocol.Inner.{inner, inner-IsBlocks, read-written}
use xynera_ots.Net.Protocol.Frame.{plain, padded, frame, on_send_message-frame}
use xynera_ots.Net.Protocol.Receive.{take_packet-frame, on_recv_message-frame}

-- The bytes that are sent are those at the start of the buffer `g`.
abbrev pub Arrives : OutputMessage → (ℕ → ℕ) → Type 0
Arrives o g = (i : ℕ) → i < o.message.length → g i ≡ o.message.buffer (o.output_buffer_start + i)

-- A frame that arrives is taken apart.
received_frame :
    (f : ℕ → ℕ) (overrun : Bool) (body out : List ℕ) (checksum : ℕ) (g : ℕ → ℕ) (r : Protocol)
    (m : Message)
    → length body ≤ 65510
    → length out ≡ length (inner body)
    → decrypt out r.key ≡ some (inner body)
    → r.encryption_enabled ≡ true
    → Arrives (frame f overrun body out checksum) g
    → (packet : Message) × (h : ℕ → ℕ) × (take_packet (record m { buffer = g }) ≡ some packet)
      × (on_recv_message r packet
          ≡ some (some (record m { length = length body; position = 8; buffer = h })))
      × (read_at h 8 (length body) ≡ body)
received_frame f overrun body out checksum g r m fits size plain_text enc arrives =
    let (h, run, back) = on_recv_message-frame g body out m fits r enc there plain_text in
    (
      record m { length = length (inner body) + 6; position = 6; buffer = g },
      h,
      take_packet-frame g body out m fits front,
      run,
      back,
    )
  where
    T : ℕ
    T = length (inner body)

    cipher : ℕ → ℕ
    cipher = write_at (padded f overrun body).buffer 6 out

    sum : ℕ → ℕ
    sum = write_at cipher 2 (to_bytes 4 checksum)

    sent : ℕ → ℕ
    sent = write_at sum 0 (to_bytes 2 (T + 4))

    same : (p k : ℕ) → p + k ≤ T + 6 → read_at g p k ≡ read_at sent p k
    same p k b =
        read_at_same g sent p k (λ i lo hi. arrives i (omega arith) ∙ ap sent (omega arith))

    front : read_at g 0 2 ≡ to_bytes 2 (T + 4)
    front =
        same 0 2 (omega arith)
        ∙ read-written sum 0 (to_bytes 2 (T + 4)) 2 (length-to_bytes 2 (T + 4))

    there : read_at g 6 T ≡ out
    there =
        same 6 T (omega arith)
        ∙ read_at-write_at_outside sum 6 0 T (to_bytes 2 (T + 4))
            (inr (omega (arith, length-to_bytes 2 (T + 4))))
        ∙ read_at-write_at_outside cipher 6 2 T (to_bytes 4 checksum)
            (inr (omega (arith, length-to_bytes 4 checksum)))
        ∙ read-written (padded f overrun body).buffer 6 out T size

-- An encrypted packet with a checksum or a sequence number, of a body that is small enough to be
-- padded, can be sent. Whoever has the key and receives its bytes gets a message with the same body.
pub on_recv_message-on_send_message :
    (p r : Protocol) (m : Message)
    → p.raw_messages ≡ false
    → p.encryption_enabled ≡ true
    → p.checksum_mode ≢ disabled
    → r.encryption_enabled ≡ true
    → r.key ≡ p.key
    → m.position ≡ 8 + m.length
    → m.length ≤ 65510
    → IsBytes (read_at m.buffer 8 m.length)
    → (o : OutputMessage) × (p' : Protocol) × (on_send_message
          (record { message = m; output_buffer_start = 8 })
          p
        ≡ some (o, p'))
      × ((g : ℕ → ℕ) (c : Message)
          → Arrives o g
          → (packet got : Message) × (take_packet (record c { buffer = g }) ≡ some packet)
            × (on_recv_message r packet ≡ some (some got))
            × (got.length ≡ m.length)
            × (got.position ≡ 8)
            × (read_at got.buffer 8 m.length ≡ read_at m.buffer 8 m.length))
on_recv_message-on_send_message p r m raw enc mode enc' key pos fits bytes =
    let (out, cipher, back, size) =
      decrypt-encrypt p.key (inner body) (inner-IsBlocks body bytes) in
    let (checksum, next, run) =
      on_send_message-frame m.buffer m.overrun body fits' out p raw enc mode there cipher in
    (
      frame m.buffer m.overrun body out checksum,
      record p { sequence_number = next },
      ap (λ k. on_send_message (record { message = k; output_buffer_start = 8 }) p) m_plain ∙ run,
      λ g c arrives.
          let (packet, h, taken, accepted_it, content) =
            received_frame m.buffer m.overrun body out checksum g r c fits' size
              (ap (decrypt out) key ∙ back) enc' arrives in
          (
            packet,
            record c { length = length body; position = 8; buffer = h },
            taken,
            accepted_it,
            len,
            refl,
            ap (read_at h 8) (sym len) ∙ content,
          ),
    )
  where
    body : List ℕ
    body = read_at m.buffer 8 m.length

    len : length body ≡ m.length
    len = length-read_at m.buffer 8 m.length

    fits' : length body ≤ 65510
    fits' = omega (arith, len)

    there : read_at m.buffer 8 (length body) ≡ body
    there = ap (read_at m.buffer 8) len

    m_plain : m ≡ plain m.buffer m.overrun body
    m_plain = message_eq (sym len) (omega (arith, len)) refl
