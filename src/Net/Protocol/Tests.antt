-- ===== src/Net/Protocol/Tests.antt =====
-- A packet of three bytes, sent and received, and one that is too long to be padded.
use xynera_ots.Prelude.{ℕ, ◌+◌, ◌≡◌, refl, true, false, arith, some, replicate}
use xynera_ots.Net.Bytes.{IsBytes}
use xynera_ots.Net.Buffer.{read_at}
use xynera_ots.Net.Message.{Message, add_padding_bytes, can_add}
use xynera_ots.Net.Protocol.{
  adler, OutputMessage, Protocol, on_send_message, on_recv_message, take_packet,
}
use xynera_ots.Net.Protocol.RoundTrip.{Arrives, on_recv_message-on_send_message}

abbrev three : Message
three = record { length = 3; position = 11; overrun = false; buffer = λ i. i }

abbrev game : Protocol
game = record {
  key = replicate 64 0x1234;
  sequence_number = 0;
  encryption_enabled = true;
  checksum_mode = adler;
  raw_messages = false;
}

three-IsBytes : IsBytes (read_at three.buffer 8 3)
unfolding read_at
three-IsBytes = omega arith

-- The largest body that `getOutputBuffer` lets through gets no padding.
no_padding :
    add_padding_bytes 7 (record three { length = 65513; position = 8 + 65511 })
    ≡ record three { length = 65513; position = 8 + 65511 }
unfolding add_padding_bytes can_add
no_padding = refl

on_recv_message-on_send_message_example :
    (o : OutputMessage) × (p' : Protocol) × (on_send_message
        (record { message = three; output_buffer_start = 8 })
        game
      ≡ some (o, p'))
    × ((g : ℕ → ℕ) (c : Message)
        → Arrives o g
        → (packet got : Message) × (take_packet (record c { buffer = g }) ≡ some packet)
          × (on_recv_message game packet ≡ some (some got))
          × (got.length ≡ 3)
          × (got.position ≡ 8)
          × (read_at got.buffer 8 3 ≡ read_at three.buffer 8 3))
on_recv_message-on_send_message_example =
    on_recv_message-on_send_message game game three refl refl (λ e. cc) refl refl refl (omega arith)
      three-IsBytes
