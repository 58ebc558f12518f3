-- ===== src/Net/Protocol.antt =====
-- The framing of packets: OutputMessage of src/outputmessage.h, Protocol of src/protocol.h and
-- src/protocol.cpp, and the part of src/connection.cpp that takes a packet off the wire. `none` is
-- what Net/Xtea means by it: the cipher would leave the buffer.
pub mod Inner
pub mod Frame
pub mod Receive
pub mod RoundTrip
mod Tests
use xynera_ots.Prelude.{
  ℕ, ◌+◌, ◌-◌, ◌%◌, ◌^◌, Bool, true, false, ◌||◌, not, Option, none, some, List, ltb, leb, ◌==◌,
  if◌then◌else◌,
}
use xynera_ots.Net.Bytes.{to_bytes}
use xynera_ots.Net.Buffer.{write_at, read_at}
use xynera_ots.Net.Checksum.{adler_checksum}
use xynera_ots.Net.Message.{Message, u16, max_size, get, get_length_header, add_padding_bytes}
use xynera_ots.Net.Xtea.{encrypt, decrypt}

pub data ChecksumMode : Type 0 where
  disabled adler sequence : ChecksumMode

pub record OutputMessage : Type 0 where
  pub message : Message
  pub output_buffer_start : ℕ

pub record Protocol : Type 0 where
  pub key : List ℕ
  pub sequence_number : ℕ
  pub encryption_enabled : Bool
  pub checksum_mode : ChecksumMode
  pub raw_messages : Bool

-- `n` is `sizeof(T)`.
unfoldable pub add_header : ℕ → ℕ → OutputMessage → OutputMessage
add_header n v o =
    let start = u16 (o.output_buffer_start + 2 ^ 16 - n) in
    record {
      message = record o.message {
        length = u16 (o.message.length + n);
        buffer = write_at o.message.buffer start (to_bytes n v);
      };
      output_buffer_start = start;
    }

unfoldable pub write_message_length : OutputMessage → OutputMessage
unfolding add_header
write_message_length o = add_header 2 o.message.length o

abbrev pub output : OutputMessage → List ℕ
output o = read_at o.message.buffer o.output_buffer_start o.message.length

-- The message, and the sequence number afterwards.
unfoldable pub add_crypto_header : ChecksumMode → ℕ → OutputMessage → OutputMessage × ℕ
unfolding add_header write_message_length
add_crypto_header disabled n o = (write_message_length o, n)
add_crypto_header adler n o = (write_message_length (add_header 4 (adler_checksum (output o)) o), n)
add_crypto_header sequence n o = (write_message_length (add_header 4 n o), (n + 1) % 2 ^ 32)

-- `append` of another message's body.
pub append : Message → OutputMessage → OutputMessage
append other o =
    let m = o.message in
    record o {
      message = record m {
        length = u16 (m.length + other.length);
        position = u16 (m.position + other.length);
        buffer = write_at m.buffer m.position (read_at other.buffer 8 other.length);
      };
    }

-- The part of XTEA_encrypt behind the padding.
unfoldable pub store_output : ℕ → Message → Option (List ℕ) → Option OutputMessage
store_output start m none = none
store_output start m (some out) = some (record {
  message = record m { buffer = write_at m.buffer start out };
  output_buffer_start = start;
})

unfoldable pub encrypt_output : List ℕ → ℕ → Message → Option OutputMessage
unfolding store_output
encrypt_output key start m = store_output start m (encrypt (read_at m.buffer start m.length) key)

unfoldable pub xtea_encrypt : List ℕ → OutputMessage → Option OutputMessage
unfolding add_padding_bytes encrypt_output
xtea_encrypt key o =
    let padding = o.message.length % 8 in
    encrypt_output key o.output_buffer_start
      (if padding == 0 then o.message else add_padding_bytes (8 - padding) o.message)

-- The part of XTEA_decrypt behind the cipher.
unfoldable pub take_inner : Message → Option (List ℕ) → Option (Bool × Message)
take_inner m none = none
take_inner m (some out) =
    let (inner_length, m') = get 2 (record m { buffer = write_at m.buffer m.position out }) in
    if ltb m.length (inner_length + 8)
    then some (false, m')
    else some (true, record m' { length = inner_length })

-- The result and the message. A length below 6 has the remainder of its two's complement.
unfoldable pub xtea_decrypt : List ℕ → Message → Option (Bool × Message)
unfolding take_inner
xtea_decrypt key m =
    if not ((m.length + 2) % 8 == 0)
    then some (false, m)
    else take_inner m (decrypt (read_at m.buffer m.position (m.length - 6)) key)

unfoldable pub add_headers : Protocol → Option OutputMessage → Option (OutputMessage × Protocol)
unfolding add_crypto_header
add_headers p none = none
add_headers p (some o) =
    let (sent, n) = add_crypto_header p.checksum_mode p.sequence_number o in
    some (sent, record p { sequence_number = n })

unfoldable pub on_send_message : OutputMessage → Protocol → Option (OutputMessage × Protocol)
unfolding write_message_length xtea_encrypt add_headers
on_send_message o p =
    if p.raw_messages
    then some (o, p)
    else (if p.encryption_enabled
        then add_headers p (xtea_encrypt p.key (write_message_length o))
        else some (write_message_length o, p))

abbrev pub accepted : Option (Bool × Message) → Option (Option Message)
accepted none = none
accepted (some (ok, m)) = if ok then some (some m) else some none

-- What `parsePacket` gets, if the message comes that far.
unfoldable pub on_recv_message : Protocol → Message → Option (Option Message)
unfolding xtea_decrypt
on_recv_message p m =
    if p.encryption_enabled then accepted (xtea_decrypt p.key m) else some (some m)

-- The start of `parsePacket`: the first four bytes are passed over.
abbrev pub pass_checksum : Message → Message
pass_checksum m = (get 4 m).1

-- `parseHeader` from the size on, with `parsePacket` when the bytes are there. The buffer holds the two bytes of
-- the header and then those that the socket gives. `none` closes the connection.
unfoldable pub take_packet : Message → Option Message
unfolding get_length_header get
take_packet m =
    let size = get_length_header m in
    if size == 0 || leb (max_size - 16) size
    then none
    else some (pass_checksum (record m { length = u16 (size + 2); position = 2 }))

-- `getOutputBuffer`: whether the buffer that is there must be sent first.
pub is_full : Message → ℕ → Bool
is_full m size = ltb (0xFFFF - 2 - 4 - 8 - 10) (m.length + size)
