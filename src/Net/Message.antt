-- ===== src/Net/Message.antt =====
-- NetworkMessage of src/networkmessage.h and src/networkmessage.cpp. `MsgSize_t` is a uint16_t,
-- so lengths and positions wrap at 65536. Numbers of a signed type are their bit patterns.
pub mod Writes
use xynera_ots.Prelude.{
  ℕ, ◌+◌, ◌-◌, ◌*◌, ◌%◌, ◌^◌, Bool, true, false, ◌&&◌, ◌||◌, not, List, [], ◌∷◌, ltb, leb, ◌==◌,
  if◌then◌else◌, length as size, replicate,
}
use xynera_ots.Net.Bytes.{to_bytes, of_bytes}
use xynera_ots.Net.Buffer.{update, write_at, read_at}

abbrev pub max_size : ℕ
max_size = 0xFFFF

abbrev pub initial_position : ℕ
initial_position = 8

-- NETWORKMESSAGE_MAXSIZE - HEADER_LENGTH - CHECKSUM_LENGTH - XTEA_MULTIPLE.
abbrev pub max_body_length : ℕ
max_body_length = 0xFFFF - 2 - 4 - 8

abbrev pub u16 : ℕ → ℕ
u16 n = n % 2 ^ 16

pub record Message : Type 0 where
  pub length : ℕ
  pub position : ℕ
  pub overrun : Bool
  pub buffer : ℕ → ℕ

pub record Pos : Type 0 where
  pub x : ℕ
  pub y : ℕ
  pub z : ℕ

pub reset : Message → Message
reset m = record m { length = 0; position = initial_position; overrun = false }

unfoldable pub can_add : Message → ℕ → Bool
can_add m size = ltb (size + m.position) max_body_length

unfoldable pub can_read : Message → ℕ → Bool
can_read m size = not (ltb (m.length + 8) (m.position + size) || leb (max_size - m.position) size)

-- What `canRead` does to the message when it refuses.
abbrev pub overran : Message → Message
overran m = record m { overrun = true }

pub get_byte : Message → ℕ × Message
get_byte m =
    if can_read m 1
    then (m.buffer m.position, record m { position = u16 (m.position + 1) })
    else (0, overran m)

pub get_previous_byte : Message → ℕ × Message
get_previous_byte m =
    let p = u16 (m.position + 2 ^ 16 - 1) in (m.buffer p, record m { position = p })

-- `n` is `sizeof(T)`.
unfoldable pub get : ℕ → Message → ℕ × Message
get n m =
    if can_read m n
    then (of_bytes (read_at m.buffer m.position n), record m { position = u16 (m.position + n) })
    else (0, overran m)

pub get_chars : ℕ → Message → List ℕ × Message
get_chars n m =
    if can_read m n
    then (read_at m.buffer m.position n, record m { position = u16 (m.position + n) })
    else ([], overran m)

-- The length stands in front of the text if the argument is 0.
pub get_string : ℕ → Message → List ℕ × Message
get_string n m = if n == 0 then (let (k, m') = get 2 m in get_chars k m') else get_chars n m

pub get_position : Message → Pos × Message
get_position m =
    let (x, m1) = get 2 m in
    let (y, m2) = get 2 m1 in let (z, m3) = get_byte m2 in (record { x = x; y = y; z = z }, m3)

-- `count` is the bit pattern of the int16_t.
pub skip_bytes : ℕ → Message → Message
skip_bytes count m = record m { position = u16 (m.position + count) }

-- The common end of all writes of bytes.
abbrev pub put : List ℕ → ℕ → Message → Message
put bs n m = record m {
  length = u16 (m.length + n);
  position = u16 (m.position + n);
  buffer = write_at m.buffer m.position bs;
}

pub add_byte : ℕ → Message → Message
add_byte v m = if can_add m 1 then put (v % 256 ∷ []) 1 m else m

pub add : ℕ → ℕ → Message → Message
add n v m = if can_add m n then put (to_bytes n v) n m else m

pub add_bytes : List ℕ → Message → Message
add_bytes bs m = let n = size bs in if not (can_add m n) || ltb 8192 n then m else put bs n m

-- The padding is counted, but `position` stays in front of it.
unfoldable pub add_padding_bytes : ℕ → Message → Message
add_padding_bytes n m =
    if can_add m n
    then record m {
      length = u16 (m.length + n);
      buffer = write_at m.buffer m.position (replicate n 0x33);
    }
    else m

pub add_string : List ℕ → Message → Message
add_string s m =
    let n = size s in if not (can_add m (n + 2)) || ltb 8192 n then m else put s n (add 2 n m)

pub add_position : Pos → Message → Message
add_position p m = add_byte p.z (add 2 p.y (add 2 p.x m))

pub set_buffer_position : ℕ → Message → Bool × Message
set_buffer_position p m =
    if ltb p (max_size - initial_position)
    then (true, record m { position = u16 (p + initial_position) })
    else (false, m)

unfoldable pub get_length_header : Message → ℕ
get_length_header m = m.buffer 0 + 256 * m.buffer 1
