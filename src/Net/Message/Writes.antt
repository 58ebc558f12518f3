-- ===== src/Net/Message/Writes.antt =====
-- Sequences of writes to a message, and of reads from one.
pub mod Puts
pub mod RoundTrip
pub mod Bounds
mod Tests
use xynera_ots.Prelude.{
  ℕ, ◌+◌, ◌-◌, ◌≤◌, ◌<◌, ◌≡◌, refl, Bool, true, false, List, [], ◌∷◌, ◌++◌, map, arith,
  length as size,
}
use xynera_ots.Net.Bytes.{to_bytes, byte_range}
use xynera_ots.Net.Message.{
  Message, Pos, add_byte, add, add_string, add_position, get_byte, get, get_string, get_position,
}

pub data Item : Type 0 where
  byte : ℕ → Item
  number : ℕ → ℕ → Item
  string : List ℕ → Item
  place : Pos → Item

pub data Kind : Type 0 where
  byte : Kind
  number : ℕ → Kind
  string : Kind
  place : Kind

abbrev pub kind : Item → Kind
kind (byte v) = Kind.byte
kind (number n v) = Kind.number n
kind (string s) = Kind.string
kind (place p) = Kind.place

pub write : Item → Message → Message
write (byte v) m = add_byte v m
write (number n v) m = add n v m
write (string s) m = add_string s m
write (place p) m = add_position p m

unfoldable pub write_all : List Item → Message → Message
write_all [] m = m
write_all (i ∷ is) m = write_all is (write i m)

abbrev with_item : (ℕ → Item) → ℕ × Message → Item × Message
with_item f (a, m) = (f a, m)

pub read : Kind → Message → Item × Message
read Kind.byte m = let (v, m') = get_byte m in (byte v, m')
read (Kind.number n) m = let (v, m') = get n m in (number n v, m')
read Kind.string m = let (s, m') = get_string 0 m in (string s, m')
read Kind.place m = let (p, m') = get_position m in (place p, m')

pub read_all : List Kind → Message → List Item × Message
read_all [] m = ([], m)
read_all (k ∷ ks) m = let (i, m1) = read k m in let (is, m2) = read_all ks m1 in (i ∷ is, m2)

-- The bytes of an item on the wire.
unfoldable pub bytes : Item → List ℕ
bytes (byte v) = v ∷ []
bytes (number n v) = to_bytes n v
bytes (string s) = to_bytes 2 (size s) ++ s
bytes (place p) = to_bytes 2 p.x ++ (to_bytes 2 p.y ++ p.z ∷ [])

unfoldable pub all_bytes : List Item → List ℕ
all_bytes [] = []
all_bytes (i ∷ is) = bytes i ++ all_bytes is

-- The item can be sent: its numbers fit their types and its text is at most 8192 bytes long.
abbrev pub CanSend : Item → Type 0
CanSend (byte v) = v < 256
CanSend (number n v) = v < byte_range n
CanSend (string s) = size s ≤ 8192
CanSend (place p) = (p.x < 65536) × (p.y < 65536) × (p.z < 256)

abbrev pub CanSendAll : List Item → Type 0
CanSendAll [] = Unit {0}
CanSendAll (i ∷ is) = CanSend i × CanSendAll is
