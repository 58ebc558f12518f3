-- ===== src/Net/Message/Writes/Tests.antt =====
-- A message with one item of each kind.
use xynera_ots.Prelude.{◌≡◌, refl, ◌+◌, false, List, [], ◌∷◌, map, arith, length as size}
use xynera_ots.Net.Bytes.{to_bytes}
use xynera_ots.Net.Message.{Message, reset, set_buffer_position}
use xynera_ots.Net.Message.Writes.{
  Item, byte, number, string, place, kind, write_all, read_all, bytes, all_bytes,
}
use xynera_ots.Net.Message.Writes.RoundTrip.{read_all-write_all}
use xynera_ots.Net.Message.Writes.Bounds.{Extends, write_all-Extends}

abbrev blank : Message
blank = record { length = 0; position = 8; overrun = false; buffer = λ i. 0 }

abbrev greeting : List Item
greeting =
    byte 0x64
    ∷ number 2 7171
    ∷ string (72 ∷ 105 ∷ [])
    ∷ place (record { x = 95; y = 117; z = 7 })
    ∷ []

greeting-size : size (all_bytes greeting) ≡ 12
unfolding all_bytes bytes to_bytes
greeting-size = refl

read_all-write_all_example :
    let sent = write_all greeting (reset blank) in
    (read_all (map kind greeting) (set_buffer_position 0 sent).1 ≡ (greeting, sent))
    × (sent.length ≡ size (all_bytes greeting))
    × (sent.position ≡ 8 + size (all_bytes greeting))
    × (sent.overrun ≡ false)
read_all-write_all_example =
    read_all-write_all greeting blank (omega arith) (rw greeting-size (omega arith))

write_all-Extends_example : Extends blank (write_all greeting blank)
write_all-Extends_example = write_all-Extends greeting blank (omega arith)
