-- ===== src/Net/Checksum/Tests.antt =====
-- The checksum of "Wikipedia", which is 0x11E60398.
use xynera_ots.Prelude.{◌+◌, ◌*◌, ◌%◌, ◌^◌, ◌≡◌, refl, arith, [], ◌∷◌}
use xynera_ots.Net.Checksum.{adler_loop, adler_checksum}
use xynera_ots.Net.Checksum.Sums.{sums, no_byte, byte, adler_checksum-sums}

wikipedia : adler_checksum (87 ∷ 105 ∷ 107 ∷ 105 ∷ 112 ∷ 101 ∷ 100 ∷ 105 ∷ 97 ∷ []) ≡ 0x11E60398
unfolding adler_checksum adler_loop
wikipedia = refl

adler_checksum-sums_example :
    adler_checksum (87 ∷ 105 ∷ [])
    ≡ (sums (87 ∷ 105 ∷ []) 1 0).1 % 65521 * 2 ^ 16 + (sums (87 ∷ 105 ∷ []) 1 0).0 % 65521
adler_checksum-sums_example =
    adler_checksum-sums (87 ∷ 105 ∷ []) (byte (omega arith) (byte (omega arith) no_byte))
      (omega arith)
