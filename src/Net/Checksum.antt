-- ===== src/Net/Checksum.antt =====
-- adlerChecksum of src/tools.cpp. The buffer is the list of its bytes.
pub mod Sums
mod Tests
use xynera_ots.Prelude.{ℕ, ◌+◌, ◌-◌, ◌*◌, ◌%◌, ◌^◌, List, [], ◌∷◌, length, ltb, ◌==◌, if◌then◌else◌}
use xynera_ots.Net.Message.{max_size}

abbrev pub adler : ℕ
adler = 65521

abbrev pub u32 : ℕ → ℕ
u32 n = n % 2 ^ 32

-- Both loops over the bytes that remain: `tmp` is what the inner one has to go, `a` and `b` are
-- reduced when it ends, and it starts again with 5552 or with all that is left if that is less.
unfoldable pub adler_loop : List ℕ → ℕ → ℕ → ℕ → ℕ × ℕ
adler_loop [] tmp a b = (a % adler, b % adler)
adler_loop (x ∷ xs) tmp a b =
    let a' = u32 (a + x) in
    let b' = u32 (b + a') in
    adler_loop xs (if tmp == 1 then 5552 else tmp - 1) (if tmp == 1 then a' % adler else a')
      (if tmp == 1 then b' % adler else b')

-- The halves do not overlap, so `(b << 16) | a` is a sum.
unfoldable pub adler_checksum : List ℕ → ℕ
unfolding adler_loop
adler_checksum bytes =
    if ltb max_size (length bytes)
    then 0
    else (let (a, b) = adler_loop bytes 5552 1 0 in u32 (b * 2 ^ 16) + a)
