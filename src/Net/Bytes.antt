-- ===== src/Net/Bytes.antt =====
-- Numbers in memory, as memcpy copies them on a little-endian host: fileloader.h, networkmessage.h
-- and xtea.cpp move integers of one to eight bytes this way.
use xynera_ots.Prelude.{
  ℕ, zero, suc, ◌+◌, ◌*◌, ◌/◌, ◌%◌, ◌<◌, ◌≡◌, refl, ap₂, List, [], ◌∷◌, arith, length,
}

-- The `n` bytes of a number, lowest first.
unfoldable pub to_bytes : ℕ → ℕ → List ℕ
to_bytes zero v = []
to_bytes (suc n) v = v % 256 ∷ to_bytes n (v / 256)

unfoldable pub of_bytes : List ℕ → ℕ
of_bytes [] = 0
of_bytes (b ∷ bs) = b + 256 * of_bytes bs

abbrev pub IsBytes : List ℕ → Type 0
IsBytes [] = Unit {0}
IsBytes (b ∷ bs) = (b < 256) × IsBytes bs

pub length-to_bytes : (n v : ℕ) → length (to_bytes n v) ≡ n
unfolding to_bytes
length-to_bytes zero v = refl
length-to_bytes (suc n) v = omega (arith, length-to_bytes n (v / 256))

pub to_bytes-IsBytes : (n v : ℕ) → IsBytes (to_bytes n v)
unfolding to_bytes
to_bytes-IsBytes zero v = tt
to_bytes-IsBytes (suc n) v = (omega arith, to_bytes-IsBytes n (v / 256))

pub to_bytes-of_bytes : (bs : List ℕ) → IsBytes bs → to_bytes (length bs) (of_bytes bs) ≡ bs
unfolding to_bytes of_bytes
to_bytes-of_bytes [] h = refl
to_bytes-of_bytes (b ∷ bs) h =
    let q : (b + 256 * of_bytes bs) / 256 ≡ of_bytes bs = omega arith in
    let r : (b + 256 * of_bytes bs) % 256 ≡ b = omega arith in
    ap₂ ◌∷◌ r (rw q (to_bytes-of_bytes bs h.1))

-- `256 ^ n`, by recursion.
abbrev pub byte_range : ℕ → ℕ
byte_range zero = 1
byte_range (suc n) = 256 * byte_range n

pub of_bytes-to_bytes : (n v : ℕ) → v < byte_range n → of_bytes (to_bytes n v) ≡ v
unfolding to_bytes of_bytes
of_bytes-to_bytes zero v h = omega arith
of_bytes-to_bytes (suc n) v h = omega (arith, of_bytes-to_bytes n (v / 256) (omega arith))
