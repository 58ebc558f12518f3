-- ===== src/Net/Xtea.antt =====
-- src/xtea.cpp: key expansion and the in-place encryption of a buffer.
-- A buffer is the list of its bytes; `none` is a block that reaches past its end, which the
-- code reads and writes out of bounds.
pub mod Rounds
pub mod RoundTrip
mod Tests
use xynera_ots.Prelude.{
  ℕ, zero, suc, ◌+◌, ◌-◌, ◌*◌, ◌/◌, ◌%◌, ◌^◌, bit_xor, Option, none, some, List, [], ◌∷◌, ◌++◌,
  get_or,
}
use xynera_ots.Net.Bytes.{to_bytes, of_bytes}

abbrev pub u32 : ℕ → ℕ
u32 n = n % 2 ^ 32

abbrev pub delta : ℕ
delta = 0x9E3779B9

-- `n` passes of the loop of `expand_key`, from the value `sum` of its counter.
expand_from : ℕ → ℕ → List ℕ → List ℕ
expand_from zero sum k = []
expand_from (suc n) sum k =
    let next_sum = u32 (sum + delta) in
    u32 (sum + get_or k (sum % 4) 0)
    ∷ u32 (next_sum + get_or k (next_sum / 2 ^ 11 % 4) 0)
    ∷ expand_from n next_sum k

pub expand_key : List ℕ → List ℕ
unfolding expand_from
expand_key k = expand_from 32 0 k

-- `(v << 4 ^ v >> 5) + v`, xored with a round key.
pub mix : ℕ → ℕ → ℕ
mix v k = bit_xor (u32 (bit_xor (u32 (v * 2 ^ 4)) (v / 2 ^ 5) + v)) k

pub add32 : ℕ → ℕ → ℕ
add32 a b = u32 (a + b)

-- `a -= b` on uint32_t.
pub sub32 : ℕ → ℕ → ℕ
sub32 a b = u32 (a + 2 ^ 32 - u32 b)

pub encrypt_block : ℕ → ℕ → ℕ → ℕ → List ℕ
unfolding mix add32
encrypt_block k0 k1 left right =
    let left' = add32 left (mix right k0) in
    let right' = add32 right (mix left' k1) in to_bytes 4 left' ++ to_bytes 4 right'

-- `k1` is `k[i]` and `k0` is `k[i - 1]`.
pub decrypt_block : ℕ → ℕ → ℕ → ℕ → List ℕ
unfolding mix sub32
decrypt_block k1 k0 left right =
    let right' = sub32 right (mix left k1) in
    let left' = sub32 left (mix right' k0) in to_bytes 4 left' ++ to_bytes 4 right'

abbrev pub prepend : List ℕ → Option (List ℕ) → Option (List ℕ)
prepend b none = none
prepend b (some bs) = some (b ++ bs)

-- The loop over the blocks of eight bytes.
pub each_block : (ℕ → ℕ → List ℕ) → List ℕ → Option (List ℕ)
each_block f [] = some []
each_block f (a ∷ b ∷ c ∷ d ∷ e ∷ g ∷ h ∷ i ∷ rest) =
    let left = of_bytes (a ∷ b ∷ c ∷ d ∷ []) in
    let right = of_bytes (e ∷ g ∷ h ∷ i ∷ []) in prepend (f left right) (each_block f rest)
each_block f _ = none

infixl 5 ◌>>=◌
abbrev pub ◌>>=◌ : Option (List ℕ) → (List ℕ → Option (List ℕ)) → Option (List ℕ)
none >>= f = none
some a >>= f = f a

-- `n` passes of the outer loop, from round key `i` upwards.
pub encrypt_rounds : List ℕ → ℕ → ℕ → List ℕ → Option (List ℕ)
encrypt_rounds k zero i buf = some buf
encrypt_rounds k (suc n) i buf = do
  next ← each_block (encrypt_block (get_or k i 0) (get_or k (i + 1) 0)) buf
  encrypt_rounds k n (i + 2) next

-- The passes of the outer loop from round key `2 * n - 1` downwards.
pub decrypt_rounds : List ℕ → ℕ → List ℕ → Option (List ℕ)
decrypt_rounds k zero buf = some buf
decrypt_rounds k (suc n) buf = do
  next ← each_block (decrypt_block (get_or k (2 * n + 1) 0) (get_or k (2 * n) 0)) buf
  decrypt_rounds k n next

-- `round_keys` has 64 entries, so 32 passes.
pub encrypt : List ℕ → List ℕ → Option (List ℕ)
unfolding encrypt_rounds each_block encrypt_block to_bytes of_bytes
encrypt buf k = encrypt_rounds k 32 0 buf

pub decrypt : List ℕ → List ℕ → Option (List ℕ)
unfolding decrypt_rounds each_block decrypt_block to_bytes of_bytes
decrypt buf k = decrypt_rounds k 32 buf
