-- ===== src/Net/Xtea/Tests.antt =====
-- Runs of the cipher, and the theorems at a concrete buffer and key.
use xynera_ots.Prelude.{ℕ, ◌≡◌, refl, none, some, List, [], ◌∷◌, arith, length}
use xynera_ots.Net.Xtea.{expand_key, encrypt, decrypt}
use xynera_ots.Net.Xtea.Rounds.{IsBlocks, done, block}
use xynera_ots.Net.Xtea.RoundTrip.{decrypt-encrypt, encrypt-decrypt}

abbrev some_key : List ℕ
some_key = 0x00010203 ∷ 0x04050607 ∷ 0x08090a0b ∷ 0x0c0d0e0f ∷ []

-- "ABCDEFGH".
abbrev some_block : List ℕ
some_block = 65 ∷ 66 ∷ 67 ∷ 68 ∷ 69 ∷ 70 ∷ 71 ∷ 72 ∷ []

some_block-IsBlocks : IsBlocks some_block
some_block-IsBlocks = block (omega arith) (omega arith) done

-- The published XTEA test vector, with the words of both blocks in little-endian order.
published_vector :
    encrypt (0x44 ∷ 0x43 ∷ 0x42 ∷ 0x41 ∷ 0x48 ∷ 0x47 ∷ 0x46 ∷ 0x45 ∷ []) (expand_key some_key)
    ≡ some (0xd0 ∷ 0xf3 ∷ 0x7d ∷ 0x49 ∷ 0xb5 ∷ 0x2c ∷ 0x61 ∷ 0x72 ∷ [])
unfolding encrypt expand_key
published_vector = refl

short_block : encrypt (1 ∷ 2 ∷ 3 ∷ []) (expand_key some_key) ≡ none
unfolding encrypt expand_key
short_block = refl

decrypt-encrypt_example :
    (out : List ℕ) × (encrypt some_block (expand_key some_key) ≡ some out)
    × (decrypt out (expand_key some_key) ≡ some some_block)
    × (length out ≡ 8)
decrypt-encrypt_example = decrypt-encrypt (expand_key some_key) some_block some_block-IsBlocks

encrypt-decrypt_example :
    (out : List ℕ) × (decrypt some_block (expand_key some_key) ≡ some out)
    × (encrypt out (expand_key some_key) ≡ some some_block)
    × (length out ≡ 8)
encrypt-decrypt_example = encrypt-decrypt (expand_key some_key) some_block some_block-IsBlocks
