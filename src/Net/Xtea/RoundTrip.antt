-- ===== src/Net/Xtea/RoundTrip.antt =====
-- Decryption and encryption undo one another, for every key schedule.
use xynera_ots.Prelude.{
  ℕ, zero, suc, ◌+◌, ◌*◌, ◌^◌, ◌<◌, ◌≡◌, refl, ◌∙◌, some, List, [], ◌∷◌, arith, length, get_or,
}
use xynera_ots.Net.Xtea.{
  encrypt_rounds, decrypt_rounds, encrypt, decrypt, expand_from, expand_key, u32, delta,
}
use xynera_ots.Net.Xtea.Rounds.{
  IsBlocks, each_block_undo, decrypt-encrypt_block, encrypt-decrypt_block,
}

-- What the outer loop of `encrypt` does from pass `j` on, that of `decrypt` undoes down to pass `j`.
decrypt_rounds_undo :
    (k : List ℕ) (n i j m : ℕ) {buf : List ℕ}
    → IsBlocks buf
    → i ≡ 2 * j
    → m ≡ j + n
    → (out : List ℕ) × (encrypt_rounds k n i buf ≡ some out)
      × (decrypt_rounds k m out ≡ decrypt_rounds k j buf)
      × (length out ≡ length buf)
unfolding encrypt_rounds
decrypt_rounds_undo k zero i j m {buf} h ei em =
    let e : m ≡ j = omega arith in (buf, refl, rw e, refl)
decrypt_rounds_undo k (suc n) i j m h ei em =
    let (next, run, shape, back, size) =
      each_block_undo (decrypt-encrypt_block (get_or k i 0) (get_or k (i + 1) 0)) h in
    let (out, run', back', size') =
      decrypt_rounds_undo k n (i + 2) (suc j) m shape (omega arith) (omega arith) in
    (out, rw run run', back' ∙ unfold decrypt_rounds in rw (← ei, back), size' ∙ size)

encrypt_rounds_undo :
    (k : List ℕ) (n m i t : ℕ) {buf : List ℕ}
    → IsBlocks buf
    → i ≡ 2 * n
    → t ≡ n + m
    → (out : List ℕ) × (decrypt_rounds k n buf ≡ some out)
      × (encrypt_rounds k t 0 out ≡ encrypt_rounds k m i buf)
      × (length out ≡ length buf)
unfolding decrypt_rounds
encrypt_rounds_undo k zero m i t {buf} h ei et =
    let e : t ≡ m = omega arith in let e' : i ≡ 0 = omega arith in (buf, refl, rw (e, e'), refl)
encrypt_rounds_undo k (suc n) m i t h ei et =
    let (next, run, shape, back, size) =
      each_block_undo (encrypt-decrypt_block (get_or k (2 * n) 0) (get_or k (2 * n + 1) 0)) h in
    let (out, run', back', size') =
      encrypt_rounds_undo k n (suc m) (2 * n) t shape refl (omega arith) in
    let e : i ≡ 2 * n + 2 = omega arith in
    (out, rw run run', back' ∙ unfold encrypt_rounds in rw (back, e), size' ∙ size)

-- On a buffer of whole blocks of eight bytes, with any round keys, encryption succeeds and keeps
-- the length, and decryption with the same keys gives the buffer back.
pub decrypt-encrypt :
    (k buf : List ℕ)
    → IsBlocks buf
    → (out : List ℕ) × (encrypt buf k ≡ some out)
      × (decrypt out k ≡ some buf)
      × (length out ≡ length buf)
unfolding encrypt decrypt
decrypt-encrypt k buf h = decrypt_rounds_undo k 32 0 0 32 h refl refl

-- The other way round: what decrypts a buffer of whole blocks encrypts back to it.
pub encrypt-decrypt :
    (k buf : List ℕ)
    → IsBlocks buf
    → (out : List ℕ) × (decrypt buf k ≡ some out)
      × (encrypt out k ≡ some buf)
      × (length out ≡ length buf)
unfolding encrypt decrypt
encrypt-decrypt k buf h = encrypt_rounds_undo k 32 0 64 32 h refl refl

abbrev IsWords : List ℕ → Type 0
IsWords [] = Unit {0}
IsWords (w ∷ ws) = (w < 2 ^ 32) × IsWords ws

expand_from-IsWords :
    (n sum : ℕ) (k : List ℕ)
    → IsWords (expand_from n sum k) × (length (expand_from n sum k) ≡ 2 * n)
unfolding expand_from
expand_from-IsWords zero sum k = (tt, refl)
expand_from-IsWords (suc n) sum k =
    let rest = expand_from-IsWords n (u32 (sum + delta)) k in
    ((omega arith, (omega arith, rest.0)), omega (arith, rest.1))

-- Key expansion fills all 64 round keys, each a 32-bit word.
pub expand_key-IsWords : (k : List ℕ) → IsWords (expand_key k) × (length (expand_key k) ≡ 64)
unfolding expand_key
expand_key-IsWords k = expand_from-IsWords 32 0 k
