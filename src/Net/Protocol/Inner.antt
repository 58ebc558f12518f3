-- ===== src/Net/Protocol/Inner.antt =====
-- What is encrypted: the length of the body, the body and the padding.
use xynera_ots.Prelude.{
  ℕ, zero, suc, ◌+◌, ◌-◌, ◌*◌, ◌/◌, ◌%◌, ◌<◌, ◌≡◌, subst, List, [], ◌∷◌, ◌++◌, ◌==◌, if◌then◌else◌,
  length, arith, replicate, length-append, length-replicate,
}
use xynera_ots.Net.Bytes.{to_bytes, IsBytes, length-to_bytes, to_bytes-IsBytes}
use xynera_ots.Net.Buffer.{write_at, read_at, read_at-write_at}
use xynera_ots.Net.Xtea.Rounds.{IsBlocks, done, block}

pub IsBytes-append : (xs ys : List ℕ) → IsBytes xs → IsBytes ys → IsBytes (xs ++ ys)
IsBytes-append [] ys h k = k
IsBytes-append (x ∷ xs) ys h k = (h.0, IsBytes-append xs ys h.1 k)

IsBytes-replicate : (n b : ℕ) → b < 256 → IsBytes (replicate n b)
IsBytes-replicate zero b h = tt
IsBytes-replicate (suc n) b h = (h, IsBytes-replicate n b h)

-- Bytes in a multiple of eight are whole blocks.
pub IsBlocks-of : (n : ℕ) (xs : List ℕ) → IsBytes xs → length xs ≡ 8 * n → IsBlocks xs
IsBlocks-of zero [] h e = done
IsBlocks-of zero (x ∷ xs) h e = absurd (omega arith)
IsBlocks-of (suc n) (a ∷ b ∷ c ∷ d ∷ f ∷ g ∷ i ∷ j ∷ rest)
      (ha, (hb, (hc, (hd, (hf, (hg, (hi, (hj, hr)))))))) e =
    block (ha, (hb, (hc, (hd, tt)))) (hf, (hg, (hi, (hj, tt))))
      (IsBlocks-of n rest hr (omega arith))
IsBlocks-of (suc n) _ h e = absurd (omega arith)

-- What was written last is read back.
pub read-written :
    (f : ℕ → ℕ) (p : ℕ) (bs : List ℕ) (k : ℕ) → length bs ≡ k → read_at (write_at f p bs) p k ≡ bs
read-written f p bs k e =
    subst (λ j. read_at (write_at f p bs) p j ≡ bs) e (read_at-write_at f p bs)

-- How much is padded.
abbrev pub padding : ℕ → ℕ
padding n = if n % 8 == 0 then 0 else 8 - n % 8

-- What is encrypted for a body: its length, the body, and padding to a multiple of eight.
abbrev pub inner : List ℕ → List ℕ
inner body = to_bytes 2 (length body) ++ (body ++ replicate (padding (length body + 2)) 0x33)

pub length-inner :
    (body : List ℕ) → length (inner body) ≡ length body + 2 + padding (length body + 2)
length-inner body = omega (
  arith,
  length-append (to_bytes 2 (length body)) (body ++ replicate (padding (length body + 2)) 0x33),
  length-append body (replicate (padding (length body + 2)) 0x33),
  length-to_bytes 2 (length body),
  length-replicate {A = ℕ} (padding (length body + 2)) 0x33,
)

pub inner-IsBlocks : (body : List ℕ) → IsBytes body → IsBlocks (inner body)
inner-IsBlocks body h =
    IsBlocks-of (length (inner body) / 8) (inner body)
      (IsBytes-append (to_bytes 2 (length body)) _ (to_bytes-IsBytes 2 (length body)) (
        IsBytes-append body _ h (IsBytes-replicate (padding (length body + 2)) 0x33 (omega arith))))
      (ground (arith, length-inner body))
