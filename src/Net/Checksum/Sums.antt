-- ===== src/Net/Checksum/Sums.antt =====
-- The checksum is Adler-32: nothing is lost to the width of the sums.
use xynera_ots.Prelude.{
  ℕ, zero, suc, ◌+◌, ◌-◌, ◌*◌, ◌%◌, ◌^◌, ◌≡◌, ◌≤◌, ◌<◌, refl, sym, false, arith, List, [], ◌∷◌,
  length, ltb, ◌==◌, Bool-cases, inl, inr, ap₂, subst, leb→le,
}
use xynera_ots.Net.Checksum.{adler, u32, adler_loop, adler_checksum}

-- The definition of Adler-32: one plus the sum of the bytes, and the sum of those sums.
unfoldable pub sums : List ℕ → ℕ → ℕ → ℕ × ℕ
sums [] a b = (a, b)
sums (x ∷ xs) a b = sums xs (a + x) (b + (a + x))

pub data Bytes : List ℕ → Type 0 where
  no_byte : Bytes []
  byte : {x : ℕ} {xs : List ℕ} → x < 256 → Bytes xs → Bytes (x ∷ xs)

-- What `b` can be after so many bytes of a chunk.
most : ℕ → ℕ
most zero = 65520
most (suc i) = most i + 65520 + 255 * suc i

most_le : (i k : ℕ) → most i ≤ most (i + k)
unfolding most
most_le i zero =
    let same : i + 0 ≡ i = omega arith in subst (λ n. most i ≤ most n) (sym same) (omega arith)
most_le i (suc k) =
    let same : i + suc k ≡ suc (i + k) = omega arith in
    subst (λ n. most i ≤ most n) (sym same) (omega (arith, most_le i k))

most_fits : most 5552 < 2 ^ 32
unfolding most
most_fits = leb→le _ _ refl

mod_add : (a b x : ℕ) → a % 65521 ≡ b % 65521 → (a + x) % 65521 ≡ (b + x) % 65521
mod_add a b x e = omega arith

mod_most : (n : ℕ) → n % adler ≤ most 0
unfolding most
mod_most n = omega arith

most_step : (i a b x : ℕ) → a ≤ 65520 + 255 * i → b ≤ most i → x < 256 → b + (a + x) ≤ most (suc i)
unfolding most
most_step i a b x u v k = omega arith

loop_lem :
    (xs : List ℕ) (i tmp a b A B : ℕ)
    → Bytes xs
    → tmp + i ≡ 5552
    → 0 < tmp
    → a ≤ 65520 + 255 * i
    → b ≤ most i
    → a % adler ≡ A % adler
    → b % adler ≡ B % adler
    → adler_loop xs tmp a b ≡ ((sums xs A B).0 % adler, (sums xs A B).1 % adler)
unfolding adler_loop sums
loop_lem [] i tmp a b A B h l p u v e f = ap₂ (λ x y. (x, y)) e f
loop_lem (x ∷ xs) i tmp a b A B (byte k h) l p u v e f =
    let bound = most_le (suc i) (5552 - suc i) in
    let same : suc i + (5552 - suc i) ≡ 5552 = omega arith in
    let room : most (suc i) ≤ most 5552 = subst (λ n. most (suc i) ≤ most n) same bound in
    let small_a : a + x ≤ 65520 + 255 * suc i = omega arith in
    let small_b : b + (a + x) ≤ most (suc i) = most_step i a b x u v k in
    let fits = most_fits in
    let fa : u32 (a + x) ≡ a + x = omega arith in
    let fb : u32 (b + (a + x)) ≡ b + (a + x) = omega arith in
    let ea = mod_add a A x e in
    let eb : (b + (a + x)) % adler ≡ (B + (A + x)) % adler = omega arith in
    rw (fa, fb)
      (elim (Bool-cases (tmp == 1)) [
        | inl y ↦ rw y (
            loop_lem xs 0 5552 ((a + x) % adler) ((b + (a + x)) % adler) (A + x) (B + (A + x)) h
              refl (omega arith) (omega arith) (mod_most (b + (a + x))) (omega (arith, ea))
              (omega (arith, eb)))
        | inr n ↦ rw n (
            loop_lem xs (suc i) (tmp - 1) (a + x) (b + (a + x)) (A + x) (B + (A + x)) h
              (ground arith) (ground arith) small_a small_b ea eb)
      ])

-- The checksum of bytes, if there are no more than a message can hold, is Adler-32 of them: the sums
-- modulo 65521, the second in the upper half, with nothing lost to their width.
pub adler_checksum-sums :
    (xs : List ℕ)
    → Bytes xs
    → length xs ≤ 65535
    → adler_checksum xs ≡ (sums xs 1 0).1 % 65521 * 2 ^ 16 + (sums xs 1 0).0 % 65521
unfolding adler_checksum
adler_checksum-sums xs h l =
    let all =
      loop_lem xs 0 5552 1 0 1 0 h refl (omega arith) (omega arith) (mod_most 0) refl refl in
    let short : ltb 65535 (length xs) ≡ false = ground arith in rw (short, all) (ground arith)
