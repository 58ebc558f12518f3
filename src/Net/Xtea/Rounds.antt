-- ===== src/Net/Xtea/Rounds.antt =====
-- One pass over the blocks of a buffer undoes the other.
use mathlib.Core.List.{append_assoc}
use xynera_ots.Prelude.{
  ℕ, ◌^◌, ◌<◌, ◌≡◌, refl, ap, ap₂, ◌∙◌, some, List, [], ◌∷◌, ◌++◌, arith, length, length-append,
}
use xynera_ots.Net.Bytes.{
  to_bytes, of_bytes, IsBytes, to_bytes-of_bytes, of_bytes-to_bytes, to_bytes-IsBytes,
  length-to_bytes,
}
use xynera_ots.Net.Xtea.{mix, add32, sub32, encrypt_block, decrypt_block, each_block, prepend}

-- A buffer of whole blocks: its length is a multiple of eight and its entries are bytes.
pub data IsBlocks : List ℕ → Type 0 where
  done : IsBlocks []
  block :
      {a b c d e g h i : ℕ} {rest : List ℕ}
      → IsBytes (a ∷ b ∷ c ∷ d ∷ [])
      → IsBytes (e ∷ g ∷ h ∷ i ∷ [])
      → IsBlocks rest
      → IsBlocks (a ∷ b ∷ c ∷ d ∷ e ∷ g ∷ h ∷ i ∷ rest)

sub32-add32 : (a b : ℕ) → a < 2 ^ 32 → sub32 (add32 a b) b ≡ a
unfolding sub32 add32
sub32-add32 a b h = omega arith

add32-sub32 : (a b : ℕ) → a < 2 ^ 32 → add32 (sub32 a b) b ≡ a
unfolding sub32 add32
add32-sub32 a b h = omega arith

add32-lt : (a b : ℕ) → add32 a b < 2 ^ 32
unfolding add32
add32-lt a b = omega arith

sub32-lt : (a b : ℕ) → sub32 a b < 2 ^ 32
unfolding sub32
sub32-lt a b = omega arith

-- A pass over the words of a block, as the loops write it: both words are stored.
pub record IsInverse (f g : ℕ → ℕ → List ℕ) : Type 0 where
  pub left : ℕ → ℕ → ℕ
  pub right : ℕ → ℕ → ℕ
  pub stores : (l r : ℕ) → f l r ≡ to_bytes 4 (left l r) ++ to_bytes 4 (right l r)
  pub fits : (l r : ℕ) → (left l r < 2 ^ 32) × (right l r < 2 ^ 32)
  pub undoes :
      (l r : ℕ) → l < 2 ^ 32 → r < 2 ^ 32 → g (left l r) (right l r) ≡ to_bytes 4 l ++ to_bytes 4 r

pub decrypt-encrypt_block : (k0 k1 : ℕ) → IsInverse (encrypt_block k0 k1) (decrypt_block k1 k0)
decrypt-encrypt_block k0 k1 = record {
  left = λ l r. add32 l (mix r k0);
  right = λ l r. add32 r (mix (add32 l (mix r k0)) k1);
  stores = λ l r. unfold encrypt_block in refl;
  fits = λ l r. (add32-lt _ _, add32-lt _ _);
  undoes = λ l r hl hr. unfold decrypt_block in rw (sub32-add32 _ _ hr, sub32-add32 _ _ hl) refl;
}

pub encrypt-decrypt_block : (k0 k1 : ℕ) → IsInverse (decrypt_block k1 k0) (encrypt_block k0 k1)
encrypt-decrypt_block k0 k1 = record {
  left = λ l r. sub32 l (mix (sub32 r (mix l k1)) k0);
  right = λ l r. sub32 r (mix l k1);
  stores = λ l r. unfold decrypt_block in refl;
  fits = λ l r. (sub32-lt _ _, sub32-lt _ _);
  undoes = λ l r hl hr. unfold encrypt_block in rw (add32-sub32 _ _ hl, add32-sub32 _ _ hr) refl;
}

each_block-words :
    (f : ℕ → ℕ → List ℕ) (l r : ℕ) (rest : List ℕ)
    → l < 2 ^ 32
    → r < 2 ^ 32
    → each_block f (to_bytes 4 l ++ (to_bytes 4 r ++ rest)) ≡ prepend (f l r) (each_block f rest)
unfolding each_block to_bytes
each_block-words f l r rest hl hr =
    ap₂ (λ x y. prepend (f x y) (each_block f rest)) (of_bytes-to_bytes 4 l hl)
      (of_bytes-to_bytes 4 r hr)

IsBlocks-words :
    (l r : ℕ) (rest : List ℕ) → IsBlocks rest → IsBlocks (to_bytes 4 l ++ (to_bytes 4 r ++ rest))
unfolding to_bytes
IsBlocks-words l r rest h = block (to_bytes-IsBytes 4 l) (to_bytes-IsBytes 4 r) h

word_fits : {a b c d : ℕ} → IsBytes (a ∷ b ∷ c ∷ d ∷ []) → of_bytes (a ∷ b ∷ c ∷ d ∷ []) < 2 ^ 32
unfolding of_bytes
word_fits h = omega arith

module _ (f : ℕ → ℕ → List ℕ) (a b c d e x y z : ℕ) where
  each_block_run :
      (u v rest : List ℕ) {out : List ℕ}
      → f (of_bytes (a ∷ b ∷ c ∷ d ∷ [])) (of_bytes (e ∷ x ∷ y ∷ z ∷ [])) ≡ u ++ v
      → each_block f rest ≡ some out
      → each_block f (a ∷ b ∷ c ∷ d ∷ e ∷ x ∷ y ∷ z ∷ rest) ≡ some (u ++ (v ++ out))
  unfolding each_block
  each_block_run u v rest {out} s run = rw (run, s) (ap some (append_assoc u v out))

stored_back :
    {a b c d e x y z : ℕ} {rest : List ℕ}
    → IsBytes (a ∷ b ∷ c ∷ d ∷ [])
    → IsBytes (e ∷ x ∷ y ∷ z ∷ [])
    → some (
        (to_bytes 4 (of_bytes (a ∷ b ∷ c ∷ d ∷ [])) ++ to_bytes 4 (of_bytes (e ∷ x ∷ y ∷ z ∷ [])))
        ++ rest)
      ≡ some (a ∷ b ∷ c ∷ d ∷ e ∷ x ∷ y ∷ z ∷ rest)
stored_back {a} {b} {c} {d} {e} {x} {y} {z} p q =
    rw (to_bytes-of_bytes (a ∷ b ∷ c ∷ d ∷ []) p, to_bytes-of_bytes (e ∷ x ∷ y ∷ z ∷ []) q) refl

-- Such a pass succeeds on a buffer of whole blocks, keeps its shape, and is undone by the other.
pub each_block_undo :
    {f g : ℕ → ℕ → List ℕ} (inv : IsInverse f g) {buf : List ℕ}
    → IsBlocks buf
    → (out : List ℕ) × (each_block f buf ≡ some out)
      × IsBlocks out
      × (each_block g out ≡ some buf)
      × (length out ≡ length buf)
each_block_undo inv done = ([], unfold each_block in refl, done, unfold each_block in refl, refl)
each_block_undo {f} {g} inv
      (block {a = a} {b = b} {c = c} {d = d} {e = e} {g = x} {h = y} {i = z} p q h) =
    let (out, run, shape, back, size) = each_block_undo inv h in
    let l = of_bytes (a ∷ b ∷ c ∷ d ∷ []) in
    let r = of_bytes (e ∷ x ∷ y ∷ z ∷ []) in
    (
      to_bytes 4 (inv.left l r) ++ (to_bytes 4 (inv.right l r) ++ out),
      each_block_run f a b c d e x y z _ _ _ (inv.stores l r) run,
      IsBlocks-words (inv.left l r) (inv.right l r) out shape,
      each_block-words g (inv.left l r) (inv.right l r) out (inv.fits l r).0 (inv.fits l r).1
          ∙ rw (back, inv.undoes l r (word_fits p) (word_fits q)) (stored_back p q),
      omega (
        arith,
        length-to_bytes 4 (inv.left l r),
        length-to_bytes 4 (inv.right l r),
        length-append (to_bytes 4 (inv.left l r)) (to_bytes 4 (inv.right l r) ++ out),
        length-append (to_bytes 4 (inv.right l r)) out,
      ),
    )
