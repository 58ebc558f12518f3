-- ===== src/Net/Buffer.antt =====
-- A byte array as a function of the index, and memcpy to and from it.
use xynera_ots.Prelude.{
  ℕ, zero, suc, ◌+◌, ◌≤◌, ◌<◌, ◌≡◌, ◌⊎◌, inl, refl, ap, ap₂, ◌∙◌, List, [], ◌∷◌, ◌++◌, ◌==◌,
  if◌then◌else◌, length, arith,
}

unfoldable pub update : (ℕ → ℕ) → ℕ → ℕ → ℕ → ℕ
update f p v i = if i == p then v else f i

unfoldable pub write_at : (ℕ → ℕ) → ℕ → List ℕ → ℕ → ℕ
unfolding update
write_at f p [] = f
write_at f p (b ∷ bs) = write_at (update f p b) (p + 1) bs

unfoldable pub read_at : (ℕ → ℕ) → ℕ → ℕ → List ℕ
read_at f p zero = []
read_at f p (suc n) = f p ∷ read_at f (p + 1) n

-- A write changes nothing outside its range.
pub write_at_outside :
    (f : ℕ → ℕ) (p : ℕ) (bs : List ℕ) (i : ℕ)
    → (i < p) ⊎ (p + length bs ≤ i)
    → write_at f p bs i ≡ f i
unfolding write_at
write_at_outside f p [] i h = refl
write_at_outside f p (b ∷ bs) i h = ground (arith, write_at_outside (update f p b) (p + 1) bs i)

pub length-read_at : (f : ℕ → ℕ) (p n : ℕ) → length (read_at f p n) ≡ n
unfolding read_at
length-read_at f p zero = refl
length-read_at f p (suc n) = ap suc (length-read_at f (p + 1) n)

-- What is written is read back, also behind earlier writes.
pub read_at-write_at :
    (f : ℕ → ℕ) (p : ℕ) (bs : List ℕ) → read_at (write_at f p bs) p (length bs) ≡ bs
unfolding write_at read_at
read_at-write_at f p [] = refl
read_at-write_at f p (b ∷ bs) =
    ap₂ ◌∷◌ (write_at_outside (update f p b) (p + 1) bs p (inl (omega arith)) ∙ ground arith)
      (read_at-write_at (update f p b) (p + 1) bs)

pub read_at_same :
    (f g : ℕ → ℕ) (p n : ℕ)
    → ((i : ℕ) → p ≤ i → i < p + n → f i ≡ g i)
    → read_at f p n ≡ read_at g p n
unfolding read_at
read_at_same f g p zero h = refl
read_at_same f g p (suc n) h =
    ap₂ ◌∷◌ (h p (omega arith) (omega arith))
      (read_at_same f g (p + 1) n (λ i lo hi. h i (omega arith) (omega arith)))

pub read_at-write_at_outside :
    (f : ℕ → ℕ) (p q n : ℕ) (bs : List ℕ)
    → (p + n ≤ q) ⊎ (q + length bs ≤ p)
    → read_at (write_at f q bs) p n ≡ read_at f p n
read_at-write_at_outside f p q n bs h =
    read_at_same _ f p n (λ i lo hi. write_at_outside f q bs i (omega arith))

pub read_at_append :
    (f : ℕ → ℕ) (p m n q k : ℕ)
    → q ≡ p + m
    → k ≡ m + n
    → read_at f p k ≡ read_at f p m ++ read_at f q n
unfolding read_at
read_at_append f p zero n q k eq ek =
    let e : q ≡ p = omega arith in let e' : k ≡ n = omega arith in rw (e, e') refl
read_at_append f p (suc m) n q k eq ek =
    let e : k ≡ suc (m + n) = omega arith in
    rw e (ap (◌∷◌ (f p)) (read_at_append f (p + 1) m n q (m + n) (omega arith) refl))

pub write_at_append :
    (f : ℕ → ℕ) (p q : ℕ) (xs ys : List ℕ)
    → q ≡ p + length xs
    → write_at f p (xs ++ ys) ≡ write_at (write_at f p xs) q ys
unfolding write_at
write_at_append f p q [] ys e = let e' : q ≡ p = omega arith in rw e' refl
write_at_append f p q (x ∷ xs) ys e = write_at_append (update f p x) (p + 1) q xs ys (omega arith)
