-- ===== src/Storage/PropStream/Fields.antt =====
-- Sequences of fields, written to a stream and read back, as the savers and loaders of items do.
use mathlib.Core.List.{append_assoc, append-nil}
use xynera_ots.Prelude.{
  ℕ, ◌≤◌, ◌<◌, ◌≡◌, refl, sym, ap, ◌∙◌, Option, none, some, false, List, [], ◌∷◌, ◌++◌, map, ltb,
  if◌then◌else◌, length, take, drop, arith, ◌⊎◌, inl, inr, length-append, Bool-cases,
  take-append-drop, length-take, take-append, drop-append,
}
use xynera_ots.Net.Bytes.{
  to_bytes, of_bytes, IsBytes, byte_range, of_bytes-to_bytes, length-to_bytes, to_bytes-of_bytes,
}
use xynera_ots.Storage.PropStream.{Read, read, read_chars, read_string, write, write_string}

pub data Field : Type 0 where
  number : ℕ → ℕ → Field
  text : List ℕ → Field

pub data Kind : Type 0 where
  number : ℕ → Kind
  text : Kind

abbrev pub kind : Field → Kind
kind (number n v) = Kind.number n
kind (text s) = Kind.text

-- A number that its type can hold.
abbrev pub Fits : List Field → Type 0
Fits [] = Unit {0}
Fits (number n v ∷ fs) = (v < byte_range n) × Fits fs
Fits (text s ∷ fs) = Fits fs

pub write_fields : List Field → List ℕ → List ℕ
write_fields [] buffer = buffer
write_fields (number n v ∷ fs) buffer = write_fields fs (write n v buffer)
write_fields (text s ∷ fs) buffer = write_fields fs (write_string s buffer)

abbrev read_as {ℓ} :
    {A : Type ℓ}
    → (A → Field)
    → Read A
    → (List ℕ → Option (List Field × List ℕ))
    → Option (List Field × List ℕ)
read_as f r go = elim r.value [
  | none ↦ none
  | some a ↦ elim (go r.rest) [ none ↦ none | some (fs, s) ↦ some (f a ∷ fs, s) ]
]

pub read_fields : List Kind → List ℕ → Option (List Field × List ℕ)
read_fields [] s = some ([], s)
read_fields (Kind.number n ∷ ks) s = read_as (number n) (read n s) (read_fields ks)
read_fields (Kind.text ∷ ks) s = read_as text (read_string s) (read_fields ks)

-- A text of more than 65535 bytes is stored as the empty one.
abbrev pub stored : Field → Field
stored (number n v) = number n v
stored (text s) = text (if ltb 65535 (length s) then [] else s)

-- The bytes that one field adds to the buffer.
field_bytes : Field → List ℕ
field_bytes (number n v) = to_bytes n v
field_bytes (text s) = if ltb 65535 (length s) then to_bytes 2 0 else to_bytes 2 (length s) ++ s

fields_bytes : List Field → List ℕ
fields_bytes [] = []
fields_bytes (f ∷ fs) = field_bytes f ++ fields_bytes fs

write_string-bytes : (s buffer : List ℕ) → write_string s buffer ≡ buffer ++ field_bytes (text s)
unfolding write_string field_bytes
write_string-bytes s buffer = elim (Bool-cases (ltb 65535 (length s))) [
  | inl e ↦ rw e refl
  | inr e ↦ rw e (append_assoc buffer _ s)
]

write_fields-bytes :
    (fs : List Field) (buffer : List ℕ) → write_fields fs buffer ≡ buffer ++ fields_bytes fs
unfolding write_fields fields_bytes
write_fields-bytes [] buffer = sym (append-nil buffer)
write_fields-bytes (number n v ∷ fs) buffer =
    write_fields-bytes fs (write n v buffer)
    ∙ unfold write field_bytes in append_assoc buffer (to_bytes n v) _
write_fields-bytes (text s ∷ fs) buffer =
    write_fields-bytes fs (write_string s buffer)
    ∙ rw (write_string-bytes s buffer) (append_assoc buffer (field_bytes (text s)) _)

read-to_bytes :
    (n v : ℕ) (rest : List ℕ)
    → v < byte_range n
    → read n (to_bytes n v ++ rest) ≡ record { value = some v; rest = rest }
unfolding read
read-to_bytes n v rest h =
    let size = length-append (to_bytes n v) rest in
    let e : ltb (length (to_bytes n v ++ rest)) n ≡ false =
      ground (arith, size, length-to_bytes n v) in
    rw
      (
        e,
        take-append n (to_bytes n v) rest (length-to_bytes n v),
        drop-append n (to_bytes n v) rest (length-to_bytes n v),
        of_bytes-to_bytes n v h,
      )
      refl

read_chars-append :
    (t rest : List ℕ)
    → read_chars (some (length t)) (t ++ rest) ≡ record { value = some t; rest = rest }
unfolding read_chars
read_chars-append t rest =
    let e : ltb (length (t ++ rest)) (length t) ≡ false = ground (arith, length-append t rest) in
    rw (e, take-append (length t) t rest refl, drop-append (length t) t rest refl) refl

read_string-bytes :
    (t rest : List ℕ)
    → length t ≤ 65535
    → read_string (to_bytes 2 (length t) ++ (t ++ rest)) ≡ record { value = some t; rest = rest }
unfolding read_string
read_string-bytes t rest h =
    rw (read-to_bytes 2 (length t) (t ++ rest) (omega arith)) (read_chars-append t rest)

read_string-stored :
    (t rest : List ℕ)
    → read_string (field_bytes (text t) ++ rest)
      ≡ record { value = some (if ltb 65535 (length t) then [] else t); rest = rest }
unfolding field_bytes
read_string-stored t rest = elim (Bool-cases (ltb 65535 (length t))) [
  | inl e ↦ rw e (read_string-bytes [] rest (omega arith))
  | inr e ↦
      rw (e, append_assoc (to_bytes 2 (length t)) t rest) (read_string-bytes t rest (ground arith))
]

read-field_bytes :
    (n v : ℕ) (rest : List ℕ)
    → v < byte_range n
    → read n (field_bytes (number n v) ++ rest) ≡ record { value = some v; rest = rest }
unfolding field_bytes
read-field_bytes n v rest h = read-to_bytes n v rest h

read_fields-bytes :
    (fs : List Field) (rest : List ℕ)
    → Fits fs
    → read_fields (map kind fs) (fields_bytes fs ++ rest) ≡ some (map stored fs, rest)
unfolding read_fields fields_bytes
read_fields-bytes [] rest h = refl
read_fields-bytes (number n v ∷ fs) rest h =
    rw
      (
        append_assoc (field_bytes (number n v)) (fields_bytes fs) rest,
        read-field_bytes n v (fields_bytes fs ++ rest) h.0,
        read_fields-bytes fs rest h.1,
      )
      refl
read_fields-bytes (text t ∷ fs) rest h =
    rw
      (
        append_assoc (field_bytes (text t)) (fields_bytes fs) rest,
        read_string-stored t (fields_bytes fs ++ rest),
        read_fields-bytes fs rest h,
      )
      refl

-- Fields written one after another to an empty buffer are read back in order, whatever follows
-- them, except that a text of more than 65535 bytes comes back empty.
pub read_fields-write_fields :
    (fs : List Field) (rest : List ℕ)
    → Fits fs
    → read_fields (map kind fs) (write_fields fs [] ++ rest) ≡ some (map stored fs, rest)
read_fields-write_fields fs rest h = rw (write_fields-bytes fs []) (read_fields-bytes fs rest h)

read_string-cons :
    (a b : ℕ) (r : List ℕ) → read_string (a ∷ b ∷ r) ≡ read_chars (some (of_bytes (a ∷ b ∷ []))) r
unfolding read_string read
read_string-cons a b r = let e : ltb (length (a ∷ b ∷ r)) 2 ≡ false = ground arith in rw e refl

of_bytes_two : (a b : ℕ) → IsBytes (a ∷ b ∷ []) → of_bytes (a ∷ b ∷ []) ≤ 65535
unfolding of_bytes
of_bytes_two a b h = omega arith

write_string-take :
    (a b : ℕ) (r : List ℕ)
    → IsBytes (a ∷ b ∷ [])
    → of_bytes (a ∷ b ∷ []) ≤ length r
    → write_string (take (of_bytes (a ∷ b ∷ [])) r) [] ++ drop (of_bytes (a ∷ b ∷ [])) r ≡ a ∷ b ∷ r
unfolding write_string write
write_string-take a b r h fits =
    let n = of_bytes (a ∷ b ∷ []) in
    let small = of_bytes_two a b h in
    let size : length (take n r) ≡ n = omega (arith, length-take n r) in
    let e : ltb 65535 (length (take n r)) ≡ false = ground (arith, size, small) in
    rw (e, size, to_bytes-of_bytes (a ∷ b ∷ []) h, append_assoc (a ∷ b ∷ []) (take n r) (drop n r))
      (ap (λ t. a ∷ b ∷ t) (take-append-drop n r))

-- Whatever `readString` accepts is exactly what `writeString` would have appended, and a failure
-- has consumed nothing or just the two bytes of the length.
pub read_string_sound :
    (s : List ℕ)
    → IsBytes s
    → ((t : List ℕ) × ((read_string s).value ≡ some t)
        × (write_string t [] ++ (read_string s).rest ≡ s))
      ⊎ (((read_string s).value ≡ none)
          × (((read_string s).rest ≡ s) ⊎ ((read_string s).rest ≡ drop 2 s)))
read_string_sound [] h =
    inr (unfold read_string read in refl, inl (unfold read_string read in refl))
read_string_sound (a ∷ []) h =
    inr (unfold read_string read in refl, inl (unfold read_string read in refl))
read_string_sound (a ∷ b ∷ r) h = elim (Bool-cases (ltb (length r) (of_bytes (a ∷ b ∷ [])))) [
  | inl e ↦
      rw (read_string-cons a b r)
        (inr (unfold read_chars in rw e refl, inr (unfold read_chars in rw e refl)))
  | inr e ↦ rw (read_string-cons a b r) (
      inl (
        take (of_bytes (a ∷ b ∷ [])) r,
        unfold read_chars in rw e refl,
        unfold read_chars in rw e (write_string-take a b r (h.0, ((h.1).0, tt)) (ground arith)),
      ))
]
