-- ===== src/Storage/PropStream.antt =====
-- PropStream and PropWriteStream of src/fileloader.h. A stream is the list of its bytes from `p`
-- to `end`, a write stream the list of its buffer. Numbers of a signed type are their bit patterns.
pub mod Fields
mod Tests
use xynera_ots.Prelude.{
  ℕ, ◌-◌, Option, none, some, Bool, true, false, List, [], ◌++◌, ltb, if◌then◌else◌, length, take,
  drop,
}
use xynera_ots.Net.Bytes.{to_bytes, of_bytes}

-- What a read returns: its value, or `none` for `false`, and the stream after the call.
pub record Read {ℓ} (A : Type ℓ) : Type ℓ where
  pub value : Option A
  pub rest : List ℕ

-- `n` is `sizeof(T)`.
pub read : ℕ → List ℕ → Read ℕ
read n s =
    if ltb (length s) n
    then record { value = none; rest = s }
    else record { value = some (of_bytes (take n s)); rest = drop n s }

-- The body of `readString` behind the length. A failure here leaves `p` behind the length.
pub read_chars : Option ℕ → List ℕ → Read (List ℕ)
read_chars none s = record { value = none; rest = s }
read_chars (some n) s =
    if ltb (length s) n
    then record { value = none; rest = s }
    else record { value = some (take n s); rest = drop n s }

pub read_string : List ℕ → Read (List ℕ)
unfolding read_chars
read_string s = let r = read 2 s in read_chars r.value r.rest

pub skip : ℕ → List ℕ → Bool × List ℕ
skip n s = if ltb (length s) n then (false, s) else (true, drop n s)

-- PropWriteStream.
pub clear : List ℕ → List ℕ
clear buffer = []

pub write : ℕ → ℕ → List ℕ → List ℕ
write n v buffer = buffer ++ to_bytes n v

pub write_string : List ℕ → List ℕ → List ℕ
unfolding write
write_string str buffer =
    if ltb 65535 (length str) then write 2 0 buffer else write 2 (length str) buffer ++ str
