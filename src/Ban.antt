-- ===== src/Ban.antt =====
-- Ban::acceptConnection of src/ban.cpp: the limit on connections from one address. The map is a
-- function of the address; the time of each call is an argument.
pub mod Limits
mod Tests
use xynera_ots.Prelude.{
  ℕ, ◌+◌, ◌-◌, ◌%◌, ◌^◌, Bool, true, false, ◌||◌, Option, none, some, List, [], ◌∷◌, ltb, leb, ◌==◌,
  if◌then◌else◌,
}

abbrev pub u64 : ℕ → ℕ
u64 n = n % 2 ^ 64

pub record ConnectBlock : Type 0 where
  pub last_attempt : ℕ
  pub block_time : ℕ
  pub count : ℕ

abbrev pub Blocks : Type 0
Blocks = ℕ → Option ConnectBlock

abbrev pub put : Blocks → ℕ → ConnectBlock → Blocks
put m ip b i = if i == ip then some b else m i

-- `a <= k` for an int64_t `a`, given by its bit pattern, and a small `k`.
abbrev pub le_signed : ℕ → ℕ → Bool
le_signed a k = leb (2 ^ 63) a || leb a k

-- The part behind the test of `blockTime`.
attempt : ℕ → ConnectBlock → Bool × ConnectBlock
attempt now b =
    let diff = u64 (now + 2 ^ 64 - b.last_attempt) in
    let counted = (b.count + 1) % 2 ^ 32 in
    if le_signed diff 5000
    then (if ltb 5 counted
        then (if le_signed diff 500
            then (false, record { last_attempt = now; block_time = u64 (now + 3000); count = 0 })
            else (true, record b { last_attempt = now; count = 0 }))
        else (true, record b { last_attempt = now; count = counted }))
    else (true, record b { last_attempt = now; count = 1 })

known : ℕ → ConnectBlock → Bool × ConnectBlock
unfolding attempt
known now b =
    if ltb now b.block_time
    then (false, record b { block_time = u64 (b.block_time + 250) })
    else attempt now b

pub accept_connection : ℕ → ℕ → Blocks → Bool × Blocks
unfolding known
accept_connection ip now m = elim (m ip) [
  | none ↦ (true, put m ip (record { last_attempt = now; block_time = 0; count = 1 }))
  | some b ↦ let (ok, b') = known now b in (ok, put m ip b')
]

-- A history of attempts, each an address and a time.
pub run : List (ℕ × ℕ) → Blocks → Blocks
run [] m = m
run ((ip, now) ∷ as') m = run as' (accept_connection ip now m).1
