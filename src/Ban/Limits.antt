-- ===== src/Ban/Limits.antt =====
-- What the limit guarantees.
use xynera_ots.Prelude.{
  ℕ, ◌+◌, ◌≤◌, ◌<◌, ◌^◌, ◌≡◌, ◌≢◌, ◌↔◌, ◌⊎◌, inl, inr, false, some, List, [], ◌∷◌, arith,
  Option-cases,
}
use xynera_ots.Ban.{ConnectBlock, Blocks, accept_connection, known, attempt, run}

-- No counter is above five.
abbrev pub Counted : Blocks → Type 0
Counted m = (ip : ℕ) (b : ConnectBlock) → m ip ≡ some b → b.count ≤ 5

attempt-count : (now : ℕ) (b : ConnectBlock) → b.count ≤ 5 → (attempt now b).1.count ≤ 5
unfolding attempt
attempt-count now b h = ground arith

known-count : (now : ℕ) (b : ConnectBlock) → b.count ≤ 5 → (known now b).1.count ≤ 5
unfolding known
known-count now b h = ground (arith, attempt-count now b h)

accept_connection-Counted :
    (ip now : ℕ) (m : Blocks) → Counted m → Counted (accept_connection ip now m).1
unfolding accept_connection
accept_connection-Counted ip now m h i b e = elim (Option-cases (m ip)) [
  | inl none_yet ↦ ground (arith, none_yet, e, h i b)
  | inr (b0, found) ↦ ground (arith, found, e, h i b, h ip b0 found, known-count now b0)
]

-- After any history of attempts, on an empty table too, no counter is above five.
pub run-Counted : (as' : List (ℕ × ℕ)) (m : Blocks) → Counted m → Counted (run as' m)
unfolding run
run-Counted [] m h = h
run-Counted ((ip, now) ∷ as') m h = run-Counted as' _ (accept_connection-Counted ip now m h)

-- A known address is refused exactly while its block lasts, or at the sixth attempt of a row if
-- that comes within half a second of the fifth; then the block lasts three seconds.
pub refused_iff :
    (ip now : ℕ) (m : Blocks) (b : ConnectBlock)
    → m ip ≡ some b
    → b.count ≤ 5
    → b.last_attempt ≤ now
    → now < 2 ^ 62
    → ((accept_connection ip now m).0 ≡ false)
      ↔ ((now < b.block_time) ⊎ ((b.count ≡ 5) × (now ≤ b.last_attempt + 500)))
unfolding accept_connection known attempt
refused_iff ip now m b e c l t = ground arith

known-blocked :
    (now : ℕ) (b : ConnectBlock)
    → now < 2 ^ 62
    → b.block_time < 2 ^ 62
    → (known now b).0 ≡ false
    → (now + 250 < (known now b).1.block_time)
      × ((((known now b).1.block_time ≡ b.block_time + 250) × ((known now b).1.count ≡ b.count))
          ⊎ (((known now b).1.block_time ≡ now + 3000) × ((known now b).1.count ≡ 0)))
unfolding known attempt
known-blocked now b t t' r = ground arith

-- Every refusal leaves the address blocked: for 250 ms more than before, or for three seconds.
pub refused-blocked :
    (ip now : ℕ) (m : Blocks) (b : ConnectBlock)
    → m ip ≡ some b
    → now < 2 ^ 62
    → b.block_time < 2 ^ 62
    → (accept_connection ip now m).0 ≡ false
    → (b' : ConnectBlock) × ((accept_connection ip now m).1 ip ≡ some b')
      × ((now + 250 < b'.block_time)
          × (((b'.block_time ≡ b.block_time + 250) × (b'.count ≡ b.count))
              ⊎ ((b'.block_time ≡ now + 3000) × (b'.count ≡ 0))))
unfolding accept_connection
refused-blocked ip now m b e t t' r =
    let k : (known now b).0 ≡ false = ground arith in
    ((known now b).1, ground arith, known-blocked now b t t' k)

-- An attempt changes nothing of other addresses.
pub accept_connection-other :
    (ip j now : ℕ) (m : Blocks) → j ≢ ip → (accept_connection ip now m).1 j ≡ m j
unfolding accept_connection
accept_connection-other ip j now m h = ground arith
