-- ===== src/Ban/Tests.antt =====
-- One address that connects six times within a tenth of a second.
use xynera_ots.Prelude.{◌+◌, ◌<◌, ◌≤◌, ◌≡◌, ◌↔◌, ◌⊎◌, inr, refl, false, none, some, [], ◌∷◌, arith}
use xynera_ots.Ban.{ConnectBlock, Blocks, put, accept_connection, run}
use xynera_ots.Ban.Limits.{Counted, run-Counted, refused_iff, refused-blocked}

abbrev nobody : Blocks
nobody ip = none

abbrev busy : ConnectBlock
busy = record { last_attempt = 1000; block_time = 0; count = 5 }

abbrev one_busy : Blocks
one_busy = put nobody 7 busy

burst :
    (accept_connection 7 1100
      (run ((7, 1000) ∷ (7, 1010) ∷ (7, 1020) ∷ (7, 1030) ∷ (7, 1040) ∷ []) nobody)).0
    ≡ false
unfolding accept_connection run
burst = refl

run-Counted_example : Counted (run ((7, 1000) ∷ (8, 1010) ∷ []) nobody)
run-Counted_example = run-Counted ((7, 1000) ∷ (8, 1010) ∷ []) nobody (λ ip b e. ground arith)

refused_iff_example :
    ((accept_connection 7 1100 one_busy).0 ≡ false)
    ↔ ((1100 < 0) ⊎ ((busy.count ≡ 5) × (1100 ≤ 1000 + 500)))
refused_iff_example =
    refused_iff 7 1100 one_busy busy refl (omega arith) (omega arith) (omega arith)

refused-blocked_example :
    (b' : ConnectBlock) × ((accept_connection 7 1100 one_busy).1 7 ≡ some b')
    × ((1100 + 250 < b'.block_time)
        × (((b'.block_time ≡ 0 + 250) × (b'.count ≡ 5))
            ⊎ ((b'.block_time ≡ 1100 + 3000) × (b'.count ≡ 0))))
refused-blocked_example =
    refused-blocked 7 1100 one_busy busy refl (omega arith) (omega arith) refused
  where
    refused : (accept_connection 7 1100 one_busy).0 ≡ false
    refused =
        (refused_iff 7 1100 one_busy busy refl (omega arith) (omega arith) (omega arith)).1
          (inr (refl, omega arith))
