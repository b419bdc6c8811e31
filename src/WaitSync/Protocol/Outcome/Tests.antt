-- ===== src/WaitSync/Protocol/Outcome/Tests.antt =====
-- src/wait_sync.h: two structures, one with a success and a failure, and one with successes.
use libult.Base.{ℕ, ◌≡◌, refl, true, List, [], ◌∷◌, sample_codes}
use libult.WaitSync.Protocol.{Move, wait, complete, fail, moves, all_init}
use libult.WaitSync.Protocol.Outcome.{returned}

abbrev counts : ℕ → ℕ
counts s = 2

-- The failure of 1 comes after one success; both threads test their counts late.
abbrev schedule : List Move
schedule =
    complete 2 1
    ∷ complete 1 1
    ∷ fail 1 7
    ∷ complete 2 1
    ∷ wait 1 true
    ∷ wait 2 true
    ∷ complete 1 1
    ∷ []

failing : returned sample_codes ((moves schedule (all_init counts)).sync 1) ≡ 0xffff_ffff
unfolding moves all_init returned
failing = refl

succeeding : returned sample_codes ((moves schedule (all_init counts)).sync 2) ≡ 0
unfolding moves all_init returned
succeeding = refl
