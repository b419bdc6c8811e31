-- ===== src/WaitSync/Sample.antt =====
-- Memories for examples. In the first the structures 10, 20 and 30 wait on a ring, for 2, 1 and 3 completions.
use libult.Base.{Bool, true, false, [], ◌∷◌, arith, update}
use libult.WaitSync.State.{Mem}
use libult.WaitSync.Pending.Ring.{IsRing}

abbrev pub three : Mem
three = record {
  count = update (update (update (λ _. 0) 10 2) 20 1) 30 3;
  status = λ _. 0;
  next = update (update (update (λ _. 0) 10 20) 20 30) 30 10;
  prev = update (update (update (λ _. 0) 10 30) 20 10) 30 20;
  signaling = λ _. true;
  uses_threads = true;
  list = 10;
  trace = [];
}

pub three-IsRing : IsRing three (10 ∷ 20 ∷ 30 ∷ [])
three-IsRing = ground arith

-- Nothing pending, with threads in use or not.
abbrev pub quiet : Bool → Mem
quiet uses_threads = record {
  count = λ _. 0;
  status = λ _. 0;
  next = λ _. 0;
  prev = λ _. 0;
  signaling = λ _. false;
  uses_threads = uses_threads;
  list = 0;
  trace = [];
}
