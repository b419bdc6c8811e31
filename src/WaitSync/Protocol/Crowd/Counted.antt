-- ===== src/WaitSync/Protocol/Crowd/Counted.antt =====
-- src/impl/base/wait_sync.c: what the count of the threads in the progress loop says.
use libult.Base.{
  one, total, total-update, ℕ, ◌≡◌, refl, sym, ◌+◌, ◌%◌, ◌^◌, ◌<◌, Bool, true, false, not, ◌&&◌,
  ◌||◌, ◌==◌, if_true, if_false, Bool-cases, inl, inr, ==_iff, update, neg_word, arith,
}
use libult.Usage.{add, Atomics, IsAtomic}
use libult.Usage.Laws.{thread_op_fetch-eq}
use libult.WaitSync.Protocol.{
  Place, Last, State, Move, wait, signal, complete, fail, spurious, wait_move, signal_move, report,
  report_failure, move,
}
use libult.WaitSync.Protocol.Progress.Steps.{mover}
use libult.WaitSync.Protocol.Crowd.{
  Crowd, joins, parts, is_crowded, keeps_on, crowd_wait, crowd_move,
}

-- The places between the two additions.
abbrev pub drives : Place → Bool
drives Place.driving = true
drives Place.trimming = true
drives p = false

-- The threads below `n` that are in the progress loop or just behind it.
abbrev pub drivers : ℕ → State → ℕ
drivers n σ = total n λ q. one (drives (σ.sync q).wait)

-- The count is that of the threads below `n` that have added themselves, and they are in the loop or
-- just behind it.
pub record IsCounted (n : ℕ) (c : Crowd) : Type 0 where
  pub number : c.num_thread_in_progress ≡ total n (λ q. one (c.counted q)) % 2 ^ 32
  pub places : (q : ℕ) → (c.counted q && not (drives (c.state.sync q).wait)) ≡ false

-- Another thread's step.
wait_move-others :
    (p : Place) (b : Bool) (s : ℕ) (σ : State) (q : ℕ)
    → (s == q) ≡ false
    → drives ((wait_move p b s σ).sync q).wait ≡ drives (σ.sync q).wait
unfolding wait_move
wait_move-others p b s σ q ne = ground arith

signal_move-drives :
    (l : Last) (s : ℕ) (σ : State) (q : ℕ)
    → drives ((signal_move l s σ).sync q).wait ≡ drives (σ.sync q).wait
unfolding signal_move
signal_move-drives l s σ q = ground arith

abbrev is_driving : Place → Bool
is_driving Place.driving = true
is_driving p = false

wait_move_self :
    (p : Place) (b : Bool) (s : ℕ) (σ : State)
    → (σ.sync s).wait ≡ p
    → is_driving p ≡ true
    → drives ((wait_move p b s σ).sync s).wait ≡ true
unfolding wait_move
wait_move_self p b s σ e d = ground arith

-- The step of a thread that has not added itself, or that is in the loop.
keeps_on-places :
    (p : Place) (b : Bool) (s : ℕ) (σ : State) (counted : ℕ → Bool)
    → ((q : ℕ) → (counted q && not (drives (σ.sync q).wait)) ≡ false)
    → (σ.sync s).wait ≡ p
    → (counted s && not (is_driving p)) ≡ false
    → (q : ℕ) → (counted q && not (drives ((wait_move p b s σ).sync q).wait)) ≡ false
keeps_on-places p b s σ counted places e now q = elim (Bool-cases (s == q)) [
  | inl h ↦ let self = wait_move_self p b s σ e in rw (sym ((==_iff s q).0 h)) (ground arith)
  | inr h ↦ ground (arith, wait_move-others p b s σ q h, places q)
]

module _ {at : Atomics} (ok : IsAtomic at) (n : ℕ) (s : ℕ) (l : s < n) where
  joins-number :
      (c : Crowd)
      → c.counted s ≡ false
      → c.num_thread_in_progress ≡ total n (λ q. one (c.counted q)) % 2 ^ 32
      → (joins at s c).num_thread_in_progress
        ≡ total n (λ q. one (update c.counted s true q)) % 2 ^ 32
  joins-number c e h =
      let t = total-update one n c.counted s true l in
      let sum : total n (λ q. one (update c.counted s true q))
          ≡ total n (λ q. one (c.counted q)) + 1 =
        ground arith in
      rw (thread_op_fetch-eq ok true add 32 c.num_thread_in_progress 1, h, sum) (omega arith)

  parts-number :
      (c : Crowd)
      → c.counted s ≡ true
      → c.num_thread_in_progress ≡ total n (λ q. one (c.counted q)) % 2 ^ 32
      → (parts at s c).num_thread_in_progress
        ≡ total n (λ q. one (update c.counted s false q)) % 2 ^ 32
  parts-number c e h =
      let t = total-update one n c.counted s false l in
      let sum : total n (λ q. one (c.counted q))
          ≡ total n (λ q. one (update c.counted s false q)) + 1 =
        ground arith in
      rw (thread_op_fetch-eq ok true add 32 c.num_thread_in_progress (neg_word 32 1), h, sum)
        (omega arith)

  added_place :
      (c : Crowd) (b : Bool) (τ : State)
      → ((q : ℕ) → (c.counted q && not (drives (τ.sync q).wait)) ≡ false)
      → (not b || drives (τ.sync s).wait) ≡ true
      → (q : ℕ) → (update c.counted s b q && not (drives (τ.sync q).wait)) ≡ false
  added_place c b τ places here q = elim (Bool-cases (s == q)) [
    | inl h ↦ rw (if_true (s == q) b (c.counted q) h, sym ((==_iff s q).0 h)) (ground arith)
    | inr h ↦ rw (if_false (s == q) b (c.counted q) h) (places q)
  ]

module _ {at : Atomics} (ok : IsAtomic at) (max : ℕ) (n : ℕ) where
  keeps_on-IsCounted :
      (p : Place) (s : ℕ) (c : Crowd)
      → IsCounted n c
      → (c.state.sync s).wait ≡ p
      → (c.counted s && not (is_driving p)) ≡ false
      → IsCounted n (keeps_on at max p s c)
  keeps_on-IsCounted p s c i e now = record {
    number = i.number;
    places = keeps_on-places p (is_crowded at max c) s c.state c.counted i.places e now;
  }

  crowd_wait-IsCounted :
      (p : Place) (s : ℕ) (c : Crowd)
      → s < n
      → IsCounted n c
      → (c.state.sync s).wait ≡ p
      → IsCounted n (crowd_wait at max p s c)
  unfolding crowd_wait
  crowd_wait-IsCounted Place.driving s c l i e = elim (Bool-cases (c.counted s)) [
    | inl h ↦ rw h (keeps_on-IsCounted Place.driving s c i e (ground arith))
    | inr h ↦ rw h (record {
      number = joins-number ok n s l c h i.number;
      places = added_place ok n s l c true c.state i.places (ground arith);
    })
  ]
  crowd_wait-IsCounted Place.trimming s c l i e = elim (Bool-cases (c.counted s)) [
    | inl h ↦ rw h (record {
      number = parts-number ok n s l c h i.number;
      places = added_place ok n s l c false c.state i.places refl;
    })
    | inr h ↦ rw h (keeps_on-IsCounted Place.trimming s c i e (ground arith))
  ]
  crowd_wait-IsCounted p s c l i e = keeps_on-IsCounted p s c i e (ground (arith, i.places s))

  pub crowd_move-IsCounted :
      (m : Move) (c : Crowd) → mover m < n → IsCounted n c → IsCounted n (crowd_move at max m c)
  unfolding crowd_move move report report_failure
  crowd_move-IsCounted (wait s b) c l i = crowd_wait-IsCounted (c.state.sync s).wait s c l i refl
  crowd_move-IsCounted (signal s) c l i = record {
    number = i.number;
    places = λ q. ground (arith, signal_move-drives (c.state.sync s).last s c.state q, i.places q);
  }
  crowd_move-IsCounted (complete s u) c l i = record {
    number = i.number;
    places = λ q. ground (arith, i.places q);
  }
  crowd_move-IsCounted (fail s status) c l i = record {
    number = i.number;
    places = λ q. ground (arith, i.places q);
  }
  crowd_move-IsCounted (spurious s) c l i = record {
    number = i.number;
    places = λ q. ground (arith, i.places q);
  }
