-- ===== src/WaitSync/Protocol/Measure.antt =====
-- src/wait_sync.h and src/impl/base/wait_sync.c: how many steps are left to the threads below `n`.
pub mod Decrease
pub mod Bounded
pub mod Ends
mod Tests
use libult.Base.{
  total, total-update, ℕ, zero, suc, ◌≡◌, ◌≢◌, ◌⊎◌, refl, ap, ◌∙◌, ◌+◌, ◌<◌, ◌≤◌, ◌||◌, Bool, true,
  false, ◌==◌, Bool-cases, inl, inr, update, ==_iff, if_true, if_false, arith,
}
use libult.WaitSync.Protocol.{Place, Last, Pass, Sync, State, touch}

-- The steps of a thread from a place on, if nobody wakes it up, and with those that its signal of the
-- next head gives to that one.
unfoldable pub rank : Place → ℕ
rank Place.start = 18
rank Place.entering = 17
rank Place.testing = 16
rank Place.listing = 15
rank Place.inserting = 14
rank Place.deciding = 13
rank Place.falling = 12
rank Place.sleeping = 11
rank Place.woken = 15
rank Place.rechecking = 14
rank Place.driving = 12
rank Place.trimming = 11
rank Place.unlinking = 10
rank Place.handing = 2
rank Place.releasing = 1
rank Place.gone = 0

-- The signaller's steps, and those that its signal gives to the waiting thread.
unfoldable pub last_rank : Last → ℕ
last_rank Last.pending = 9
last_rank Last.locking = 8
last_rank Last.signalling = 7
last_rank Last.unlocking = 2
last_rank Last.clearing = 1
last_rank Last.finished = 0

unfoldable pub pass_rank : Pass → ℕ
pass_rank Pass.idle = 0
pass_rank (Pass.passing h) = 7
pass_rank (Pass.waking h) = 6
pass_rank (Pass.freeing h) = 1

abbrev pub weight : Sync → ℕ
weight x = rank x.wait + last_rank x.last + x.count

-- A late update changes the state once, by the first use of what is destroyed.
abbrev pub fault_rank : Bool → ℕ
fault_rank true = 0
fault_rank false = 1

-- The steps left.
abbrev pub remaining : ℕ → State → ℕ
remaining n σ = fault_rank σ.fault + pass_rank σ.pass + total n λ q. weight (σ.sync q)

-- The threads from `n` on are where they were.
abbrev pub IsOutside : ℕ → State → State → Type 0
IsOutside n σ τ = (q : ℕ) → (q < n → ⊥) → (τ.sync q).wait ≡ (σ.sync q).wait

-- A step that changes nothing, or leaves less.
abbrev pub IsStep : ℕ → State → State → Type 0
IsStep n σ τ = (τ ≡ σ) ⊎ ((remaining n τ < remaining n σ) × IsOutside n σ τ)

-- A change of one structure.
pub change-IsStep :
    (n : ℕ) (σ : State) (s : ℕ) (x : Sync) (τ : State)
    → s < n
    → τ.sync ≡ update σ.sync s x
    → fault_rank τ.fault ≤ fault_rank σ.fault
    → pass_rank τ.pass + weight x < pass_rank σ.pass + weight (σ.sync s)
    → IsStep n σ τ
change-IsStep n σ s x τ l e kept less =
    let t = total-update weight n σ.sync s x l in
    inr (
      rw e (omega arith),
      λ q out. elim (Bool-cases (s == q)) [
        | inl k ↦ absurd (out (ground (arith, (==_iff s q).0 k)))
        | inr k ↦
            ap (λ f. (f q).wait) e ∙ ap (λ (y : Sync). y.wait) (if_false (s == q) x (σ.sync q) k)
      ],
    )

-- An update that changes the fault only.
pub touch-IsStep : (n : ℕ) (σ : State) (s : ℕ) → IsStep n σ (touch s σ)
touch-IsStep n σ s = elim (Bool-cases σ.fault) [
  | inl e ↦ inl (ap (λ b. record σ { fault = b }) (ground arith))
  | inr e ↦ elim (Bool-cases (σ.sync s).destroyed) [
    | inr d ↦ inl (ap (λ b. record σ { fault = b }) (ground arith))
    | inl d ↦ inr (rw e (rw d (omega arith)), λ q out. refl)
  ]
]
