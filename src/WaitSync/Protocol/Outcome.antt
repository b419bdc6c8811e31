-- ===== src/WaitSync/Protocol/Outcome.antt =====
-- src/wait_sync.h and src/impl/base/wait_sync.c: what `ompi_sync_wait_mt` returns, against the updates
-- of the structure alone.
mod Tests
use libult.Base.{
  ℕ, ◌≡◌, Bool, true, false, not, ◌&&◌, Option, none, some, List, [], ◌∷◌, ◌++◌, ◌-◌, ◌==◌, ltb,
  leb, if◌then◌else◌, if_true, if_false, Bool-cases, inl, inr, ==_iff, update, Codes,
}
use libult.WaitSync.Protocol.{
  Place, Owner, Pass, is_down, own_lock, take_list, pass_lock, pass_move, signal_lock, Sync, State,
  Move, complete, fail,
}

-- The updates of structure `s`, as if nothing else happened: the completions missing and the status.
unfoldable pub tally : ℕ → Move → ℕ × ℕ → ℕ × ℕ
tally s (complete q u) (missing, status) =
    ((if s == q && (ltb 0 u && leb u missing) then missing - u else missing), status)
tally s (fail q st) (missing, status) =
    if s == q && not (missing == 0) then (0, st) else (missing, status)
tally s m x = x

unfoldable pub tally_all : ℕ → List Move → ℕ × ℕ → ℕ × ℕ
tally_all s [] x = x
tally_all s (m ∷ ms) x = tally_all s ms (tally s m x)

-- `(0 == sync->status) ? SUCCESS : ERROR`
unfoldable pub returned : Codes → Sync → ℕ
returned codes x = if 0 == x.status then codes.success else codes.error

-- The places of a thread that has returned from `ompi_sync_wait_mt`.
abbrev pub is_back : Place → Bool
is_back Place.releasing = true
is_back Place.gone = true
is_back p = false

-- The counts and states are as before.
abbrev Keeps : State → State → Type 0
Keeps σ τ =
    (q : ℕ) → ((τ.sync q).count ≡ (σ.sync q).count) × ((τ.sync q).status ≡ (σ.sync q).status)
