-- ===== src/WaitSync/Wait/Returns.antt =====
-- src/impl/base/wait_sync.c and src/wait_sync.h: the waits return once the count is down, and not
-- before.
use libult.Base.{
  ℕ, ◌≡◌, ap, ◌∙◌, Ptr, Bool, true, false, not, ◌&&◌, Option, some, List, [], ◌∷◌, ◌++◌, ◌==◌, leb,
  if◌then◌else◌, if_true, if_false, Bool-cases, inl, inr, Codes,
}
use libult.WaitSync.State.{Mem, mutex_lock, mutex_unlock, sleep}
use libult.WaitSync.Pending.{insert_locked, trim_locked}
use libult.WaitSync.Wait.{
  Round, Meanwhile, is_open, calls, progress_loop, check_status, i_am_done, ompi_sync_wait_mt,
}

-- A round behind which the count is not positive, whatever memory was before it.
abbrev pub IsLast : Ptr → Round → Type 0
IsLast sync r = (m : Mem) → is_open sync (r.others m) ≡ false

-- A wait that ended within the rounds, with the count down.
abbrev pub Ended : Ptr → Option (Mem × List Round) → Type 0
Ended sync out = (m : Mem) × (rest : List Round) × (out ≡ some (m, rest)) × (is_open sync m ≡ false)

pub progress_loop-closed :
    (sync : Ptr) (rounds : List Round) (m : Mem)
    → is_open sync m ≡ false
    → progress_loop sync rounds m ≡ some (m, rounds)
unfolding progress_loop
progress_loop-closed sync [] m e = if_false (is_open sync m) _ _ e
progress_loop-closed sync (r ∷ rounds) m e = if_false (is_open sync m) _ _ e

progress_loop-Ended :
    (sync : Ptr) (rounds more : List Round) (last : Round) (m : Mem)
    → IsLast sync last
    → Ended sync (progress_loop sync (rounds ++ last ∷ more) m)
unfolding progress_loop
progress_loop-Ended sync [] more last m closes = elim (Bool-cases (is_open sync m)) [
  | inl e ↦ (
    last.others m,
    more,
    if_true (is_open sync m) _ _ e ∙ progress_loop-closed sync more (last.others m) (closes m),
    closes m,
  )
  | inr e ↦ (m, last ∷ more, if_false (is_open sync m) _ _ e, e)
]
progress_loop-Ended sync (r ∷ rounds) more last m closes = elim (Bool-cases (is_open sync m)) [
  | inl e ↦
      let (m', rest, eq, done) = progress_loop-Ended sync rounds more last (r.others m) closes in
      (m', rest, if_true (is_open sync m) _ _ e ∙ eq, done)
  | inr e ↦ (m, r ∷ (rounds ++ last ∷ more), if_false (is_open sync m) _ _ e, e)
]

-- Does the thread go to sleep?
abbrev sleeps : ℕ → Ptr → ℕ → Mem → Bool
sleeps max sync n m = not (sync == m.list) && leb max n

check_status-Ended :
    (max : ℕ) (sync : Ptr) (n : ℕ) (rounds more : List Round) (last : Round) (m : Mem)
    → IsLast sync last
    → Ended sync (check_status max sync n (rounds ++ last ∷ more) m)
unfolding check_status
check_status-Ended max sync n [] more last m closes = elim (Bool-cases (sleeps max sync n m)) [
  | inl e ↦ (
    calls (mutex_unlock sync) (last.others (calls (sleep sync) m)),
    more,
    if_true (sleeps max sync n m) _ _ e
        ∙ if_false (is_open sync (last.others (calls (sleep sync) m))) _ _ (closes _),
    closes _,
  )
  | inr e ↦
      let (m', rest, eq, done) =
        progress_loop-Ended sync [] more last (calls (mutex_unlock sync) m) closes in
      (m', rest, if_false (sleeps max sync n m) _ _ e ∙ eq, done)
]
check_status-Ended max sync n (r ∷ rounds) more last m closes =
    elim (Bool-cases (sleeps max sync n m)) [
      | inl e ↦
          let woken = r.others (calls (sleep sync) m) in
          elim (Bool-cases (is_open sync woken)) [
            | inl f ↦
                let (m', rest, eq, done) =
                  check_status-Ended max sync r.in_progress rounds more last woken closes in
                (
                  m',
                  rest,
                  if_true (sleeps max sync n m) _ _ e ∙ if_true (is_open sync woken) _ _ f ∙ eq,
                  done,
                )
            | inr f ↦ (
              calls (mutex_unlock sync) woken,
              rounds ++ last ∷ more,
              if_true (sleeps max sync n m) _ _ e ∙ if_false (is_open sync woken) _ _ f,
              f,
            )
          ]
      | inr e ↦
          let (m', rest, eq, done) =
            progress_loop-Ended sync (r ∷ rounds) more last (calls (mutex_unlock sync) m) closes in
          (m', rest, if_false (sleeps max sync n m) _ _ e ∙ eq, done)
    ]

-- A call of `ompi_sync_wait_mt` for a structure whose count is positive when it is tested, the second
-- time with the structure's lock, returns by the round that completes it, whatever happens in the
-- rounds before and between the places named, whether the thread sleeps, is promoted, or drives the
-- progress engine. It leaves its wait with the count down and not before, then it takes the structure
-- off the list and passes on the duties, and it returns SUCCESS if the state is then 0 and ERROR if
-- not.
pub ompi_sync_wait_mt-returns :
    (codes : Codes) (max : ℕ) (sync : Ptr) (mean : Meanwhile) (rounds more : List Round)
    (last : Round) (m : Mem)
    → IsLast sync last
    → is_open sync m ≡ true
    → is_open sync (mean.enter m) ≡ true
    → (woken : Mem) × (rest : List Round) × (is_open sync woken ≡ false)
      × (ompi_sync_wait_mt codes max sync mean (rounds ++ last ∷ more) m
          ≡ some (
            (if 0 == (mean.leave (trim_locked sync (mean.trim woken))).status sync
                then codes.success
                else codes.error),
            mean.leave (trim_locked sync (mean.trim woken)),
            rest,
          ))
unfolding ompi_sync_wait_mt
ompi_sync_wait_mt-returns codes max sync mean rounds more last m closes before still =
    let listed =
      mean.listed.others
        (insert_locked sync (mean.list_lock (calls (mutex_lock sync) (mean.enter m)))) in
    let (woken, rest, eq, down) =
      check_status-Ended max sync mean.listed.in_progress rounds more last listed closes in
    (
      woken,
      rest,
      down,
      if_true (is_open sync m) _ _ before
          ∙ if_true (is_open sync (mean.enter m)) _ _ still
          ∙ ap (i_am_done codes sync mean) eq,
    )
