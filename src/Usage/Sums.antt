-- ===== src/Usage/Sums.antt =====
-- src/thread_usage.h: threads that add to one cell, in any order.
use mathlib.Core.List.{Perm, Permᴰ}
use mathlib.Core.Logic.{∥∥₁_elim}
use native.Mathlib.Nat.{add_assoc, add-zero, mod-add-mod, mod-eq_of_lt, ℕ_set}
use libult.Base.{
  ℕ, ◌≡◌, refl, ◌<◌, ◌^◌, ◌%◌, ◌+◌, Bool, List, [], ◌∷◌, ap, sym, ◌∙◌, arith, sum, add_word,
}
use libult.Usage.{add, Atomics, IsAtomic, thread_op_fetch}
use libult.Usage.Laws.{thread_op_fetch-eq}

sum-Permᴰ : {ds es : List ℕ} → Permᴰ ds es → sum es ≡ sum ds
unfolding sum
sum-Permᴰ Permᴰ.nil = refl
sum-Permᴰ (Permᴰ.cons e p) = omega (arith, sum-Permᴰ p)
sum-Permᴰ (Permᴰ.swap e f) = omega arith
sum-Permᴰ (Permᴰ.trans p q) = sum-Permᴰ q ∙ sum-Permᴰ p

-- A run of `thread_add_fetch_W` calls on one cell, one call for each operand.
pub run_adds : Atomics → Bool → ℕ → ℕ → List ℕ → ℕ
run_adds at u w c [] = c
run_adds at u w c (d ∷ ds) = run_adds at u w (thread_op_fetch at u add w c d).0 ds

module _ {at : Atomics} (ok : IsAtomic at) (u : Bool) (w : ℕ) where
  run_adds-sum_mod : (c : ℕ) (ds : List ℕ) → run_adds at u w c ds % 2 ^ w ≡ (c + sum ds) % 2 ^ w
  unfolding run_adds sum
  run_adds-sum_mod c [] = ap (λ n. n % 2 ^ w) (sym (add-zero c))
  run_adds-sum_mod c (d ∷ ds) = rw (thread_op_fetch-eq ok u add w c d) (
      run_adds-sum_mod (add_word w c d) ds
      ∙ (mod-add-mod (c + d) (2 ^ w) (sum ds) ∙ ap (λ n. n % 2 ^ w) (add_assoc c d (sum ds))))

  run_adds-lt : (c : ℕ) (ds : List ℕ) → c < 2 ^ w → run_adds at u w c ds < 2 ^ w
  unfolding run_adds
  run_adds-lt c [] h = h
  run_adds-lt c (d ∷ ds) h =
      rw (thread_op_fetch-eq ok u add w c d) (run_adds-lt (add_word w c d) ds (grind arith))

  run_adds-eq-sum : (c : ℕ) (ds : List ℕ) → c < 2 ^ w → run_adds at u w c ds ≡ (c + sum ds) % 2 ^ w
  run_adds-eq-sum c ds h = sym (mod-eq_of_lt (run_adds-lt c ds h)) ∙ run_adds-sum_mod c ds

  -- Calls of `thread_add_fetch_W` on one cell, whichever order they come in, leave the sum of the
  -- old content and all operands, with wrap-around: no update is lost, and the order does not
  -- matter. It supposes the documented atomic operations and a cell that fits in `w` bits.
  pub run_adds-perm :
      (c : ℕ) {ds es : List ℕ}
      → c < 2 ^ w
      → Perm ds es
      → (run_adds at u w c es ≡ (c + sum ds) % 2 ^ w)
        × (run_adds at u w c es ≡ run_adds at u w c ds)
  run_adds-perm c {ds} {es} h p =
      let same : sum es ≡ sum ds = ∥∥₁_elim p (ℕ_set (sum es) (sum ds)) sum-Permᴰ in
      let total = run_adds-eq-sum c es h ∙ ap (λ n. (c + n) % 2 ^ w) same in
      (total, total ∙ sym (run_adds-eq-sum c ds h))
