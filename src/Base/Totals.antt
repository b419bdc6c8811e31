-- ===== src/Base/Totals.antt =====
-- Sums over the numbers below `n`, of threads and of structures.
use Prim.Native.Nat.{ℕ, zero, suc, ◌+◌, ◌≤◌, ◌<◌}
use mathlib.Core.Path.{◌≡◌, refl, ap, sym, ◌∙◌}
use mathlib.Core.Logic.{inl, inr}
use mathlib.Core.Bool.{Bool, true, false, not, ◌&&◌}
use native.Mathlib.Omega.{arith}
use libult.Base.Tests.{◌==◌, ==_iff, Bool-cases, if_true, if_false, if◌then◌else◌}
use libult.Base.Lists.{update}

unfoldable pub total : ℕ → (ℕ → ℕ) → ℕ
total zero f = 0
total (suc n) f = f n + total n f

total-outside :
    {A : Type 0} (measure : A → ℕ) (n : ℕ) (f : ℕ → A) (s : ℕ) (x : A)
    → (s < n → ⊥)
    → total n (λ q. measure (update f s x q)) ≡ total n (λ q. measure (f q))
unfolding total
total-outside measure zero f s x out = refl
total-outside measure (suc n) f s x out =
    let rest = total-outside measure n f s x (λ l. out (omega arith)) in
    elim (Bool-cases (s == n)) [
      | inl e ↦ absurd (out (ground (arith, (==_iff s n).0 e)))
      | inr e ↦ rw (if_false (s == n) x (f n) e, rest) refl
    ]

-- One item changes.
pub total-update :
    {A : Type 0} (measure : A → ℕ) (n : ℕ) (f : ℕ → A) (s : ℕ) (x : A)
    → s < n
    → total n (λ q. measure (update f s x q)) + measure (f s)
      ≡ total n (λ q. measure (f q)) + measure x
unfolding total
total-update measure zero f s x l = omega arith
total-update measure (suc n) f s x l = elim (Bool-cases (s == n)) [
  | inl e ↦
      let same = (==_iff s n).0 e in
      let rest = total-outside measure n f s x (λ k. omega arith) in
      let here = ap (λ v. measure (f v)) same in rw (if_true (s == n) x (f n) e, rest) (omega arith)
  | inr e ↦
      let rest = total-update measure n f s x (ground arith) in
      rw (if_false (s == n) x (f n) e) (omega arith)
]

-- A mark counts as 1.
abbrev pub one : Bool → ℕ
one b = if b then 1 else 0

-- A count of marks is at most one of weaker marks.
pub total-le :
    (n : ℕ) (f g : ℕ → Bool)
    → ((q : ℕ) → (f q && not (g q)) ≡ false)
    → total n (λ q. one (f q)) ≤ total n (λ q. one (g q))
unfolding total
total-le zero f g h = omega arith
total-le (suc n) f g h =
    let rest = total-le n f g h in
    let here : one (f n) ≤ one (g n) = ground (arith, h n) in omega arith

-- One of those that are marked is there.
pub one-le-total :
    (n : ℕ) (f : ℕ → Bool) (s : ℕ) → s < n → f s ≡ true → 1 ≤ total n (λ q. one (f q))
unfolding total
one-le-total zero f s l e = absurd (omega arith)
one-le-total (suc n) f s l e = elim (Bool-cases (s == n)) [
  | inl h ↦ let here : one (f n) ≡ 1 = ap one (ap f (sym ((==_iff s n).0 h)) ∙ e) in omega arith
  | inr h ↦ let rest = one-le-total n f s (ground arith) e in omega arith
]

pub total-le-length : (n : ℕ) (f : ℕ → Bool) → total n (λ q. one (f q)) ≤ n
unfolding total
total-le-length zero f = omega arith
total-le-length (suc n) f =
    let rest = total-le-length n f in let here : one (f n) ≤ 1 = ground arith in omega arith

pub total-false : (n : ℕ) → total n (λ q. one false) ≡ 0
unfolding total
total-false zero = refl
total-false (suc n) = omega (arith, total-false n)
