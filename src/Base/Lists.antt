-- ===== src/Base/Lists.antt =====
-- Lists of addresses, and a memory that holds one map for each field of a structure.
use Prim.Native.Nat.{ℕ, suc, ◌+◌}
use mathlib.Core.Path.{◌≡◌, refl, sym, ap, ◌∙◌, fun_ext}
use mathlib.Core.Logic.{inl, inr}
use mathlib.Core.Bool.{Bool, true, false, ◌||◌, or_assoc}
use mathlib.Core.List.{List, [], ◌∷◌, ◌++◌}
use native.Mathlib.Omega.{arith}
use libult.Base.Tests.{◌==◌, ==_iff, Bool-cases, if_true, if_false, if◌then◌else◌}

-- An address; `NULL` is 0.
abbrev pub Ptr : Type 0
Ptr = ℕ

abbrev pub null : Ptr
null = 0

-- A write to one field of the structure at address `p`.
abbrev pub update {ℓ} : {A : Type ℓ} → (Ptr → A) → Ptr → A → Ptr → A
update f p a q = if p == q then a else f q

module _ {ℓ} {A : Type ℓ} where
  abbrev pub length : List A → ℕ
  length [] = 0
  length (_ ∷ xs) = suc (length xs)

  pub length-append : (xs ys : List A) → length (xs ++ ys) ≡ length xs + length ys
  length-append [] ys = omega arith
  length-append (x ∷ xs) ys = omega (arith, length-append xs ys)

  -- Holds of every element.
  abbrev pub All {κ} : (A → Type κ) → List A → Type κ
  All P [] = Unit
  All P (x ∷ xs) = P x × All P xs

-- Is the address in the list?
abbrev pub has : Ptr → List Ptr → Bool
has a [] = false
has a (x ∷ xs) = a == x || has a xs

infix 40 ◌∈◌ ◌∉◌
abbrev pub ◌∈◌ : Ptr → List Ptr → Type 0
a ∈ xs = has a xs ≡ true

abbrev pub ◌∉◌ : Ptr → List Ptr → Type 0
a ∉ xs = has a xs ≡ false

-- No address twice.
abbrev pub IsDistinct : List Ptr → Type 0
IsDistinct [] = Unit
IsDistinct (x ∷ xs) = (x ∉ xs) × IsDistinct xs

pub has-append : (a : Ptr) (xs ys : List Ptr) → has a (xs ++ ys) ≡ (has a xs || has a ys)
has-append a [] ys = refl
has-append a (x ∷ xs) ys = rw (has-append a xs ys, or_assoc)

-- The parts of a list without repetition share nothing.
abbrev pub Disjoint : List Ptr → List Ptr → Type 0
Disjoint xs ys = (q : Ptr) → q ∈ xs → q ∉ ys

pub IsDistinct-split :
    (xs ys : List Ptr) → IsDistinct (xs ++ ys) → IsDistinct xs × IsDistinct ys × Disjoint xs ys
IsDistinct-split [] ys d = (tt, d, λ q h. cc)
IsDistinct-split (x ∷ xs) ys (o, d) =
    let (l, r, apart) = IsDistinct-split xs ys d in
    ((ground (arith, has-append x xs ys), l), r, λ q h. ground (arith, has-append x xs ys, apart q))

pub IsDistinct-append :
    (xs ys : List Ptr) → IsDistinct xs → IsDistinct ys → Disjoint xs ys → IsDistinct (xs ++ ys)
IsDistinct-append [] ys l r apart = r
IsDistinct-append (x ∷ xs) ys (o, l) r apart = (
  ground (arith, has-append x xs ys, apart x),
  IsDistinct-append xs ys l r (λ q h. apart q (ground arith)),
)

-- Of two writes to one place the second counts.
pub update-update {ℓ} :
    {A : Type ℓ} (f : Ptr → A) (p : Ptr) (a b : A) → update (update f p a) p b ≡ update f p b
update-update f p a b = fun_ext λ q. elim (Bool-cases (p == q)) [ inl e ↦ rw e | inr e ↦ rw e ]

unfoldable pub sum : List ℕ → ℕ
sum [] = 0
sum (x ∷ xs) = x + sum xs

-- A write of what is there changes nothing.
pub update_self {ℓ} : {A : Type ℓ} (f : Ptr → A) (p : Ptr) (a : A) → f p ≡ a → update f p a ≡ f
update_self f p a e = fun_ext λ q. elim (Bool-cases (p == q)) [
  | inl h ↦ rw h (sym e ∙ ap f ((==_iff p q).0 h))
  | inr h ↦ rw h
]

-- The last address of `p ∷ xs`.
abbrev pub last : Ptr → List Ptr → Ptr
last p [] = p
last p (x ∷ xs) = last x xs

pub last-mem : (p : Ptr) (xs : List Ptr) → last p xs ∈ p ∷ xs
last-mem p [] = ground arith
last-mem p (x ∷ xs) = ground (arith, last-mem x xs)

pub IsDistinct-snoc : (s : Ptr) (xs : List Ptr) → IsDistinct xs → s ∉ xs → IsDistinct (xs ++ s ∷ [])
IsDistinct-snoc s [] d out = (refl, tt)
IsDistinct-snoc s (x ∷ xs) d out =
    (rw (has-append x xs (s ∷ [])) (ground arith), IsDistinct-snoc s xs d.1 (ground arith))

-- The first occurrence taken off.
abbrev pub without : Ptr → List Ptr → List Ptr
without x [] = []
without x (y ∷ ys) = if x == y then ys else y ∷ without x ys

-- An item taken off a list without repetition is not there any more, and all others are.
pub has-without :
    (x y : Ptr) (xs : List Ptr)
    → IsDistinct xs
    → has y (without x xs) ≡ (if x == y then false else has y xs)
has-without x y [] d = elim (Bool-cases (x == y)) [
  | inl e ↦ sym (if_true _ _ _ e)
  | inr e ↦ sym (if_false _ _ _ e)
]
has-without x y (z ∷ zs) (out, d) = elim (Bool-cases (x == z)) [
  | inl e ↦ ap (has y) (if_true (x == z) zs _ e) ∙ ground (arith, out)
  | inr e ↦ ap (has y) (if_false (x == z) zs _ e) ∙ ground (arith, has-without x y zs d)
]

pub IsDistinct-without : (x : Ptr) (xs : List Ptr) → IsDistinct xs → IsDistinct (without x xs)
IsDistinct-without x [] d = tt
IsDistinct-without x (z ∷ zs) (out, d) = elim (Bool-cases (x == z)) [
  | inl e ↦ rw (if_true (x == z) zs (z ∷ without x zs) e) d
  | inr e ↦
      rw (if_false (x == z) zs (z ∷ without x zs) e)
        (ground (arith, has-without x z zs d), IsDistinct-without x zs d)
]
