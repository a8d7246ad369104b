-- ===== src/Common/Lists.antt =====
-- Lists: the length, and one element taken out.
use Prim.Native.Nat.{ℕ, suc}
use mathlib.Core.Path.{◌≡◌, refl, ap, sym, subst, ◌∙◌}
use mathlib.Core.Bool.{Bool, true, false, not, ◌&&◌, ◌||◌}
use toy_os.Common.Tests.{◌==◌, if◌then◌else◌, Bool-cases}
use native.Mathlib.Omega.{arith}
use mathlib.Core.Logic.{inl, inr}
use mathlib.Core.List.{List, [], ◌∷◌, ◌++◌}

module _ {ℓ} {A : Type ℓ} where
  -- The length of a list.
  abbrev pub length : List A → ℕ
  length [] = 0
  length (x ∷ xs) = suc (length xs)

  pub length-snoc : (xs : List A) (x : A) → length (xs ++ x ∷ []) ≡ suc (length xs)
  length-snoc [] x = refl
  length-snoc (y ∷ xs) x = ap suc (length-snoc xs x)

  -- The second list is the first without one occurrence of an element.
  pub data Takes (x : A) : List A → List A → Type ℓ where
    takes_here : {xs : List A} → Takes x (x ∷ xs) xs
    takes_there : {y : A} {xs ys : List A} → Takes x xs ys → Takes x (y ∷ xs) (y ∷ ys)

  pub length-Takes : {x : A} {xs ys : List A} → Takes x xs ys → length xs ≡ suc (length ys)
  length-Takes takes_here = refl
  length-Takes (takes_there t) = ap suc (length-Takes t)

-- Membership in a list of numbers, and the list without the first occurrence of one.
abbrev pub elem : ℕ → List ℕ → Bool
elem x [] = false
elem x (y ∷ ys) = x == y || elem x ys

unfoldable pub erase : ℕ → List ℕ → List ℕ
erase x [] = []
erase x (y ∷ ys) = if x == y then ys else y ∷ erase x ys

-- No number occurs twice.
pub data Distinct : List ℕ → Type 0 where
  distinct_nil : Distinct []
  distinct_cons : {x : ℕ} {xs : List ℕ} → elem x xs ≡ false → Distinct xs → Distinct (x ∷ xs)

and_true : (b : Bool) → b ≡ (b && true)
and_true true = refl
and_true false = refl

pub elem-erase :
    (x y : ℕ) (ys : List ℕ) → Distinct ys → elem y (erase x ys) ≡ (elem y ys && not (y == x))
unfolding erase
elem-erase x y [] d = refl
elem-erase x y (z ∷ zs) (distinct_cons new d) =
    let ih = elem-erase x y zs d in
    elim (Bool-cases (x == z)) [
      | inl e ↦ elim (Bool-cases (y == z)) [
        | inl f ↦
            let same : y ≡ z = ground arith in
            let gone : elem y zs ≡ false = subst (λ k. elem k zs ≡ false) (sym same) new in
            let off : (y == x) ≡ true = ground arith in rw (e, f, off) gone
        | inr f ↦ let off : (y == x) ≡ false = ground arith in rw (e, f, off) (and_true (elem y zs))
      ]
      | inr e ↦ elim (Bool-cases (y == z)) [
        | inl f ↦ let off : (y == x) ≡ false = ground arith in rw (e, f, off)
        | inr f ↦ rw (e, f) ih
      ]
    ]

pub erase-Distinct : (x : ℕ) (ys : List ℕ) → Distinct ys → Distinct (erase x ys)
unfolding erase
erase-Distinct x [] d = d
erase-Distinct x (z ∷ zs) (distinct_cons new d) = elim (Bool-cases (x == z)) [
  | inl e ↦ rw e d
  | inr e ↦ rw e (distinct_cons (elem-erase x z zs d ∙ rw new) (erase-Distinct x zs d))
]

pub Distinct-head : {x : ℕ} {xs : List ℕ} → Distinct (x ∷ xs) → elem x xs ≡ false
Distinct-head (distinct_cons new d) = new

pub Distinct-tail : {x : ℕ} {xs : List ℕ} → Distinct (x ∷ xs) → Distinct xs
Distinct-tail (distinct_cons new d) = d

pub elem-cons : (o x : ℕ) (xs : List ℕ) → elem o xs ≡ true → elem o (x ∷ xs) ≡ true
elem-cons o x xs e = elim (Bool-cases (o == x)) [ inl d ↦ rw d | inr d ↦ rw (d, e) ]

pub elem-cons_false : (o x : ℕ) (xs : List ℕ) → elem o (x ∷ xs) ≡ false → elem o xs ≡ false
elem-cons_false o x xs e = elim (Bool-cases (elem o xs)) [
  | inl there ↦ cc (elem-cons o x xs there, e)
  | inr gone ↦ gone
]
