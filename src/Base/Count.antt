-- ===== src/Base/Count.antt =====
-- Counting the voters that pass a test: two majorities of one list share an element.
use Prim.Native.Nat.{◌+◌, ◌≤◌}
use mathlib.Core.Path.{◌≡◌, refl, subst}
use mathlib.Core.Logic.{◌⊎◌, inl, inr}
use mathlib.Core.Bool.{Bool, true, false}
use mathlib.Core.List.{List, [], ◌∷◌}
use native.Mathlib.Omega.{arith}
use matricxon.Base.Tests.{Bool-cases}
use matricxon.Base.Equality.{Eq, beq_self}
use matricxon.Base.Lists.{length, count_by, contains, In, Distinct}

module _ {A : Type 0} where
  -- Either the two tests pass on at most all elements together, or one element passes both.
  pub overlap :
      (p q : A → Bool) (xs : List A)
      → (count_by p xs + count_by q xs ≤ length xs)
        ⊎ ((a : A) × In a xs × (p a ≡ true) × (q a ≡ true))
  overlap p q [] = inl (omega arith)
  overlap p q (x ∷ xs) = elim (overlap p q xs) [
    | inr (a, m, h, k) ↦ inr (a, inr m, h, k)
    | inl l ↦ elim (Bool-cases (p x)) [
      | inl h ↦ elim (Bool-cases (q x)) [
        | inl k ↦ inr (x, inl refl, h, k)
        | inr k ↦ inl (rw (h, k) (omega arith))
      ]
      | inr h ↦ elim (Bool-cases (q x)) [
        | inl k ↦ inl (rw (h, k) (omega arith))
        | inr k ↦ inl (rw (h, k) (omega arith))
      ]
    ]
  ]

  pub count-le :
      (p q : A → Bool) (xs : List A)
      → ((a : A) → p a ≡ true → q a ≡ true)
      → count_by p xs ≤ count_by q xs
  count-le p q [] h = omega arith
  count-le p q (x ∷ xs) h = ground (arith, count-le p q xs h, h x)

  pub count-lt :
      (p q : A → Bool) (xs : List A) (x : A)
      → ((a : A) → p a ≡ true → q a ≡ true)
      → In x xs
      → p x ≡ false
      → q x ≡ true
      → count_by p xs + 1 ≤ count_by q xs
  count-lt p q [] x h m f t = absurd m
  count-lt p q (y ∷ ys) x h (inl e) f t =
      ground (arith, count-le p q ys h, subst (λ z. p z ≡ false) e f, subst (λ z. q z ≡ true) e t)
  count-lt p q (y ∷ ys) x h (inr m) f t = ground (arith, count-lt p q ys x h m f t, h y)

module _ {A : Type 0} ⦃e : Eq A⦄ where
  -- A list of distinct members of `vs` counts at most the members of `vs` that it contains.
  pub length-le-count :
      (xs vs : List A)
      → Distinct xs
      → ((a : A) → In a xs → In a vs)
      → length xs ≤ count_by (λ a. contains a xs) vs
  unfolding contains
  length-le-count [] vs d h = omega arith
  length-le-count (x ∷ xs) vs d h = omega (
    arith,
    length-le-count xs vs d.1 (λ a m. h a (inr m)),
    count-lt (λ a. contains a xs) (λ a. contains a (x ∷ xs)) vs x (λ a k. ground arith)
        (h x (inl refl)) d.0 (ground (arith, beq_self x)),
  )
