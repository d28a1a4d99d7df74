-- ===== src/Base/Sort.antt =====
-- `sorted`, as insertion sort by a Boolean "not after".
use Prim.Native.Nat.{ℕ}
use mathlib.Core.Path.{◌≡◌, subst}
use mathlib.Core.Logic.{◌⊎◌, inl, inr}
use mathlib.Core.Bool.{Bool, true}
use mathlib.Core.List.{List, [], ◌∷◌}
use matricxon.Base.Tests.{leb, if◌then◌else◌, Bool-cases}
use matricxon.Base.Lists.{In, keep}
use matricxon.Base.Dict.{Dict}

module _ {A : Type 0} (before : A → A → Bool) where
  unfoldable pub insert : A → List A → List A
  insert a [] = a ∷ []
  insert a (x ∷ xs) = if before a x then a ∷ x ∷ xs else x ∷ insert a xs

  unfoldable pub sort : List A → List A
  unfolding insert
  sort [] = []
  sort (x ∷ xs) = insert x (sort xs)

  In-insert : (a x : A) (xs : List A) → (x ≡ a) ⊎ In x xs → In x (insert a xs)
  unfolding insert
  In-insert a x [] m = m
  In-insert a x (y ∷ ys) m = elim (Bool-cases (before a y)) [
    | inl h ↦ rw h m
    | inr h ↦ rw h (elim m [
      | inl p ↦ inr (In-insert a x ys (inl p))
      | inr k ↦ elim k [ inl q ↦ inl q | inr k' ↦ inr (In-insert a x ys (inr k')) ]
    ])
  ]

  insert-In : (a x : A) (xs : List A) → In x (insert a xs) → (x ≡ a) ⊎ In x xs
  unfolding insert
  insert-In a x [] m = m
  insert-In a x (y ∷ ys) m = elim (Bool-cases (before a y)) [
    | inl h ↦ rw h at m
    | inr h ↦
        let m' : In x (y ∷ insert a ys) = rw h at m in
        elim m' [
          | inl q ↦ inr (inl q)
          | inr k ↦ elim (insert-In a x ys k) [ inl p ↦ inl p | inr k' ↦ inr (inr k') ]
        ]
  ]

  -- Sorting keeps the elements.
  pub In-sort : (x : A) (xs : List A) → In x xs → In x (sort xs)
  unfolding sort
  In-sort x [] m = m
  In-sort x (y ∷ ys) (inl p) = In-insert y x (sort ys) (inl p)
  In-sort x (y ∷ ys) (inr m) = In-insert y x (sort ys) (inr (In-sort x ys m))

  pub sort-In : (x : A) (xs : List A) → In x (sort xs) → In x xs
  unfolding sort
  sort-In x [] m = m
  sort-In x (y ∷ ys) m = elim (insert-In y x (sort ys) m) [
    | inl p ↦ inl p
    | inr k ↦ inr (sort-In x ys k)
  ]

-- `sorted(d.items())` of a dictionary with numbers for keys.
abbrev pub sort_items : {V : Type 0} → Dict ℕ V → Dict ℕ V
sort_items = sort (λ p q. leb p.0 q.0)

-- What a filter keeps.
pub In-keep :
    {A : Type 0} (p : A → Bool) (x : A) (xs : List A) → In x xs → p x ≡ true → In x (keep p xs)
unfolding keep
In-keep p x [] m h = m
In-keep p x (y ∷ ys) (inl q) h = rw (subst (λ z. p z ≡ true) q h) (inl q)
In-keep p x (y ∷ ys) (inr k) h = elim (Bool-cases (p y)) [
  | inl g ↦ rw g (inr (In-keep p x ys k h))
  | inr g ↦ rw g (In-keep p x ys k h)
]

pub keep-In : {A : Type 0} (p : A → Bool) (x : A) (xs : List A) → In x (keep p xs) → In x xs
unfolding keep
keep-In p x [] m = m
keep-In p x (y ∷ ys) m = elim (Bool-cases (p y)) [
  | inl h ↦
      let m' : In x (y ∷ keep p ys) = rw h at m in
      elim m' [ inl q ↦ inl q | inr k ↦ inr (keep-In p x ys k) ]
  | inr h ↦ inr (keep-In p x ys (rw h at m))
]
