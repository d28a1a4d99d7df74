-- ===== src/Base/Slices.antt =====
-- Beginnings and ends of lists.
use Prim.Native.Nat.{ℕ, zero, suc, ◌+◌, ◌-◌, ◌≤◌}
use mathlib.Core.List.{map, List, [], ◌∷◌, ◌++◌}
use mathlib.Core.Path.{sym, ◌≡◌, refl, ap, ◌∙◌}
use native.Mathlib.Omega.{arith}
use matricxon.Base.Lists.{length, take, drop}

module _ {ℓ} {A : Type ℓ} where
  pub length-take : (n : ℕ) (xs : List A) → n ≤ length xs → length (take n xs) ≡ n
  length-take zero xs h = refl
  length-take (suc n) [] h = absurd (omega arith)
  length-take (suc n) (x ∷ xs) h = omega (arith, length-take n xs (omega arith))

  pub length-slice :
      (start count : ℕ) (xs : List A)
      → start + count ≤ length xs
      → length (take count (drop start xs)) ≡ count
  length-slice zero count xs h = length-take count xs (omega arith)
  length-slice (suc start) count [] h = absurd (omega arith)
  length-slice (suc start) count (x ∷ xs) h = length-slice start count xs (omega arith)

  pub length-drop : (n : ℕ) (xs : List A) → length (drop n xs) ≡ length xs - n
  length-drop zero xs = omega arith
  length-drop (suc n) [] = omega arith
  length-drop (suc n) (x ∷ xs) = omega (arith, length-drop n xs)

  pub take-prefix : (n : ℕ) (xs ys : List A) → length xs ≡ n → take n (xs ++ ys) ≡ xs
  take-prefix zero [] ys h = refl
  take-prefix zero (x ∷ xs) ys h = absurd (omega arith)
  take-prefix (suc n) [] ys h = absurd (omega arith)
  take-prefix (suc n) (x ∷ xs) ys h = ap (λ zs. x ∷ zs) (take-prefix n xs ys (omega arith))

  pub drop-prefix : (n k : ℕ) (xs ys : List A) → length xs ≡ n → drop (n + k) (xs ++ ys) ≡ drop k ys
  drop-prefix zero k [] ys h = ap (λ m. drop m ys) (omega arith)
  drop-prefix zero k (x ∷ xs) ys h = absurd (omega arith)
  drop-prefix (suc n) k [] ys h = absurd (omega arith)
  drop-prefix (suc n) k (x ∷ xs) ys h =
      ap (λ m. drop m (x ∷ (xs ++ ys))) shifted ∙ drop-prefix n k xs ys (omega arith)
    where
      shifted : suc n + k ≡ suc (n + k)
      shifted = omega arith

  -- More than the first part of an appended list.
  pub take-past :
      (n k : ℕ) (xs ys : List A) → length xs ≡ n → take (n + k) (xs ++ ys) ≡ xs ++ take k ys
  take-past zero k [] ys h = ap (λ m. take m ys) (omega arith)
  take-past zero k (x ∷ xs) ys h = absurd (omega arith)
  take-past (suc n) k [] ys h = absurd (omega arith)
  take-past (suc n) k (x ∷ xs) ys h =
      ap (λ m. take m (x ∷ (xs ++ ys))) shifted
      ∙ ap (λ zs. x ∷ zs) (take-past n k xs ys (omega arith))
    where
      shifted : suc n + k ≡ suc (n + k)
      shifted = omega arith

  pub take-take : (n m : ℕ) (xs : List A) → n ≤ m → take n (take m xs) ≡ take n xs
  take-take zero m xs h = refl
  take-take (suc n) zero xs h = absurd (omega arith)
  take-take (suc n) (suc m) [] h = refl
  take-take (suc n) (suc m) (x ∷ xs) h = ap (λ zs. x ∷ zs) (take-take n m xs (omega arith))

  pub take-all : (n : ℕ) (xs : List A) → length xs ≤ n → take n xs ≡ xs
  take-all zero [] h = refl
  take-all zero (x ∷ xs) h = absurd (omega arith)
  take-all (suc n) [] h = refl
  take-all (suc n) (x ∷ xs) h = ap (λ zs. x ∷ zs) (take-all n xs (omega arith))

  pub take-drop : (n : ℕ) (xs : List A) → take n xs ++ drop n xs ≡ xs
  take-drop zero xs = refl
  take-drop (suc n) [] = refl
  take-drop (suc n) (x ∷ xs) = ap (λ zs. x ∷ zs) (take-drop n xs)

  pub drop-take : (n m : ℕ) (xs : List A) → drop n (take m xs) ≡ take (m - n) (drop n xs)
  drop-take zero m xs = ap (λ k. take k xs) (omega arith)
  drop-take (suc n) zero xs = ap (λ k. take k (drop (suc n) xs)) {x = 0} (omega arith)
  drop-take (suc n) (suc m) [] = sym (take-all (suc m - suc n) [] (omega arith))
  drop-take (suc n) (suc m) (x ∷ xs) = drop-take n m xs ∙ ap (λ k. take k (drop n xs)) (omega arith)

pub length-map {ℓ κ} :
    {A : Type ℓ} {B : Type κ} (f : A → B) (xs : List A) → length (map f xs) ≡ length xs
length-map f [] = refl
length-map f (x ∷ xs) = omega (arith, length-map f xs)
