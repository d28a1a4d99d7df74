-- ===== src/Runtime/Match.antt =====
-- What `CacheSlot.match` and `find_gap` (app/runtime/prompt_slot.py) find in common.
use matricxon.Base.{
  sym, subst, ◌⊎◌, ◌∙◌, ℕ, zero, suc, ◌-◌, ◌≤◌, ◌<◌, ◌≡◌, List, [], ◌∷◌, some, length, take, arith,
  Bool-cases, inl, inr, ap, refl, eqb, leb, min, true, nat_eq,
}
use matricxon.Base.Dict.{Dict, get}
use matricxon.Runtime.Hybrid.{HybridSnapshot}
use matricxon.Runtime.Slot.{CacheSlot, is_hybrid, latest_at, match_prompt, shared}
use matricxon.Runtime.Sound.{Reachable}

pub shared-le : (xs ys : List ℕ) → (shared xs ys ≤ length xs) × (shared xs ys ≤ length ys)
shared-le [] ys = (omega arith, omega arith)
shared-le (x ∷ xs) [] = (omega arith, omega arith)
shared-le (x ∷ xs) (y ∷ ys) =
    let rest = shared-le xs ys in (ground (arith, rest), ground (arith, rest))

pub take-shared : (n : ℕ) (xs ys : List ℕ) → n ≤ shared xs ys → take n xs ≡ take n ys
take-shared zero xs ys h = refl
take-shared (suc n) [] ys h = absurd (omega arith)
take-shared (suc n) (x ∷ xs) [] h = absurd (omega arith)
take-shared (suc n) (x ∷ xs) (y ∷ ys) h = elim (Bool-cases (eqb x y)) [
  | inl t ↦
      ap (λ z. z ∷ take n xs) (ground arith)
      ∙ ap (λ zs. y ∷ zs) (take-shared n xs ys (ground arith))
  | inr f ↦ absurd (ground arith)
]

module _ {T : Type 0} where
  latest_at-le : (bound : ℕ) (d : Dict ℕ (HybridSnapshot T)) → latest_at bound d ≤ bound
  latest_at-le bound [] = omega arith
  latest_at-le bound ((pos, s) ∷ d) = ground (arith, latest_at-le bound d)

  latest_at-get :
      (bound : ℕ) (d : Dict ℕ (HybridSnapshot T))
      → 0 < latest_at bound d
      → (s : HybridSnapshot T) × (get (latest_at bound d) d ≡ some s)
  unfolding get
  latest_at-get bound [] h = absurd (omega arith)
  latest_at-get bound ((pos, s) ∷ d) h = elim (Bool-cases (leb pos bound)) [
    | inl t ↦ elim (Bool-cases (leb (latest_at bound d) pos)) [
      | inl l ↦ here (latest_at bound ((pos, s) ∷ d)) (inl (ground (arith, t, l)))
      | inr g ↦
          here (latest_at bound ((pos, s) ∷ d))
            (inr (later (latest_at-get bound d) (ground (arith, t, g)) (ground (arith, t, g))))
    ]
    | inr f ↦
        here (latest_at bound ((pos, s) ∷ d))
          (inr (later (latest_at-get bound d) (ground (arith, f)) (ground (arith, f, h))))
  ]
    where
      here :
          (k : ℕ)
          → (eqb pos k ≡ true) ⊎ ((r : HybridSnapshot T) × (get k d ≡ some r))
          → (r : HybridSnapshot T) × (get k ((pos, s) ∷ d) ≡ some r)
      here k (inl t) = (s, rw t refl)
      here k (inr (r, e)) = elim (Bool-cases (eqb pos k)) [
        | inl t ↦ (s, rw t refl)
        | inr f ↦ (r, rw f e)
      ]

      later :
          (0 < latest_at bound d → (r : HybridSnapshot T) × (get (latest_at bound d) d ≡ some r))
          → latest_at bound ((pos, s) ∷ d) ≡ latest_at bound d
          → 0 < latest_at bound d
          → (r : HybridSnapshot T) × (get (latest_at bound ((pos, s) ∷ d)) d ≡ some r)
      later found e pos' =
          subst (λ k. (r : HybridSnapshot T) × (get k d ≡ some r)) (sym e) (found pos')

module _ {A T : Type 0} where
  -- The two numbers of a match: the slot and the prompt begin alike for as many tokens, the last
  -- token of the prompt is not among them, the second is at most the first, and if it is not zero a
  -- hybrid cache has a snapshot there.
  pub match_prompt_lem :
      (slot : CacheSlot A T) (prompt : List ℕ)
      → let m = match_prompt slot prompt in
        (m.1 ≤ m.0)
        × (m.0 ≤ length prompt - 1)
        × (m.1 ≤ length slot.token_ids)
        × (take m.0 slot.token_ids ≡ take m.0 prompt)
        × (take m.1 slot.token_ids ≡ take m.1 prompt)
        × (0 < m.1 → Reachable m.1 slot.cache slot.snapshots)
  unfolding match_prompt
  match_prompt_lem slot prompt = elim (Bool-cases (is_hybrid slot.cache)) [
    | inl t ↦ rw t (
      below,
      omega arith,
      omega (arith, below, bounds),
      same common (omega arith),
      same n (omega (arith, below)),
      λ some_n _. latest_at-get common slot.snapshots some_n,
    )
    | inr f ↦ rw f (
      omega arith,
      omega arith,
      omega (arith, bounds),
      same common (omega arith),
      same common (omega arith),
      λ some_n h. absurd (cc),
    )
  ]
    where
      common : ℕ
      common = min (shared slot.token_ids prompt) (length prompt - 1)

      n : ℕ
      n = latest_at common slot.snapshots

      below : n ≤ common
      below = latest_at-le common slot.snapshots

      bounds : shared slot.token_ids prompt ≤ length slot.token_ids
      bounds = (shared-le slot.token_ids prompt).0

      same : (k : ℕ) → k ≤ common → take k slot.token_ids ≡ take k prompt
      same k le = take-shared k slot.token_ids prompt (omega arith)
