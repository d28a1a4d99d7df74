-- ===== src/Runtime/Gap.antt =====
-- The gap that `find_gap` (app/runtime/prompt_slot.py) finds in a slot's tokens.
use matricxon.Base.Slices.{take-past, length-take, take-drop}
use matricxon.Base.{
  unguard, ◌||◌, ◌++◌, subst, sym, length, ℕ, zero, suc, ◌+◌, ◌-◌, ◌≤◌, ◌<◌, ◌≡◌, List, [], ◌∷◌,
  Option, none, some, take, drop, arith, ap, refl, ◌∙◌, eqb, leb, ltb, Bool, true, false,
  if◌then◌else◌, ◌&&◌,
}
use matricxon.Runtime.Match.{shared-le, take-shared}
use matricxon.Runtime.Slot.{CacheSlot, is_hybrid, shared, search_gap, find_gap}

-- The best gap so far lines up with the prompt behind the kept tokens.
abbrev IsGap : List ℕ → List ℕ → ℕ → Option (ℕ × ℕ × ℕ) → Type 0
IsGap old new kept none = Unit
IsGap old new kept (some (k, gap, run)) =
    (k ≡ kept) × (0 < gap) × (32 ≤ run) × (take run (drop (kept + gap) old) ≡ take run new)

drop-next : (n o : ℕ) (xs ys : List ℕ) → drop n xs ≡ o ∷ ys → drop (suc n) xs ≡ ys
drop-next zero o [] ys h = absurd (cc)
drop-next zero o (x ∷ xs) ys h = cc
drop-next (suc n) o [] ys h = absurd (cc)
drop-next (suc n) o (x ∷ xs) ys h = drop-next n o xs ys h

search_gap-IsGap :
    (all : List ℕ) (kept start : ℕ) (old new : List ℕ) (best : Option (ℕ × ℕ × ℕ))
    → kept < start
    → drop start all ≡ old
    → IsGap all new kept best
    → IsGap all new kept (search_gap kept start old new best)
unfolding search_gap
search_gap-IsGap all kept start [] new best lt at h = h
search_gap-IsGap all kept start (o ∷ old) [] best lt at h = h
search_gap-IsGap all kept start (o ∷ old) (n ∷ new) best lt at h =
    search_gap-IsGap all kept (suc start) old (n ∷ new) _ (omega arith)
      (drop-next start o all old at) (chosen (eqb o n && longer) refl)
  where
    run : ℕ
    run = shared (o ∷ old) (n ∷ new)

    longer : Bool
    longer = leb 32 run && (elim best [ none ↦ true | some b ↦ ltb b.2 run ])

    chosen :
        (t : Bool)
        → t ≡ (eqb o n && longer)
        → IsGap all (n ∷ new) kept (if t then some (kept, start - kept, run) else best)
    chosen true e = (
      refl,
      omega arith,
      ground arith,
      ap (λ k. take run (drop k all)) (omega arith)
          ∙ ap (take run) at
          ∙ take-shared run (o ∷ old) (n ∷ new) (omega arith),
    )
    chosen false e = h

-- If a gap is found the cache is a plain one, something is kept, and without the gap the slot's
-- tokens begin as the prompt does, for the kept tokens and the run behind the gap, which is at least
-- 32 tokens.
pub find_gap_lem :
    {A T : Type 0} (slot : CacheSlot A T) (prompt : List ℕ) (kept gap run : ℕ)
    → find_gap slot prompt ≡ some (kept, gap, run)
    → (is_hybrid slot.cache ≡ false)
      × (0 < kept)
      × (0 < gap)
      × (32 ≤ run)
      × (take (kept + run) (take kept slot.token_ids ++ drop (kept + gap) slot.token_ids)
          ≡ take (kept + run) prompt)
unfolding find_gap
find_gap_lem slot prompt kept gap run h =
    let passed =
      unguard
        (is_hybrid slot.cache
          || eqb common 0
          || leb (length slot.token_ids) common
          || leb (length prompt) common)
        (search_gap common (suc common) (drop (suc common) slot.token_ids) (drop common prompt)
          none)
        (kept, gap, run) h in
    let found : IsGap slot.token_ids (drop common prompt) common (some (kept, gap, run)) =
      subst (IsGap slot.token_ids (drop common prompt) common) passed.1 (
        search_gap-IsGap slot.token_ids common (suc common) (drop (suc common) slot.token_ids)
          (drop common prompt) none (omega arith) refl tt) in
    (
      ground (arith, passed.0),
      ground (arith, passed.0, found.0),
      found.1,
      found.2,
      aligned found.0 (
          subst (λ k. take run (drop (k + gap) slot.token_ids) ≡ take run (drop k prompt))
            (sym found.0) found.3),
    )
  where
    common : ℕ
    common = shared slot.token_ids prompt

    aligned :
        kept ≡ common
        → take run (drop (kept + gap) slot.token_ids) ≡ take run (drop kept prompt)
        → take (kept + run) (take kept slot.token_ids ++ drop (kept + gap) slot.token_ids)
          ≡ take (kept + run) prompt
    aligned e same =
        take-past kept run (take kept slot.token_ids) (drop (kept + gap) slot.token_ids)
          (length-take kept slot.token_ids (omega (arith, e, (shared-le slot.token_ids prompt).0)))
        ∙ ap (λ tokens. take kept slot.token_ids ++ tokens) same
        ∙ ap (λ tokens. tokens ++ take run (drop kept prompt))
            (take-shared kept slot.token_ids prompt (omega (arith, e)))
        ∙ sym (
            take-past kept run (take kept prompt) (drop kept prompt)
              (length-take kept prompt (omega (arith, e, (shared-le slot.token_ids prompt).1))))
        ∙ ap (take (kept + run)) (take-drop kept prompt)
