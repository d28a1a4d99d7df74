-- ===== src/Runtime/Choice.antt =====
-- The slot that `_best_slot` (app/runtime/prompt_cache.py) chooses for a prompt.
use matricxon.Base.{
  none, some, refl, true, ◌<◌, not, ◌||◌, arith, ◌==◌, ◌≡◌, String, string_eq, ℕ, List, [], ◌∷◌,
  All, Bool-cases, inl, inr,
}
use matricxon.Runtime.Acquire.{skips, wins, Best, better, best_slot}
use matricxon.Runtime.Slot.{match_prompt, CacheSlot}
use matricxon.Runtime.Sound.{Reading, IsSound}

module _ {A T : Type 0} (model : Reading A T) where
  -- A choice of a slot that the prompt can build on.
  abbrev pub IsChoice : List ℕ → String → Best A T → Type 0
  IsChoice prompt dtype none = Unit
  IsChoice prompt dtype (some (slot, common, n)) =
      IsSound model slot
      × (match_prompt slot prompt ≡ (common, n))
      × (0 < n)
      × ((slot.dtype == dtype) ≡ true)

  better-IsChoice :
      (max_slots : ℕ) (prompt : List ℕ) (dtype : String) (slot : CacheSlot A T) (best : Best A T)
      → IsSound model slot
      → IsChoice prompt dtype best
      → IsChoice prompt dtype (better max_slots prompt dtype slot best)
  better-IsChoice max_slots prompt dtype slot best sound h =
      elim (Bool-cases (skips max_slots prompt dtype slot || not (wins prompt slot best))) [
        | inl t ↦ rw t h
        | inr f ↦ rw f (sound, refl, ground arith, ground arith)
      ]

  pub best_slot-IsChoice :
      (max_slots : ℕ) (prompt : List ℕ) (dtype : String) (slots : List (CacheSlot A T))
      (best : Best A T)
      → All (IsSound model) slots
      → IsChoice prompt dtype best
      → IsChoice prompt dtype (best_slot max_slots prompt dtype slots best)
  unfolding best_slot
  best_slot-IsChoice max_slots prompt dtype [] best each h = h
  best_slot-IsChoice max_slots prompt dtype (s ∷ slots) best each h =
      best_slot-IsChoice max_slots prompt dtype slots (better max_slots prompt dtype s best) each.1
        (better-IsChoice max_slots prompt dtype s best each.0 h)
