-- ===== src/Runtime/Everywhere.antt =====
-- The pool's list and settings under its operations (app/runtime/prompt_cache.py).
use matricxon.Base.{
  refl, some, ◌≡◌, ◌++◌, ◌∷◌, [], eqb, not, ◌||◌, string_eq, ℕ, zero, suc, List, Option, length,
  All, Bool-cases, Option-cases, inl, inr, leb, keep,
}
use matricxon.Runtime.Pool.{
  use_slot, add_slot, PromptCache, set_slot, remove_slot, oldest, idle, drop_slot, evict,
  over_limits,
}
use matricxon.Runtime.Hybrid.{HybridSnapshot}
use matricxon.Runtime.Slot.{Cache, CacheSlot}

module _ {A T : Type 0} (P : CacheSlot A T → Type 0) where
  pub All-set_slot :
      (slot : CacheSlot A T) (slots : List (CacheSlot A T))
      → P slot
      → All P slots
      → All P (set_slot slot slots)
  unfolding set_slot
  All-set_slot slot [] p h = tt
  All-set_slot slot (s ∷ slots) p h = elim (Bool-cases (eqb s.id slot.id)) [
    | inl t ↦ rw t (p, h.1)
    | inr f ↦ rw f (h.0, All-set_slot slot slots p h.1)
  ]

  pub All-remove_slot :
      (id : ℕ) (slots : List (CacheSlot A T)) → All P slots → All P (remove_slot id slots)
  unfolding remove_slot
  All-remove_slot id [] h = tt
  All-remove_slot id (s ∷ slots) h = elim (Bool-cases (eqb s.id id)) [
    | inl t ↦ rw t h.1
    | inr f ↦ rw f (h.0, All-remove_slot id slots h.1)
  ]

  pub All-snoc :
      (slot : CacheSlot A T) (slots : List (CacheSlot A T))
      → P slot
      → All P slots
      → All P (slots ++ (slot ∷ []))
  All-snoc slot [] p h = (p, tt)
  All-snoc slot (s ∷ slots) p h = (h.0, All-snoc slot slots p h.1)

  module _ (cache_bytes : Cache A T → ℕ) (snapshot_bytes : HybridSnapshot T → ℕ) where
    pub All-evict :
        (fuel : ℕ) (kept : Option ℕ) (pool : PromptCache A T)
        → All P pool.slots
        → All P (evict cache_bytes snapshot_bytes fuel kept pool).slots
    unfolding evict
    All-evict zero kept pool h = h
    All-evict (suc fuel) kept pool h = elim (Option-cases (oldest (keep (idle kept) pool.slots))) [
      | inl e ↦ rw (e, evict) h
      | inr (victim, e) ↦
          elim (Bool-cases
            (not (over_limits cache_bytes snapshot_bytes pool) || leb (length pool.slots) 1)) [
              | inl t ↦ rw (e, evict, t) h
              | inr f ↦
                  rw (e, evict, f)
                    (All-evict fuel kept (drop_slot cache_bytes snapshot_bytes victim pool)
                      (All-remove_slot victim.id pool.slots h))
            ]
    ]

module _ {A T : Type 0} (cache_bytes : Cache A T → ℕ) (snapshot_bytes : HybridSnapshot T → ℕ) where
  evict-context_shift :
      (fuel : ℕ) (kept : Option ℕ) (pool : PromptCache A T)
      → (evict cache_bytes snapshot_bytes fuel kept pool).context_shift ≡ pool.context_shift
  unfolding evict
  evict-context_shift zero kept pool = refl
  evict-context_shift (suc fuel) kept pool =
      elim (Option-cases (oldest (keep (idle kept) pool.slots))) [
        | inl e ↦ rw (e, evict) refl
        | inr (victim, e) ↦
            elim (Bool-cases
              (not (over_limits cache_bytes snapshot_bytes pool) || leb (length pool.slots) 1)) [
                | inl t ↦ rw (e, evict, t) refl
                | inr f ↦
                    rw (e, evict, f)
                      (evict-context_shift fuel kept
                        (drop_slot cache_bytes snapshot_bytes victim pool))
              ]
      ]

  pub add_slot-context_shift :
      (slot : CacheSlot A T) (pool : PromptCache A T)
      → (add_slot cache_bytes snapshot_bytes slot pool).0.context_shift ≡ pool.context_shift
  unfolding add_slot use_slot
  add_slot-context_shift slot pool =
      evict-context_shift
        (length (use_slot slot (record pool { slots = pool.slots ++ (slot ∷ []) })).0.slots)
        (some slot.id) (use_slot slot (record pool { slots = pool.slots ++ (slot ∷ []) })).0
