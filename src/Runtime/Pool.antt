-- ===== src/Runtime/Pool.antt =====
-- app/runtime/prompt_cache.py: the pool of a model's cached conversations. A slot object that is
-- changed in place is replaced in the list; the slots handed to the disk tier are listed in
-- `spilled`. What the tier has for a prompt is an argument of `acquire`. What is kept for the log
-- only, `reused_tokens` and `miss_reason`, is left out, as is the lock.
use matricxon.Base.{
  ℕ, zero, suc, ◌+◌, List, [], ◌∷◌, ◌++◌, Option, none, some, Bool, true, length, ltb, leb, eqb,
  max, if◌then◌else◌, ◌||◌, ◌&&◌, not, keep, string_eq, nat_eq,
}
use matricxon.Runtime.Hybrid.{HybridSnapshot}
use matricxon.Runtime.Slot.{Cache, CacheSlot}

pub record PromptCache (A T : Type 0) : Type 0 where
  pub max_slots : ℕ
  pub budget_bytes : ℕ
  pub has_tier : Bool
  pub context_shift : Bool
  pub slots : List (CacheSlot A T)
  pub tick : ℕ
  pub next_id : ℕ
  pub spilled : List (CacheSlot A T)

module _ {A T : Type 0} where
  -- The slot object of this identity becomes `slot`.
  unfoldable pub set_slot : CacheSlot A T → List (CacheSlot A T) → List (CacheSlot A T)
  set_slot slot [] = []
  set_slot slot (s ∷ slots) =
      let rest = set_slot slot slots in if eqb s.id slot.id then slot ∷ slots else s ∷ rest

  -- `self._slots.remove(slot)`
  unfoldable pub remove_slot : ℕ → List (CacheSlot A T) → List (CacheSlot A T)
  remove_slot id [] = []
  remove_slot id (s ∷ slots) =
      let rest = remove_slot id slots in if eqb s.id id then slots else s ∷ rest

  -- `_slot_of`
  unfoldable pub slot_of : ℕ → List (CacheSlot A T) → Option (CacheSlot A T)
  slot_of id [] = none
  slot_of id (s ∷ slots) = let rest = slot_of id slots in if eqb s.id id then some s else rest

  -- The idle slots that may go.
  abbrev pub idle : Option ℕ → CacheSlot A T → Bool
  idle kept s = not s.in_use && (elim kept [ none ↦ true | some id ↦ not (eqb s.id id) ])

  -- `min(idle, key=last_used)`, the first of equals.
  unfoldable pub oldest : List (CacheSlot A T) → Option (CacheSlot A T)
  oldest [] = none
  oldest (s ∷ slots) = elim (oldest slots) [
    | none ↦ some s
    | some t ↦ if leb s.last_used t.last_used then some s else some t
  ]

  -- `_use`
  unfoldable pub use_slot : CacheSlot A T → PromptCache A T → PromptCache A T × CacheSlot A T
  unfolding set_slot
  use_slot slot pool =
      let used = record slot { last_used = pool.tick + 1 } in
      (record pool { tick = pool.tick + 1; slots = set_slot used pool.slots }, used)

  -- The memory of a cache and of a snapshot is the tensors' business.
  module _ (cache_bytes : Cache A T → ℕ) (snapshot_bytes : HybridSnapshot T → ℕ) where
    abbrev snapshots_bytes : List (ℕ × HybridSnapshot T) → ℕ
    snapshots_bytes [] = 0
    snapshots_bytes ((pos, s) ∷ more) = snapshot_bytes s + snapshots_bytes more

    -- `CacheSlot.nbytes`
    unfoldable pub nbytes : CacheSlot A T → ℕ
    nbytes slot = cache_bytes slot.cache + snapshots_bytes slot.snapshots

    abbrev pub total_bytes : List (CacheSlot A T) → ℕ
    total_bytes [] = 0
    total_bytes (s ∷ slots) = nbytes s + total_bytes slots

    abbrev pub over_limits : PromptCache A T → Bool
    over_limits pool =
        ltb pool.max_slots (length pool.slots) || ltb pool.budget_bytes (total_bytes pool.slots)

    -- Dropping a slot, to the disk tier if there is one.
    abbrev pub drop_slot : CacheSlot A T → PromptCache A T → PromptCache A T
    drop_slot victim pool = record pool {
      slots = remove_slot victim.id pool.slots;
      spilled = if pool.has_tier then pool.spilled ++ (victim ∷ []) else pool.spilled;
    }

    -- `_evict_over_limits`, one round of the loop for each unit of fuel.
    unfoldable pub evict : ℕ → Option ℕ → PromptCache A T → PromptCache A T
    unfolding oldest remove_slot
    evict zero kept pool = pool
    evict (suc fuel) kept pool = elim (oldest (keep (idle kept) pool.slots)) [
      | none ↦ pool
      | some victim ↦
          let rest = evict fuel kept (drop_slot victim pool) in
          if not (over_limits pool) || leb (length pool.slots) 1 then pool else rest
    ]

    abbrev pub evict_over_limits : Option ℕ → PromptCache A T → PromptCache A T
    evict_over_limits kept pool = evict (length pool.slots) kept pool

    -- `set_limits`
    unfoldable pub set_limits : ℕ → ℕ → PromptCache A T → PromptCache A T
    unfolding evict
    set_limits max_slots budget_bytes pool =
        evict_over_limits none
          (record pool { max_slots = max 1 max_slots; budget_bytes = budget_bytes })

    -- `_add`
    unfoldable pub add_slot : CacheSlot A T → PromptCache A T → PromptCache A T × CacheSlot A T
    unfolding use_slot evict
    add_slot slot pool =
        let used = use_slot slot (record pool { slots = pool.slots ++ (slot ∷ []) }) in
        (evict_over_limits (some slot.id) used.0, used.1)
