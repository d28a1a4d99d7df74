-- ===== src/Runtime/Reply.antt =====
-- app/runtime/prompt_cache.py: the bookkeeping of the pool around a reply.
use matricxon.Base.{
  count_by, nat_eq, ℕ, String, List, [], ◌∷◌, ◌++◌, none, some, Bool, false, length, ltb,
  if◌then◌else◌, ◌||◌, ◌&&◌, not, keep, ◌==◌, string_eq,
}
use matricxon.Base.Dict.{Dict, put}
use matricxon.Runtime.Hybrid.{snapshot, HybridSnapshot}
use matricxon.Runtime.Slot.{plain, hybrid, Cache, CacheSlot}
use matricxon.Runtime.Pool.{PromptCache, set_slot, slot_of, evict, evict_over_limits}

abbrev pub any_of : {A : Type 0} → (A → Bool) → List A → Bool
any_of p [] = false
any_of p (x ∷ xs) = p x || any_of p xs

-- `MAX_SNAPSHOTS`
abbrev max_snapshots : ℕ
max_snapshots = 4

module _ {A T : Type 0} where
  module _ (cache_bytes : Cache A T → ℕ) (snapshot_bytes : HybridSnapshot T → ℕ) where
    -- `advanced`
    unfoldable pub advanced : ℕ → List ℕ → PromptCache A T → PromptCache A T
    unfolding slot_of set_slot
    advanced id tokens pool = elim (slot_of id pool.slots) [
      | none ↦ pool
      | some slot ↦ record pool {
        slots = set_slot (record slot { token_ids = slot.token_ids ++ tokens }) pool.slots;
      }
    ]

    -- The newest `MAX_SNAPSHOTS`: those with fewer than as many later ones.
    abbrev pub newest : Dict ℕ (HybridSnapshot T) → Dict ℕ (HybridSnapshot T)
    newest snaps =
        keep (λ e. ltb (count_by (λ (f : ℕ × HybridSnapshot T). ltb e.0 f.0) snaps) max_snapshots)
          snaps

    -- `capture`
    unfoldable pub capture : ℕ → PromptCache A T → PromptCache A T
    unfolding slot_of set_slot evict snapshot
    capture id pool = elim (slot_of id pool.slots) [
      | none ↦ pool
      | some slot ↦ elim slot.cache [
        | plain c ↦ pool
        | hybrid c ↦
            let taken = newest (put c.kv_cache.committed (snapshot c) slot.snapshots) in
            evict_over_limits cache_bytes snapshot_bytes (some slot.id)
              (record pool { slots = set_slot (record slot { snapshots = taken }) pool.slots })
      ]
    ]

    -- `release`
    unfoldable pub release : ℕ → PromptCache A T → PromptCache A T
    unfolding slot_of set_slot evict
    release id pool = elim (slot_of id pool.slots) [
      | none ↦ pool
      | some slot ↦
          evict_over_limits cache_bytes snapshot_bytes none
            (record pool { slots = set_slot (record slot { in_use = false }) pool.slots })
    ]

  -- `holds`
  unfoldable pub holds_chat : String → PromptCache A T → Bool
  holds_chat tag pool = not (tag == "") && any_of (λ s. s.tag == tag) pool.slots

  -- `spill_chat`: the idle slots of the chat go to the disk tier, if there is one.
  unfoldable pub spill_chat : String → PromptCache A T → PromptCache A T × ℕ
  spill_chat tag pool =
      let moves : CacheSlot A T → Bool = λ s. s.tag == tag && not s.in_use in
      if not pool.has_tier || tag == "" then (pool, 0) else (
        record pool {
          slots = keep (λ s. not (moves s)) pool.slots;
          spilled = pool.spilled ++ keep moves pool.slots;
        },
        length (keep moves pool.slots),
      )

  -- `persist_all`
  unfoldable pub persist_all : PromptCache A T → PromptCache A T
  persist_all pool =
      if pool.has_tier
      then record pool { spilled = pool.spilled ++ keep (λ s. not s.in_use) pool.slots }
      else pool
