-- ===== src/Runtime/Taking.antt =====
-- Adding a slot to the pool and taking one for a prompt (`_add` and `_take` of
-- app/runtime/prompt_cache.py).
use matricxon.Base.{
  none, some, refl, false, true, ◌<◌, ◌≤◌, ltb, not, ◌&&◌, ◌∙◌, ◌+◌, if◌then◌else◌, take, arith,
  Bool, ◌≡◌, string_eq, ℕ, zero, suc, List, Option, length, All, Bool-cases, inl, inr,
}
use matricxon.Runtime.Sound.{renewed, Reading, Holds, IsSound, Reachable}
use matricxon.Runtime.Cut.{rewind-IsSound, fork-IsSound}
use matricxon.Runtime.KvCache.{capacity_or}
use matricxon.Runtime.Slot.{plain, hybrid, Cache, CacheSlot}
use matricxon.Runtime.Pool.{use_slot, add_slot, PromptCache, remove_slot}
use matricxon.Runtime.Acquire.{continues, wants_fork, add_fork, take_slot}
use matricxon.Runtime.Hybrid.{HybridSnapshot}
use matricxon.Runtime.Everywhere.{All-set_slot, All-remove_slot, All-snoc, All-evict}

module _ {A T : Type 0} (model : Reading A T) where
  module _ (empty : A) (cache_bytes : Cache A T → ℕ) (snapshot_bytes : HybridSnapshot T → ℕ) where
    pub add_slot-IsSound :
        (slot : CacheSlot A T) (pool : PromptCache A T)
        → IsSound model slot
        → All (IsSound model) pool.slots
        → let added = add_slot cache_bytes snapshot_bytes slot pool in
          IsSound model added.1
          × (added.1.token_ids ≡ slot.token_ids)
          × All (IsSound model) added.0.slots
    unfolding add_slot use_slot
    add_slot-IsSound slot pool sound each = (
      used,
      refl,
      All-evict (IsSound model) cache_bytes snapshot_bytes _ _ _ (
          All-set_slot (IsSound model) _ _ used
            (All-snoc (IsSound model) slot pool.slots sound each)),
    )
      where
        used : IsSound model (record slot { last_used = pool.tick + 1 })
        used = renewed model slot slot.id (pool.tick + 1) slot.prompt_len slot.in_use slot.tag sound

    -- What taking a slot gives: a sound slot of the first tokens, in a pool of sound slots.
    abbrev pub Taken : List ℕ → ℕ → Option (PromptCache A T × CacheSlot A T) → Type 0
    Taken tokens n none = ⊥
    Taken tokens n (some (pool, slot)) =
        IsSound model slot × (slot.token_ids ≡ take n tokens) × All (IsSound model) pool.slots

    within :
        (cache : Cache A T) (tokens : List ℕ) (num_ctx : ℕ)
        → Holds model cache tokens num_ctx
        → length tokens ≤ num_ctx
    within (plain c) tokens num_ctx h = omega (arith, h.1, h.2, h.3.0)
    within (hybrid c) tokens num_ctx h = omega (arith, h.0.1, h.0.2, h.0.3.0)

    capacity_or-some : (m k : ℕ) → 0 < m → capacity_or (some m) k ≡ m
    capacity_or-some zero k h = absurd (omega arith)
    capacity_or-some (suc m) k h = refl

    add_fork-Taken :
        (tokens : List ℕ) (n : ℕ) (copy : CacheSlot A T) (pool : PromptCache A T)
        → IsSound model copy
        → copy.token_ids ≡ take n tokens
        → All (IsSound model) pool.slots
        → Taken tokens n (add_fork empty cache_bytes snapshot_bytes (some copy) pool)
    add_fork-Taken tokens n copy pool sound same each =
        let added = add_slot-IsSound copy (record pool { next_id = pool.next_id + 1 }) sound each in
        (added.0, added.1 ∙ same, added.2)

    pub take_slot-Taken :
        (slot : CacheSlot A T) (common n num_ctx : ℕ) (pool : PromptCache A T)
        → IsSound model slot
        → All (IsSound model) pool.slots
        → n ≤ length slot.token_ids
        → Reachable n slot.cache slot.snapshots
        → Taken slot.token_ids n
            (take_slot empty cache_bytes snapshot_bytes slot common n num_ctx pool)
    unfolding take_slot
    take_slot-Taken slot common n num_ctx pool sound each le there =
        elim (Bool-cases (ltb slot.num_ctx num_ctx)) [
          | inl t ↦
              let copy =
                fork-IsSound model empty pool.next_id n (some num_ctx) slot sound le (wide t)
                  there in
              rw (t, copy.1)
                (add_fork-Taken slot.token_ids n copy.0 _ copy.2 copy.3 (
                  other
                    (continues empty cache_bytes snapshot_bytes slot common && not slot.in_use)))
          | inr f ↦
              elim (Bool-cases (
                ltb 1 pool.max_slots
                && wants_fork empty cache_bytes snapshot_bytes slot common n)) [
                  | inl t ↦
                      let copy =
                        fork-IsSound model empty pool.next_id n none slot sound le
                          (omega (arith, fits)) there in
                      rw (f, t, copy.1)
                        (add_fork-Taken slot.token_ids n copy.0 pool copy.2 copy.3 each)
                  | inr g ↦
                      let cut = rewind-IsSound model n slot sound le there in
                      let used =
                        renewed model cut.0 cut.0.id (pool.tick + 1) cut.0.prompt_len cut.0.in_use
                          cut.0.tag cut.2 in
                      rw (f, g, cut.1)
                        (
                          used,
                          cut.3,
                          All-set_slot (IsSound model) _ _ used
                              (All-set_slot (IsSound model) cut.0 pool.slots cut.2 each),
                        )
                ]
        ]
      where
        fits : length slot.token_ids ≤ slot.num_ctx
        fits = within slot.cache slot.token_ids slot.num_ctx sound.content

        wide : ltb slot.num_ctx num_ctx ≡ true → n ≤ capacity_or (some num_ctx) slot.num_ctx
        wide t = ground (arith, fits, capacity_or-some num_ctx slot.num_ctx)

        other :
            (gone : Bool)
            → All
                (IsSound model)
                (if gone
                  then record pool { slots = remove_slot slot.id pool.slots }
                  else pool).slots
        other true = All-remove_slot (IsSound model) slot.id pool.slots each
        other false = each
