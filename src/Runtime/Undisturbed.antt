-- ===== src/Runtime/Undisturbed.antt =====
-- The slots that serve a reply, while `acquire` (app/runtime/prompt_cache.py) finds a cache for
-- another prompt.
use matricxon.Base.{
  length, ℕ, ◌+◌, ◌≡◌, String, List, [], ◌∷◌, Option, none, some, true, false, eqb, not, ◌||◌, ◌&&◌,
  ◌==◌, string_eq, arith, In, Bool-cases, inl, inr, refl,
}
use matricxon.Runtime.Hybrid.{HybridSnapshot}
use matricxon.Runtime.Slot.{Cache, CacheSlot}
use matricxon.Runtime.Pool.{PromptCache, set_slot, add_slot}
use matricxon.Runtime.Acquire.{
  Best, Grant, granted, better, skips, wins, best_slot, take_slot, grant, shift_chat, acquire,
}
use matricxon.Runtime.Everywhere.{add_slot-context_shift}
use matricxon.Runtime.Busy.{
  IsPool, Spared, take_slot-Spared, add_slot-In, add_slot-IsPool, set_slot-other,
}

module _ {A T : Type 0} where
  -- A choice among these slots, of one that may be changed in place or copied.
  abbrev IsOpen : List (CacheSlot A T) → ℕ → Best A T → Type 0
  IsOpen slots max_slots none = Unit
  IsOpen slots max_slots (some (slot, common, n)) =
      In slot slots × ((slot.in_use && eqb max_slots 1) ≡ false)

  best_slot-IsOpen :
      (all : List (CacheSlot A T)) (max_slots : ℕ) (prompt : List ℕ) (dtype : String)
      (slots : List (CacheSlot A T)) (best : Best A T)
      → ((s : CacheSlot A T) → In s slots → In s all)
      → IsOpen all max_slots best
      → IsOpen all max_slots (best_slot max_slots prompt dtype slots best)
  unfolding best_slot
  best_slot-IsOpen all max_slots prompt dtype [] best sub h = h
  best_slot-IsOpen all max_slots prompt dtype (s ∷ slots) best sub h =
      best_slot-IsOpen all max_slots prompt dtype slots (better max_slots prompt dtype s best)
        (λ t m. sub t (inr m)) opened
    where
      opened : IsOpen all max_slots (better max_slots prompt dtype s best)
      opened = elim (Bool-cases (skips max_slots prompt dtype s || not (wins prompt s best))) [
        | inl t ↦ rw t h
        | inr f ↦ rw f (sub s (inl refl), ground arith)
      ]

  -- The slot is where it was, and is not the one that is handed out.
  abbrev pub Undisturbed : CacheSlot A T → Option (PromptCache A T × Grant A T) → Type 0
  Undisturbed s none = Unit
  Undisturbed s (some (pool, g)) = In s pool.slots × (eqb s.id g.slot.id ≡ false)

  module _ (empty : A) (cache_bytes : Cache A T → ℕ) (snapshot_bytes : HybridSnapshot T → ℕ) where
    module _ {R : Type 0} (turn : R → A → A) (rotations : ℕ → Option (List R))
        (build : ℕ → Cache A T) where
      grant-Undisturbed :
          (s : CacheSlot A T) (prompt : List ℕ) (num_ctx : ℕ) (dtype tag : String) (best : Best A T)
          (pool : PromptCache A T)
          → IsPool pool
          → IsOpen pool.slots pool.max_slots best
          → In s pool.slots
          → s.in_use ≡ true
          → Undisturbed s
              (grant empty cache_bytes snapshot_bytes build prompt num_ctx dtype tag best pool)
      unfolding granted add_slot
      grant-Undisturbed s prompt num_ctx dtype tag none pool good h m busy = (
        set_slot-other _ s _ (fresh s m) (
            add_slot-In cache_bytes snapshot_bytes _ s (record pool { next_id = pool.next_id + 1 })
              good.one fresh m busy),
        fresh s m,
      )
        where
          fresh : (t : CacheSlot A T) → In t pool.slots → eqb t.id pool.next_id ≡ false
          fresh t mt = ground (arith, good.old t mt)
      grant-Undisturbed s prompt num_ctx dtype tag (some (slot, common, n)) pool good (chosen, free)
            m busy =
          after (take_slot empty cache_bytes snapshot_bytes slot common n num_ctx pool) (
            take_slot-Spared empty cache_bytes snapshot_bytes slot s common n num_ctx pool good
              chosen free m busy)
        where
          after :
              (o : Option (PromptCache A T × CacheSlot A T))
              → Spared empty cache_bytes snapshot_bytes s o
              → Undisturbed s (elim o as (λ _. Option (PromptCache A T × Grant A T)) [
                | none ↦ none
                | some (pool', taken) ↦
                    let served = granted (length prompt) tag taken in
                    some (
                      record pool' { slots = set_slot served pool'.slots },
                      record { slot = served; start = n },
                    )
              ])
          after none h = tt
          after (some (pool', taken)) (there, other) =
              (set_slot-other _ s pool'.slots other there, other)

      -- If no two slots share a cache, ids are not used twice, the pool may hold a slot and trimmed
      -- chats are not shifted, then every slot that serves a reply is in the pool after an
      -- acquisition as it was before, and is not the slot that is handed out.
      pub acquire-Undisturbed :
          (restored : ℕ → Option (CacheSlot A T)) (prompt : List ℕ) (num_ctx : ℕ)
          (dtype tag : String) (pool : PromptCache A T) (s : CacheSlot A T)
          → IsPool pool
          → (pool.context_shift && not (tag == "")) ≡ false
          → In s pool.slots
          → s.in_use ≡ true
          → Undisturbed s (
              acquire empty cache_bytes snapshot_bytes turn rotations build restored prompt num_ctx
                dtype tag pool)
      unfolding acquire
      acquire-Undisturbed restored prompt num_ctx dtype tag pool s good still m busy =
          rw (still, acquire) (tiered (restored (elim best [ none ↦ 0 | some b ↦ b.2 ])))
        where
          best : Best A T
          best = best_slot pool.max_slots prompt dtype pool.slots none

          with_it : CacheSlot A T → PromptCache A T
          with_it slot =
              (add_slot cache_bytes snapshot_bytes (record slot { id = pool.next_id })
                (record pool { next_id = pool.next_id + 1 })).0

          kept : (slot : CacheSlot A T) → In s (with_it slot).slots
          kept slot =
              add_slot-In cache_bytes snapshot_bytes (record slot { id = pool.next_id }) s
                (record pool { next_id = pool.next_id + 1 }) good.one
                (λ t mt. ground (arith, good.old t mt)) m busy

          unshifted :
              (slot : CacheSlot A T)
              → shift_chat empty cache_bytes snapshot_bytes turn rotations prompt dtype tag
                  (with_it slot)
                ≡ some (with_it slot)
          unshifted slot =
              rw
                (
                  add_slot-context_shift cache_bytes snapshot_bytes
                      (record slot { id = pool.next_id })
                      (record pool { next_id = pool.next_id + 1 }),
                  still,
                )
                refl

          tiered :
              (o : Option (CacheSlot A T))
              → Undisturbed s (elim o as (λ _. Option (PromptCache A T × Grant A T)) [
                | none ↦
                    grant empty cache_bytes snapshot_bytes build prompt num_ctx dtype tag best pool
                | some slot ↦
                    elim (shift_chat empty cache_bytes snapshot_bytes turn rotations prompt dtype
                      tag
                      (with_it slot)) [
                        | none ↦ none
                        | some again ↦
                            grant empty cache_bytes snapshot_bytes build prompt num_ctx dtype tag
                              (best_slot again.max_slots prompt dtype again.slots none)
                              again
                      ]
              ])
          tiered none =
              grant-Undisturbed s prompt num_ctx dtype tag best pool good
                (best_slot-IsOpen pool.slots pool.max_slots prompt dtype pool.slots none
                  (λ t mt. mt) tt)
                m busy
          tiered (some slot) = rw (unshifted slot) (
              grant-Undisturbed s prompt num_ctx dtype tag
                (best_slot (with_it slot).max_slots prompt dtype (with_it slot).slots none)
                (with_it slot) (add_slot-IsPool cache_bytes snapshot_bytes slot pool good)
                (best_slot-IsOpen (with_it slot).slots (with_it slot).max_slots prompt dtype
                  (with_it slot).slots none (λ t mt. mt) tt)
                (kept slot) busy)
