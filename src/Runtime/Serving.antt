-- ===== src/Runtime/Serving.antt =====
-- What a cache that `acquire` (app/runtime/prompt_cache.py) hands out holds.
use matricxon.Base.{
  true, if◌then◌else◌, ◌-◌, none, some, refl, false, ◌<◌, ◌≤◌, not, ◌&&◌, ◌∙◌, ◌+◌, take, arith,
  ◌==◌, ◌≡◌, String, string_eq, subst, sym, ℕ, List, [], Option, length, All,
}
use matricxon.Runtime.Sound.{renewed, Reading, Holds, IsSound, Reachable}
use matricxon.Runtime.Acquire.{
  shift_chat, Best, best_slot, Grant, granted, take_slot, grant, acquire,
}
use matricxon.Runtime.Match.{match_prompt_lem}
use matricxon.Runtime.Pool.{add_slot, PromptCache, set_slot}
use matricxon.Runtime.Hybrid.{HybridSnapshot}
use matricxon.Runtime.Slot.{Cache, CacheSlot}
use matricxon.Runtime.Everywhere.{All-set_slot, add_slot-context_shift}
use matricxon.Runtime.Choice.{IsChoice, best_slot-IsChoice}
use matricxon.Runtime.Taking.{Taken, take_slot-Taken, add_slot-IsSound}

module _ {A T : Type 0} (model : Reading A T) where
  module _ (empty : A) (cache_bytes : Cache A T → ℕ) (snapshot_bytes : HybridSnapshot T → ℕ) where
    -- What an acquisition gives: a pool of sound slots, and a slot of the prompt's first tokens that
    -- leaves the last one to read.
    abbrev pub Granted : List ℕ → Option (PromptCache A T × Grant A T) → Type 0
    Granted prompt none = ⊥
    Granted prompt (some (pool, g)) =
        IsSound model g.slot
        × (g.slot.token_ids ≡ take g.start prompt)
        × (g.start ≤ length prompt - 1)
        × All (IsSound model) pool.slots

    module _ (build : ℕ → Cache A T) (fresh : (n : ℕ) → Holds model (build n) [] n) where
      grant-Granted :
          (prompt : List ℕ) (num_ctx : ℕ) (dtype tag : String) (best : Best A T)
          (pool : PromptCache A T)
          → All (IsSound model) pool.slots
          → IsChoice model prompt dtype best
          → Granted prompt
              (grant empty cache_bytes snapshot_bytes build prompt num_ctx dtype tag best pool)
      unfolding granted
      grant-Granted prompt num_ctx dtype tag none pool each h =
          let new : CacheSlot A T = record {
            id = pool.next_id;
            cache = build num_ctx;
            num_ctx = num_ctx;
            dtype = dtype;
            token_ids = [];
            snapshots = [];
            last_used = 0;
            prompt_len = length prompt;
            in_use = false;
            tag = tag;
          } in
          let sound : IsSound model new = record {
            content = fresh num_ctx;
            snapshots = tt;
            bare = λ _. refl;
          } in
          let added =
            add_slot-IsSound model empty cache_bytes snapshot_bytes new
              (record pool { next_id = pool.next_id + 1 }) sound each in
          let added_slot =
            (add_slot cache_bytes snapshot_bytes new
              (record pool { next_id = pool.next_id + 1 })).1 in
          let busy =
            renewed model added_slot added_slot.id added_slot.last_used added_slot.prompt_len true
              added_slot.tag added.0 in
          (busy, added.1, omega arith, All-set_slot (IsSound model) _ _ busy added.2)
      grant-Granted prompt num_ctx dtype tag (some (slot, common, n)) pool each
            (sound, e, some_n, same) =
          after (take_slot empty cache_bytes snapshot_bytes slot common n num_ctx pool) (
            take_slot-Taken model empty cache_bytes snapshot_bytes slot common n num_ctx pool sound
              each (matched.2) (matched.5 some_n))
        where
          matched :
              (n ≤ common)
              × (common ≤ length prompt - 1)
              × (n ≤ length slot.token_ids)
              × (take common slot.token_ids ≡ take common prompt)
              × (take n slot.token_ids ≡ take n prompt)
              × (0 < n → Reachable n slot.cache slot.snapshots)
          matched =
              subst
                (λ (m : ℕ × ℕ).
                  (m.1 ≤ m.0)
                  × (m.0 ≤ length prompt - 1)
                  × (m.1 ≤ length slot.token_ids)
                  × (take m.0 slot.token_ids ≡ take m.0 prompt)
                  × (take m.1 slot.token_ids ≡ take m.1 prompt)
                  × (0 < m.1 → Reachable m.1 slot.cache slot.snapshots))
                e (match_prompt_lem slot prompt)

          after :
              (o : Option (PromptCache A T × CacheSlot A T))
              → Taken model empty cache_bytes snapshot_bytes slot.token_ids n o
              → Granted prompt (elim o as (λ _. Option (PromptCache A T × Grant A T)) [
                | none ↦ none
                | some (pool', taken) ↦
                    let busy = granted (length prompt) tag taken in
                    some (
                      record pool' { slots = set_slot busy pool'.slots },
                      record { slot = busy; start = n },
                    )
              ])
          after none h = h
          after (some (pool', taken)) (holds, tokens, all) = (
            busy,
            tokens ∙ matched.4,
            omega (arith, matched.0, matched.1),
            All-set_slot (IsSound model) _ _ busy all,
          )
            where
              busy : IsSound model (granted (length prompt) tag taken)
              busy =
                  renewed model taken taken.id taken.last_used (length prompt) true
                    (if tag == "" then taken.tag else tag) holds

      module _ {R : Type 0} (turn : R → A → A) (rotations : ℕ → Option (List R)) where
        -- Whatever the pool holds and the disk tier returns, as long as each slot holds what its
        -- tokens leave and chats that were trimmed are not shifted, an acquisition succeeds: the
        -- cache holds what the prompt's first `start` tokens leave, at least the last one stays to
        -- be read, and the pool's slots hold what their tokens leave again.
        pub acquire-Granted :
            (restored : ℕ → Option (CacheSlot A T)) (prompt : List ℕ) (num_ctx : ℕ)
            (dtype tag : String) (pool : PromptCache A T)
            → All (IsSound model) pool.slots
            → ((n : ℕ) (slot : CacheSlot A T) → restored n ≡ some slot → IsSound model slot)
            → (pool.context_shift && not (tag == "")) ≡ false
            → Granted prompt (
                acquire empty cache_bytes snapshot_bytes turn rotations build restored prompt
                  num_ctx dtype tag pool)
        unfolding acquire
        acquire-Granted restored prompt num_ctx dtype tag pool each disk still =
            rw (still, acquire) (tiered (restored wanted) refl)
          where
            best : Best A T
            best = best_slot pool.max_slots prompt dtype pool.slots none

            wanted : ℕ
            wanted = elim best [ none ↦ 0 | some b ↦ b.2 ]

            with_it : CacheSlot A T → PromptCache A T
            with_it slot =
                (add_slot cache_bytes snapshot_bytes (record slot { id = pool.next_id })
                  (record pool { next_id = pool.next_id + 1 })).0

            unshifted :
                (slot : CacheSlot A T)
                → shift_chat empty cache_bytes snapshot_bytes turn rotations prompt dtype tag
                    (with_it slot)
                  ≡ some (with_it slot)
            unshifted slot =
                rw
                  (
                    add_slot-context_shift cache_bytes snapshot_bytes
                        (record slot { id = pool.next_id })
                        (record pool { next_id = pool.next_id + 1 }),
                    still,
                  )
                  refl

            tiered :
                (o : Option (CacheSlot A T))
                → o ≡ restored wanted
                → Granted prompt (elim o as (λ _. Option (PromptCache A T × Grant A T)) [
                  | none ↦
                      grant empty cache_bytes snapshot_bytes build prompt num_ctx dtype tag best
                        pool
                  | some slot ↦
                      elim (shift_chat empty cache_bytes snapshot_bytes turn rotations prompt dtype
                        tag
                        (with_it slot)) [
                          | none ↦ none
                          | some again ↦
                              grant empty cache_bytes snapshot_bytes build prompt num_ctx dtype tag
                                (best_slot again.max_slots prompt dtype again.slots none)
                                again
                        ]
                ])
            tiered none e =
                grant-Granted prompt num_ctx dtype tag best pool each
                  (best_slot-IsChoice model pool.max_slots prompt dtype pool.slots none each tt)
            tiered (some slot) e =
                let sound = disk wanted slot (sym e) in
                let added =
                  add_slot-IsSound model empty cache_bytes snapshot_bytes
                    (record slot { id = pool.next_id }) (record pool { next_id = pool.next_id + 1 })
                    (renewed model slot pool.next_id slot.last_used slot.prompt_len slot.in_use
                      slot.tag sound)
                    each in
                rw (unshifted slot) (
                  grant-Granted prompt num_ctx dtype tag
                    (best_slot (with_it slot).max_slots prompt dtype (with_it slot).slots none)
                    (with_it slot) added.2
                    (best_slot-IsChoice model (with_it slot).max_slots prompt dtype
                      (with_it slot).slots none added.2 tt))
