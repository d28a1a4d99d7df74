-- ===== src/Runtime/Acquire.antt =====
-- app/runtime/prompt_cache.py: finding a cache for a prompt, and the bookkeeping around a reply. An
-- exception is none.
use matricxon.Base.{
  nat_eq, ℕ, ◌+◌, ◌-◌, ◌/◌, String, List, [], ◌∷◌, Option, none, some, Bool, true, false, length,
  ltb, leb, eqb, min, if◌then◌else◌, ◌||◌, ◌&&◌, not, ◌==◌, string_eq,
}
use matricxon.Runtime.Slot.{find_gap, shift_out, Cache, CacheSlot, match_prompt, rewind, fork}
use matricxon.Runtime.Hybrid.{HybridSnapshot}
use matricxon.Runtime.Pool.{PromptCache, set_slot, remove_slot, use_slot, add_slot}

-- `FORK_MIN_DROPPED_TOKENS` and `CONTINUATION_TAIL_TOKENS`
abbrev fork_min_dropped_tokens : ℕ
fork_min_dropped_tokens = 16

abbrev continuation_tail_tokens : ℕ
continuation_tail_tokens = 16

-- A slot, the tokens that it has in common with the prompt, and those that it can supply.
abbrev pub Best : Type 0 → Type 0 → Type 0
Best A T = Option (CacheSlot A T × ℕ × ℕ)

-- What an acquisition gives: the slot whose cache it is, and how many tokens this holds already.
pub record Grant (A T : Type 0) : Type 0 where
  pub slot : CacheSlot A T
  pub start : ℕ

module _ {A T : Type 0} where
  -- The slots that the loop of `_best_slot` passes over: of another precision, in use where no copy
  -- can be made, or with nothing to supply.
  abbrev pub skips : ℕ → List ℕ → String → CacheSlot A T → Bool
  skips max_slots prompt dtype slot =
      not (slot.dtype == dtype)
      || (slot.in_use && eqb max_slots 1)
      || eqb (match_prompt slot prompt).1 0

  -- The test of that loop against the best slot so far.
  abbrev pub wins : List ℕ → CacheSlot A T → Best A T → Bool
  wins prompt slot none = true
  wins prompt slot (some (best, common, n)) =
      let m = (match_prompt slot prompt).1 in
      ltb n m || (eqb m n && ltb best.last_used slot.last_used)

  -- One round of the loop of `_best_slot`.
  abbrev pub better : ℕ → List ℕ → String → CacheSlot A T → Best A T → Best A T
  better max_slots prompt dtype slot best =
      if skips max_slots prompt dtype slot || not (wins prompt slot best)
      then best
      else some (slot, (match_prompt slot prompt).0, (match_prompt slot prompt).1)

  -- `_best_slot`
  unfoldable pub best_slot : ℕ → List ℕ → String → List (CacheSlot A T) → Best A T → Best A T
  unfolding match_prompt
  best_slot max_slots prompt dtype [] best = best
  best_slot max_slots prompt dtype (s ∷ slots) best =
      best_slot max_slots prompt dtype slots (better max_slots prompt dtype s best)

  -- The last lines of a successful `acquire`: the slot serves this prompt now.
  unfoldable pub granted : ℕ → String → CacheSlot A T → CacheSlot A T
  granted prompt_len tag slot = record slot {
    prompt_len = prompt_len;
    in_use = true;
    tag = if tag == "" then slot.tag else tag;
  }

  module _ (empty : A) (cache_bytes : Cache A T → ℕ) (snapshot_bytes : HybridSnapshot T → ℕ) where
    -- `_take`: whether the prompt continues the conversation, and whether a copy is wanted.
    abbrev pub continues : CacheSlot A T → ℕ → Bool
    continues slot common =
        leb (slot.prompt_len - min continuation_tail_tokens (slot.prompt_len / 4)) common

    abbrev pub wants_fork : CacheSlot A T → ℕ → ℕ → Bool
    wants_fork slot common n =
        slot.in_use
        || (not (continues slot common) && leb fork_min_dropped_tokens (length slot.token_ids - n))

    -- A fork becomes a slot of the pool, with a cache object of its own.
    abbrev pub add_fork :
        Option (CacheSlot A T) → PromptCache A T → Option (PromptCache A T × CacheSlot A T)
    add_fork none pool = none
    add_fork (some copy) pool =
        some (add_slot cache_bytes snapshot_bytes copy (record pool { next_id = pool.next_id + 1 }))

    -- `_take`
    unfoldable pub take_slot :
        CacheSlot A T → ℕ → ℕ → ℕ → PromptCache A T → Option (PromptCache A T × CacheSlot A T)
    unfolding rewind fork use_slot add_slot remove_slot
    take_slot slot common n num_ctx pool =
        if ltb slot.num_ctx num_ctx
        then add_fork (fork empty pool.next_id n (some num_ctx) slot) (
            if continues slot common && not slot.in_use
            then record pool { slots = remove_slot slot.id pool.slots }
            else pool)
        else if ltb 1 pool.max_slots && wants_fork slot common n
        then add_fork (fork empty pool.next_id n none slot) pool
        else (elim (rewind n slot) [
          | none ↦ none
          | some cut ↦ some (use_slot cut (record pool { slots = set_slot cut pool.slots }))
        ])

    -- `acquire` after the slot is chosen: taking it, or building a fresh cache.
    abbrev pub grant :
        (ℕ → Cache A T)
        → List ℕ
        → ℕ
        → String
        → String
        → Best A T
        → PromptCache A T
        → Option (PromptCache A T × Grant A T)
    grant build prompt num_ctx dtype tag none pool =
        let fresh : CacheSlot A T = record {
          id = pool.next_id;
          cache = build num_ctx;
          num_ctx = num_ctx;
          dtype = dtype;
          token_ids = [];
          snapshots = [];
          last_used = 0;
          prompt_len = length prompt;
          in_use = false;
          tag = tag;
        } in
        let added =
          add_slot cache_bytes snapshot_bytes fresh (record pool { next_id = pool.next_id + 1 }) in
        let busy = record added.1 { in_use = true } in
        some (
          record added.0 { slots = set_slot busy added.0.slots },
          record { slot = busy; start = 0 },
        )
    grant build prompt num_ctx dtype tag (some (slot, common, n)) pool =
        elim (take_slot slot common n num_ctx pool) [
          | none ↦ none
          | some (after, taken) ↦
              let busy = granted (length prompt) tag taken in
              some (
                record after { slots = set_slot busy after.slots },
                record { slot = busy; start = n },
              )
        ]

    -- `turn` rotates a cell, `rotations` is what the architecture gives for so many dropped tokens.
    module _ {R : Type 0} (turn : R → A → A) (rotations : ℕ → Option (List R)) where
      -- The loop of `_shift_trimmed_chat`: the chat's first idle slot with a gap is shifted.
      unfoldable pub shift_slots :
          List ℕ → String → String → List (CacheSlot A T) → Option (List (CacheSlot A T))
      unfolding find_gap shift_out
      shift_slots prompt dtype tag [] = some []
      shift_slots prompt dtype tag (s ∷ slots) =
          let later : Option (List (CacheSlot A T)) = elim (shift_slots prompt dtype tag slots) [
            | none ↦ none
            | some rest ↦ some (s ∷ rest)
          ] in
          if not (s.tag == tag) || not (s.dtype == dtype) || s.in_use
          then later
          else (elim (find_gap s prompt) [
            | none ↦ later
            | some (kept, gap, run) ↦ elim (rotations gap) [
              | none ↦ some (s ∷ slots)
              | some rs ↦ elim (shift_out turn kept gap rs s) [
                | none ↦ none
                | some shifted ↦ some (shifted ∷ slots)
              ]
            ]
          ])

      -- `_shift_trimmed_chat`, where the settings and the request ask for it.
      abbrev pub shift_chat : List ℕ → String → String → PromptCache A T → Option (PromptCache A T)
      shift_chat prompt dtype tag pool =
          if pool.context_shift && not (tag == "")
          then (elim (shift_slots prompt dtype tag pool.slots) [
            | none ↦ none
            | some slots ↦ some (record pool { slots = slots })
          ])
          else some pool

      -- `acquire` of a reusable prompt. `restored` is what the disk tier has that shares more than
      -- so many tokens.
      unfoldable pub acquire :
          (ℕ → Cache A T)
          → (ℕ → Option (CacheSlot A T))
          → List ℕ
          → ℕ
          → String
          → String
          → PromptCache A T
          → Option (PromptCache A T × Grant A T)
      unfolding best_slot take_slot granted add_slot set_slot shift_slots
      acquire build restored prompt num_ctx dtype tag pool =
          elim (shift_chat prompt dtype tag pool) [
            | none ↦ none
            | some shifted ↦
                let best = best_slot shifted.max_slots prompt dtype shifted.slots none in
                elim (restored (elim best [ none ↦ 0 | some b ↦ b.2 ])) [
                  | none ↦ grant build prompt num_ctx dtype tag best shifted
                  | some slot ↦
                      let with_it =
                        (add_slot cache_bytes snapshot_bytes (record slot { id = shifted.next_id })
                          (record shifted { next_id = shifted.next_id + 1 })).0 in
                      elim (shift_chat prompt dtype tag with_it) [
                        | none ↦ none
                        | some again ↦
                            grant build prompt num_ctx dtype tag
                              (best_slot again.max_slots prompt dtype again.slots none) again
                      ]
                ]
          ]
