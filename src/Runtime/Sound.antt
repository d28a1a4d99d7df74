-- ===== src/Runtime/Sound.antt =====
-- Slots whose cache is what the model leaves after reading the slot's tokens
-- (app/runtime/prompt_slot.py).
use matricxon.Base.{
  String, ℕ, ◌≤◌, ◌≡◌, List, [], map, some, length, take, All, Bool, true, false, nat_eq,
}
use matricxon.Base.Dict.{get}
use matricxon.Runtime.Slot.{Cache, plain, hybrid, CacheSlot, is_hybrid}
use matricxon.Runtime.KvCache.{KvCache, held}
use matricxon.Runtime.Held.{IsFull}
use matricxon.Runtime.Hybrid.{HybridSnapshot}

-- What a model leaves in its caches when it reads some tokens from the start. A position's keys and
-- values depend on the tokens up to it only.
pub record Reading (A T : Type 0) : Type 0 where
  pub cells : List ℕ → List (List A)
  pub conv : List ℕ → List T
  pub ssm : List ℕ → List T
  pub cells_take :
      (n : ℕ) (tokens : List ℕ)
      → n ≤ length tokens
      → cells (take n tokens) ≡ map (take n) (cells tokens)

module _ {A T : Type 0} where
  -- The positions that a cache can be cut back to.
  abbrev pub Reachable : ℕ → Cache A T → List (ℕ × HybridSnapshot T) → Type 0
  Reachable n cache snaps = is_hybrid cache ≡ true → (s : HybridSnapshot T) × (get n snaps ≡ some s)

module _ {A T : Type 0} (model : Reading A T) where
  abbrev pub KvHolds : KvCache A → List ℕ → ℕ → Type 0
  KvHolds c tokens num_ctx =
      (held c ≡ model.cells tokens)
      × (c.committed ≡ length tokens)
      × (c.max_seq_len ≡ num_ctx)
      × IsFull c

  abbrev pub Holds : Cache A T → List ℕ → ℕ → Type 0
  Holds (plain c) tokens num_ctx = KvHolds c tokens num_ctx
  Holds (hybrid c) tokens num_ctx =
      KvHolds c.kv_cache tokens num_ctx
      × (c.conv_state ≡ model.conv tokens)
      × (c.ssm_state ≡ model.ssm tokens)

  abbrev pub SnapshotOf : List ℕ → ℕ × HybridSnapshot T → Type 0
  SnapshotOf tokens (pos, s) =
      (pos ≤ length tokens)
      × (s.position ≡ pos)
      × (s.conv_state ≡ model.conv (take pos tokens))
      × (s.ssm_state ≡ model.ssm (take pos tokens))

  pub record IsSound (slot : CacheSlot A T) : Type 0 where
    pub content : Holds slot.cache slot.token_ids slot.num_ctx
    pub snapshots : All (SnapshotOf slot.token_ids) slot.snapshots
    pub bare : is_hybrid slot.cache ≡ false → slot.snapshots ≡ []

  -- What a slot is used for has no part in it.
  pub renewed :
      (slot : CacheSlot A T) (id last_used prompt_len : ℕ) (in_use : Bool) (tag : String)
      → IsSound slot
      → IsSound (record slot {
        id = id;
        last_used = last_used;
        prompt_len = prompt_len;
        in_use = in_use;
        tag = tag;
      })
  renewed slot id last_used prompt_len in_use tag sound = record {
    content = sound.content;
    snapshots = sound.snapshots;
    bare = sound.bare;
  }
