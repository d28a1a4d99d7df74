-- ===== src/Runtime/Slot.antt =====
-- app/runtime/prompt_slot.py: one cached conversation. An exception is none. `id` is the identity of
-- the cache object, which no other slot has.
use matricxon.Base.{
  nat_eq, ℕ, suc, ◌+◌, ◌-◌, String, List, [], ◌∷◌, ◌++◌, Option, none, some, Bool, true, false,
  length, take, drop, ltb, leb, eqb, min, max, if◌then◌else◌, ◌||◌, ◌&&◌, keep,
}
use matricxon.Base.Dict.{Dict, get}
use matricxon.Runtime.KvCache.{capacity_or, KvCache, truncate, drop_range, fork as fork_kv}
use matricxon.Runtime.Hybrid.{HybridSnapshot, HybridCache, restore, fork_from}

pub data Cache (A T : Type 0) : Type 0 where
  plain : KvCache A → Cache A T
  hybrid : HybridCache A T → Cache A T

pub record CacheSlot (A T : Type 0) : Type 0 where
  pub id : ℕ
  pub cache : Cache A T
  pub num_ctx : ℕ
  pub dtype : String
  pub token_ids : List ℕ
  pub snapshots : Dict ℕ (HybridSnapshot T)
  pub last_used : ℕ
  pub prompt_len : ℕ
  pub in_use : Bool
  pub tag : String

-- How many leading tokens two lists share: the loop over `zip`.
abbrev pub shared : List ℕ → List ℕ → ℕ
shared [] new = 0
shared (c ∷ cached) [] = 0
shared (c ∷ cached) (n ∷ new) = if eqb c n then suc (shared cached new) else 0

-- The loop of `find_gap` from a place in the old tokens on, whose tail from there is given; the
-- best gap so far, with the length of the run behind it.
unfoldable pub search_gap : ℕ → ℕ → List ℕ → List ℕ → Option (ℕ × ℕ × ℕ) → Option (ℕ × ℕ × ℕ)
search_gap kept start [] new best = best
search_gap kept start (o ∷ old) [] best = best
search_gap kept start (o ∷ old) (n ∷ new) best =
    let run = shared (o ∷ old) (n ∷ new) in
    let longer = leb 32 run && (elim best [ none ↦ true | some b ↦ ltb b.2 run ]) in
    let found = if eqb o n && longer then some (kept, start - kept, run) else best in
    search_gap kept (suc start) old (n ∷ new) found

module _ {T : Type 0} where
  -- The greatest position at or before a bound, zero when there is none.
  abbrev pub latest_at : ℕ → Dict ℕ (HybridSnapshot T) → ℕ
  latest_at bound [] = 0
  latest_at bound ((pos, s) ∷ more) =
      let rest = latest_at bound more in if leb pos bound then max pos rest else rest

  -- The snapshots at or before a position.
  abbrev pub snapshots_to : ℕ → Dict ℕ (HybridSnapshot T) → Dict ℕ (HybridSnapshot T)
  snapshots_to n = keep (λ e. leb e.0 n)

module _ {A T : Type 0} where
  -- `CacheSlot.hybrid`
  abbrev pub is_hybrid : Cache A T → Bool
  is_hybrid (plain c) = false
  is_hybrid (hybrid c) = true

  -- `match`. For an empty prompt the source's first number is -1, here zero.
  unfoldable pub match_prompt : CacheSlot A T → List ℕ → ℕ × ℕ
  match_prompt slot prompt =
      let common = min (shared slot.token_ids prompt) (length prompt - 1) in
      if is_hybrid slot.cache then (common, latest_at common slot.snapshots) else (common, common)

  -- `find_gap`
  unfoldable pub find_gap : CacheSlot A T → List ℕ → Option (ℕ × ℕ × ℕ)
  unfolding search_gap
  find_gap slot prompt =
      let kept = shared slot.token_ids prompt in
      if is_hybrid slot.cache
        || eqb kept 0
        || leb (length slot.token_ids) kept
        || leb (length prompt) kept
      then none
      else search_gap kept (suc kept) (drop (suc kept) slot.token_ids) (drop kept prompt) none

  -- `shift_out`; only a plain cache has `drop_range`.
  unfoldable pub shift_out :
      {R : Type 0} → (R → A → A) → ℕ → ℕ → List R → CacheSlot A T → Option (CacheSlot A T)
  unfolding drop_range
  shift_out turn kept gap rotations slot = elim slot.cache [
    | hybrid c ↦ none
    | plain c ↦ elim (drop_range turn kept gap rotations c) [
      | none ↦ none
      | some d ↦ some (record slot {
        cache = plain d;
        token_ids = take kept slot.token_ids ++ drop (kept + gap) slot.token_ids;
        prompt_len = slot.prompt_len - gap;
      })
    ]
  ]

  -- What `rewind` does to the cache: a plain one is truncated, a hybrid one restored.
  unfoldable pub rewind_cache : ℕ → Cache A T → Dict ℕ (HybridSnapshot T) → Option (Cache A T)
  rewind_cache n (plain c) snaps = elim (truncate n c) [ none ↦ none | some d ↦ some (plain d) ]
  rewind_cache n (hybrid c) snaps = elim (get n snaps) [
    | none ↦ none
    | some s ↦ elim (restore s c) [ none ↦ none | some d ↦ some (hybrid d) ]
  ]

  -- `rewind`
  unfoldable pub rewind : ℕ → CacheSlot A T → Option (CacheSlot A T)
  unfolding rewind_cache
  rewind n slot = elim (rewind_cache n slot.cache slot.snapshots) [
    | none ↦ none
    | some cache ↦ some (record slot {
      cache = cache;
      snapshots = if is_hybrid slot.cache then snapshots_to n slot.snapshots else slot.snapshots;
      token_ids = take n slot.token_ids;
    })
  ]

  -- The cache of a fork.
  unfoldable pub fork_cache :
      A → ℕ → Option ℕ → Cache A T → Dict ℕ (HybridSnapshot T) → Option (Cache A T)
  fork_cache empty n wanted (plain c) snaps = elim (fork_kv empty n wanted c) [
    | none ↦ none
    | some d ↦ some (plain d)
  ]
  fork_cache empty n wanted (hybrid c) snaps = elim (get n snaps) [
    | none ↦ none
    | some s ↦ elim (fork_from empty s wanted c) [ none ↦ none | some d ↦ some (hybrid d) ]
  ]

  -- `fork`, into a new cache object.
  unfoldable pub fork : A → ℕ → ℕ → Option ℕ → CacheSlot A T → Option (CacheSlot A T)
  unfolding fork_cache
  fork empty id n wanted slot = elim (fork_cache empty n wanted slot.cache slot.snapshots) [
    | none ↦ none
    | some cache ↦ some (record {
      id = id;
      cache = cache;
      num_ctx = capacity_or wanted slot.num_ctx;
      dtype = slot.dtype;
      token_ids = take n slot.token_ids;
      snapshots = snapshots_to n slot.snapshots;
      last_used = 0;
      prompt_len = slot.prompt_len;
      in_use = false;
      tag = slot.tag;
    })
  ]
