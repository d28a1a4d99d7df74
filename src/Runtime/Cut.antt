-- ===== src/Runtime/Cut.antt =====
-- Cutting a slot back and copying one (app/runtime/prompt_slot.py).
use matricxon.Base.{
  if◌then◌else◌, leb→le, All-at, ℕ, ◌≤◌, ◌≡◌, List, [], ◌∷◌, map, Option, some, length, take, arith,
  All, Bool-cases, inl, inr, ap, refl, leb, Bool, false, sym, subst, ◌∙◌, keep, nat_eq,
}
use matricxon.Base.Dict.{get-In}
use matricxon.Base.Slices.{length-take, take-take}
use matricxon.Runtime.Slot.{
  rewind_cache, Cache, plain, hybrid, CacheSlot, is_hybrid, snapshots_to, rewind, fork, fork_cache,
}
use matricxon.Runtime.KvCache.{KvCache, truncate, capacity_or, fork as fork_kv}
use matricxon.Runtime.Held.{held-truncate, held-fork}
use matricxon.Runtime.Hybrid.{HybridSnapshot, restore, fork_from}
use matricxon.Runtime.Sound.{Reading, Reachable, KvHolds, Holds, SnapshotOf, IsSound}

module _ {A T : Type 0} (model : Reading A T) where
  -- The first tokens are what the cut cache holds.
  pub truncate-KvHolds :
      (n : ℕ) (c : KvCache A) (tokens : List ℕ) (num_ctx : ℕ)
      → KvHolds model c tokens num_ctx
      → n ≤ length tokens
      → (d : KvCache A) × (truncate n c ≡ some d) × KvHolds model d (take n tokens) num_ctx
  truncate-KvHolds n c tokens num_ctx h le =
      let cut = held-truncate n c h.3 (omega (arith, h.1)) in
      (
        cut.0,
        cut.1,
        (
          cut.2 ∙ ap (map (take n)) h.0 ∙ sym (model.cells_take n tokens le),
          cut.3 ∙ sym (length-take n tokens le),
          cut.4 ∙ h.2,
          cut.5,
        ),
      )

  pub fork-KvHolds :
      (empty : A) (n : ℕ) (wanted : Option ℕ) (c : KvCache A) (tokens : List ℕ) (num_ctx : ℕ)
      → KvHolds model c tokens num_ctx
      → n ≤ length tokens
      → n ≤ capacity_or wanted num_ctx
      → (d : KvCache A) × (fork_kv empty n wanted c ≡ some d)
        × KvHolds model d (take n tokens) (capacity_or wanted num_ctx)
  fork-KvHolds empty n wanted c tokens num_ctx h le room =
      let copy =
        held-fork empty n wanted c h.3 (omega (arith, h.1))
          (subst (λ m. n ≤ capacity_or wanted m) (sym h.2) room) in
      (
        copy.0,
        copy.1,
        (
          copy.2 ∙ ap (map (take n)) h.0 ∙ sym (model.cells_take n tokens le),
          copy.3 ∙ sym (length-take n tokens le),
          copy.4 ∙ ap (capacity_or wanted) h.2,
          copy.5,
        ),
      )

  -- The snapshots that stay are of the tokens that stay.
  snapshots_cut :
      (n : ℕ) (tokens : List ℕ) (snaps : List (ℕ × HybridSnapshot T))
      → n ≤ length tokens
      → All (SnapshotOf model tokens) snaps
      → All (SnapshotOf model (take n tokens)) (snapshots_to n snaps)
  unfolding keep
  snapshots_cut n tokens [] le h = tt
  snapshots_cut n tokens ((pos, s) ∷ snaps) le h = elim (Bool-cases (leb pos n)) [
    | inl t ↦ rw t (
      (
        omega (arith, length-take n tokens le, leb→le pos n t),
        h.0.1,
        h.0.2 ∙ ap model.conv (sym (take-take pos n tokens (leb→le pos n t))),
        h.0.3 ∙ ap model.ssm (sym (take-take pos n tokens (leb→le pos n t))),
      ),
      snapshots_cut n tokens snaps le h.1,
    )
    | inr f ↦ rw f (snapshots_cut n tokens snaps le h.1)
  ]

  rewind_cache-Holds :
      (n : ℕ) (cache : Cache A T) (snaps : List (ℕ × HybridSnapshot T)) (tokens : List ℕ)
      (num_ctx : ℕ)
      → Holds model cache tokens num_ctx
      → All (SnapshotOf model tokens) snaps
      → n ≤ length tokens
      → Reachable n cache snaps
      → (cut : Cache A T) × (rewind_cache n cache snaps ≡ some cut)
        × Holds model cut (take n tokens) num_ctx
        × (is_hybrid cut ≡ is_hybrid cache)
  unfolding rewind_cache restore
  rewind_cache-Holds n (plain c) snaps tokens num_ctx h each le there =
      let cut = truncate-KvHolds n c tokens num_ctx h le in
      (plain cut.0, rw (cut.1, rewind_cache) refl, cut.2, refl)
  rewind_cache-Holds n (hybrid c) snaps tokens num_ctx h each le there =
      let found = there refl in
      let of =
        All-at (SnapshotOf model tokens) snaps each (n, found.0) (get-In n found.0 snaps found.1) in
      let cut = truncate-KvHolds n c.kv_cache tokens num_ctx h.0 le in
      (
        hybrid (record {
          kv_cache = cut.0;
          conv_state = found.0.conv_state;
          ssm_state = found.0.ssm_state;
        }),
        rw (found.1, of.1, cut.1, rewind_cache) refl,
        (cut.2, of.2, of.3),
        refl,
      )

  fork_cache-Holds :
      (empty : A) (n : ℕ) (wanted : Option ℕ) (cache : Cache A T)
      (snaps : List (ℕ × HybridSnapshot T)) (tokens : List ℕ) (num_ctx : ℕ)
      → Holds model cache tokens num_ctx
      → All (SnapshotOf model tokens) snaps
      → n ≤ length tokens
      → n ≤ capacity_or wanted num_ctx
      → Reachable n cache snaps
      → (copy : Cache A T) × (fork_cache empty n wanted cache snaps ≡ some copy)
        × Holds model copy (take n tokens) (capacity_or wanted num_ctx)
        × (is_hybrid copy ≡ is_hybrid cache)
  unfolding fork_cache fork_from
  fork_cache-Holds empty n wanted (plain c) snaps tokens num_ctx h each le room there =
      let copy = fork-KvHolds empty n wanted c tokens num_ctx h le room in
      (plain copy.0, rw (copy.1, fork_cache) refl, copy.2, refl)
  fork_cache-Holds empty n wanted (hybrid c) snaps tokens num_ctx h each le room there =
      let found = there refl in
      let of =
        All-at (SnapshotOf model tokens) snaps each (n, found.0) (get-In n found.0 snaps found.1) in
      let copy = fork-KvHolds empty n wanted c.kv_cache tokens num_ctx h.0 le room in
      (
        hybrid (record {
          kv_cache = copy.0;
          conv_state = found.0.conv_state;
          ssm_state = found.0.ssm_state;
        }),
        rw (found.1, of.1, copy.1, fork_cache) refl,
        (copy.2, of.2, of.3),
        refl,
      )

  -- Cutting a slot back gives a sound slot of its first tokens.
  pub rewind-IsSound :
      (n : ℕ) (slot : CacheSlot A T)
      → IsSound model slot
      → n ≤ length slot.token_ids
      → Reachable n slot.cache slot.snapshots
      → (cut : CacheSlot A T) × (rewind n slot ≡ some cut)
        × IsSound model cut
        × (cut.token_ids ≡ take n slot.token_ids)
        × (cut.id ≡ slot.id)
        × (cut.dtype ≡ slot.dtype)
  unfolding rewind
  rewind-IsSound n slot sound le there =
      let cut =
        rewind_cache-Holds n slot.cache slot.snapshots slot.token_ids slot.num_ctx sound.content
          sound.snapshots le there in
      (
        record slot {
          cache = cut.0;
          snapshots =
              if is_hybrid slot.cache then snapshots_to n slot.snapshots else slot.snapshots;
          token_ids = take n slot.token_ids;
        },
        rw (cut.1, rewind) refl,
        record {
          content = cut.2;
          snapshots = kept.0;
          bare = λ f. kept.1 false (sym (sym cut.3 ∙ f)) refl;
        },
        refl,
        refl,
        refl,
      )
    where
      hybrid_cut : Bool → List (ℕ × HybridSnapshot T)
      hybrid_cut b = if b then snapshots_to n slot.snapshots else slot.snapshots

      kept :
          All (SnapshotOf model (take n slot.token_ids)) (hybrid_cut (is_hybrid slot.cache))
          × ((b : Bool)
              → b ≡ is_hybrid slot.cache
              → b ≡ false
              → hybrid_cut (is_hybrid slot.cache) ≡ [])
      kept = elim (Bool-cases (is_hybrid slot.cache)) [
        | inl t ↦ (
          rw t (snapshots_cut n slot.token_ids slot.snapshots le sound.snapshots),
          λ b e f. absurd (cc),
        )
        | inr f ↦ (
          rw f (subst (All (SnapshotOf model (take n slot.token_ids))) (sym (sound.bare f)) tt),
          λ b e f'. rw f (sound.bare f),
        )
      ]

  -- Copying the first positions of a slot gives a sound slot of its first tokens.
  pub fork-IsSound :
      (empty : A) (id n : ℕ) (wanted : Option ℕ) (slot : CacheSlot A T)
      → IsSound model slot
      → n ≤ length slot.token_ids
      → n ≤ capacity_or wanted slot.num_ctx
      → Reachable n slot.cache slot.snapshots
      → (copy : CacheSlot A T) × (fork empty id n wanted slot ≡ some copy)
        × IsSound model copy
        × (copy.token_ids ≡ take n slot.token_ids)
        × (copy.id ≡ id)
        × (copy.dtype ≡ slot.dtype)
  unfolding fork keep
  fork-IsSound empty id n wanted slot sound le room there =
      let copy =
        fork_cache-Holds empty n wanted slot.cache slot.snapshots slot.token_ids slot.num_ctx
          sound.content sound.snapshots le room there in
      (
        record {
          id = id;
          cache = copy.0;
          num_ctx = capacity_or wanted slot.num_ctx;
          dtype = slot.dtype;
          token_ids = take n slot.token_ids;
          snapshots = snapshots_to n slot.snapshots;
          last_used = 0;
          prompt_len = slot.prompt_len;
          in_use = false;
          tag = slot.tag;
        },
        rw (copy.1, fork) refl,
        record {
          content = copy.2;
          snapshots = snapshots_cut n slot.token_ids slot.snapshots le sound.snapshots;
          bare = λ e. ap (snapshots_to n) (sound.bare (sym copy.3 ∙ e));
        },
        refl,
        refl,
        refl,
      )
