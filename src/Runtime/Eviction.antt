-- ===== src/Runtime/Eviction.antt =====
-- The loop that keeps the pool within its limits (`_evict_over_limits` of
-- app/runtime/prompt_cache.py).
use matricxon.Base.{
  refl, subst, zero, suc, In-append_left, In-append_right, ◌++◌, if◌then◌else◌, ◌||◌, eqb_iff, none,
  not, ◌⊎◌, ◌≤◌, Option, of_some, ℕ, ◌+◌, ◌≡◌, List, [], ◌∷◌, some, length, arith, In, Bool-cases,
  Option-cases, inl, inr, eqb, leb, Bool, true, false, sym, ◌∙◌, keep, ap,
}
use matricxon.Runtime.Hybrid.{HybridSnapshot}
use matricxon.Runtime.Slot.{Cache, CacheSlot}
use matricxon.Runtime.Pool.{oldest, idle, drop_slot, evict, over_limits, PromptCache, remove_slot}

module _ {A T : Type 0} where
  In-keep :
      (p : CacheSlot A T → Bool) (s : CacheSlot A T) (slots : List (CacheSlot A T))
      → In s (keep p slots)
      → In s slots × (p s ≡ true)
  unfolding keep
  In-keep p s [] m = absurd m
  In-keep p s (x ∷ slots) m = elim (Bool-cases (p x)) [
    | inl t ↦
        let m' : In s (x ∷ keep p slots) = rw t at m in
        elim m' [
          | inl e ↦ (inl e, ap p e ∙ t)
          | inr n ↦ (inr (In-keep p s slots n).0, (In-keep p s slots n).1)
        ]
    | inr f ↦
        let m' : In s (keep p slots) = rw f at m in
        (inr (In-keep p s slots m').0, (In-keep p s slots m').1)
  ]

  oldest-In :
      (s : CacheSlot A T) (slots : List (CacheSlot A T)) → oldest slots ≡ some s → In s slots
  unfolding oldest
  oldest-In s [] h = absurd (cc)
  oldest-In s (x ∷ slots) h = elim (Option-cases (oldest slots)) [
    | inl e ↦ inl (sym (of_some (rw (e, oldest) at h)))
    | inr (t, e) ↦ elim (Bool-cases (leb x.last_used t.last_used)) [
      | inl l ↦ inl (sym (of_some (rw (e, oldest, l) at h)))
      | inr g ↦ inr (oldest-In s slots (e ∙ rw (e, oldest, g) at h))
    ]
  ]

  length-remove_slot :
      (s : CacheSlot A T) (slots : List (CacheSlot A T))
      → In s slots
      → length (remove_slot s.id slots) + 1 ≡ length slots
  unfolding remove_slot
  length-remove_slot s [] m = absurd m
  length-remove_slot s (x ∷ slots) m = elim (Bool-cases (eqb x.id s.id)) [
    | inl t ↦ rw t (omega arith)
    | inr f ↦ elim m [
      | inl e ↦ absurd (ground (arith, f, ap (λ (y : CacheSlot A T). y.id) e))
      | inr n ↦ rw f (omega (arith, length-remove_slot s slots n))
    ]
  ]

  pub In-remove_slot :
      (id : ℕ) (s : CacheSlot A T) (slots : List (CacheSlot A T))
      → In s (remove_slot id slots)
      → In s slots
  unfolding remove_slot
  In-remove_slot id s [] m = absurd m
  In-remove_slot id s (x ∷ slots) m = elim (Bool-cases (eqb x.id id)) [
    | inl t ↦ inr (rw t at m)
    | inr f ↦
        let m' : In s (x ∷ remove_slot id slots) = rw f at m in
        elim m' [ inl e ↦ inl e | inr n ↦ inr (In-remove_slot id s slots n) ]
  ]

  pub remove_slot-other :
      (id : ℕ) (s : CacheSlot A T) (slots : List (CacheSlot A T))
      → eqb s.id id ≡ false
      → In s slots
      → In s (remove_slot id slots)
  unfolding remove_slot
  remove_slot-other id s [] o m = absurd m
  remove_slot-other id s (x ∷ slots) o m = elim (Bool-cases (eqb x.id id)) [
    | inl t ↦ elim m [
      | inl e ↦ absurd (cc (o, t, ap (λ (y : CacheSlot A T). eqb y.id id) e))
      | inr n ↦ rw t n
    ]
    | inr f ↦ elim m [
      | inl e ↦ rw f (inl e)
      | inr n ↦ rw f (inr (remove_slot-other id s slots o n))
    ]
  ]

  -- No two slots share a cache object.
  abbrev pub OneCacheEach : List (CacheSlot A T) → Type 0
  OneCacheEach slots = (s t : CacheSlot A T) → In s slots → In t slots → s.id ≡ t.id → s ≡ t

  module _ (cache_bytes : Cache A T → ℕ) (snapshot_bytes : HybridSnapshot T → ℕ) where
    -- When the loop may end: within both limits, with nothing idle to drop, or at one slot.
    abbrev pub IsDone : Option ℕ → PromptCache A T → Type 0
    IsDone kept pool =
        (over_limits cache_bytes snapshot_bytes pool ≡ false)
        ⊎ (oldest (keep (idle kept) pool.slots) ≡ none)
        ⊎ (length pool.slots ≤ 1)

    -- A round that drops a slot leaves one less.
    victim-In :
        (kept : Option ℕ) (pool : PromptCache A T) (victim : CacheSlot A T)
        → oldest (keep (idle kept) pool.slots) ≡ some victim
        → In victim pool.slots × (idle kept victim ≡ true)
    victim-In kept pool victim e = In-keep (idle kept) victim pool.slots (oldest-In victim _ e)

    -- As many rounds as there are slots are enough: the loop ends within both limits, or with no
    -- idle slot left that it may drop, or with a single slot.
    pub evict-IsDone :
        (fuel : ℕ) (kept : Option ℕ) (pool : PromptCache A T)
        → length pool.slots ≤ fuel
        → IsDone kept (evict cache_bytes snapshot_bytes fuel kept pool)
    unfolding evict
    evict-IsDone zero kept pool le = inr (inr (omega arith))
    evict-IsDone (suc fuel) kept pool le =
        elim (Option-cases (oldest (keep (idle kept) pool.slots))) [
          | inl e ↦ rw (e, evict) (inr (inl e))
          | inr (victim, e) ↦
              elim (Bool-cases
                (not (over_limits cache_bytes snapshot_bytes pool) || leb (length pool.slots) 1)) [
                  | inl t ↦
                      rw (e, evict, t)
                        (elim (Bool-cases (over_limits cache_bytes snapshot_bytes pool)) [
                          | inl o ↦ inr (inr (ground arith))
                          | inr o ↦ inl o
                        ])
                  | inr f ↦
                      rw (e, evict, f)
                        (evict-IsDone fuel kept (drop_slot cache_bytes snapshot_bytes victim pool) (
                          omega (
                            arith,
                            length-remove_slot victim pool.slots (victim-In kept pool victim e).0,
                          )))
                ]
        ]

    evict-In :
        (fuel : ℕ) (kept : Option ℕ) (pool : PromptCache A T) (s : CacheSlot A T)
        → OneCacheEach pool.slots
        → In s pool.slots
        → idle kept s ≡ false
        → In s (evict cache_bytes snapshot_bytes fuel kept pool).slots
    unfolding evict
    evict-In zero kept pool s one m busy = m
    evict-In (suc fuel) kept pool s one m busy =
        elim (Option-cases (oldest (keep (idle kept) pool.slots))) [
          | inl e ↦ rw (e, evict) m
          | inr (victim, e) ↦
              elim (Bool-cases
                (not (over_limits cache_bytes snapshot_bytes pool) || leb (length pool.slots) 1)) [
                  | inl t ↦ rw (e, evict, t) m
                  | inr f ↦
                      rw (e, evict, f)
                        (evict-In fuel kept (drop_slot cache_bytes snapshot_bytes victim pool) s
                          (λ x y mx my.
                            one x y (In-remove_slot victim.id x pool.slots mx)
                              (In-remove_slot victim.id y pool.slots my))
                          (remove_slot-other victim.id s pool.slots
                            (spared victim (victim-In kept pool victim e)) m)
                          busy)
                ]
        ]
      where
        spared :
            (victim : CacheSlot A T)
            → In victim pool.slots × (idle kept victim ≡ true)
            → eqb s.id victim.id ≡ false
        spared victim (mv, free) = elim (Bool-cases (eqb s.id victim.id)) [
          | inl t ↦
              absurd
                (cc (busy, free, ap (idle kept) (one s victim m mv ((eqb_iff s.id victim.id).0 t))))
          | inr f ↦ f
        ]

    -- If no two slots share a cache, a slot that serves a reply, or that the caller keeps, is never
    -- dropped.
    pub evict_spared :
        (fuel : ℕ) (kept : Option ℕ) (pool : PromptCache A T) (s : CacheSlot A T)
        → OneCacheEach pool.slots
        → In s pool.slots
        → (s.in_use ≡ true) ⊎ (kept ≡ some s.id)
        → In s (evict cache_bytes snapshot_bytes fuel kept pool).slots
    evict_spared fuel kept pool s one m why = evict-In fuel kept pool s one m (elim why [
      | inl busy ↦ rw busy refl
      | inr e ↦ subst (λ k. idle k s ≡ false) (sym e) (ground arith)
    ])

    -- With a disk tier, and if no two slots share a cache, a slot that was in the pool or handed to
    -- the tier is in one of the two afterwards.
    pub evict-Kept :
        (fuel : ℕ) (kept : Option ℕ) (pool : PromptCache A T) (s : CacheSlot A T)
        → pool.has_tier ≡ true
        → OneCacheEach pool.slots
        → In s pool.slots ⊎ In s pool.spilled
        → let after = evict cache_bytes snapshot_bytes fuel kept pool in
          In s after.slots ⊎ In s after.spilled
    unfolding evict
    evict-Kept zero kept pool s tier one m = m
    evict-Kept (suc fuel) kept pool s tier one m =
        elim (Option-cases (oldest (keep (idle kept) pool.slots))) [
          | inl e ↦ rw (e, evict) m
          | inr (victim, e) ↦
              elim (Bool-cases
                (not (over_limits cache_bytes snapshot_bytes pool) || leb (length pool.slots) 1)) [
                  | inl t ↦ rw (e, evict, t) m
                  | inr f ↦
                      rw (e, evict, f)
                        (evict-Kept fuel kept (drop_slot cache_bytes snapshot_bytes victim pool) s
                          tier
                          (λ x y mx my.
                            one x y (In-remove_slot victim.id x pool.slots mx)
                              (In-remove_slot victim.id y pool.slots my))
                          (moved victim (victim-In kept pool victim e).0 m))
                ]
        ]
      where
        handed : CacheSlot A T → Bool → List (CacheSlot A T)
        handed victim tiered = if tiered then pool.spilled ++ (victim ∷ []) else pool.spilled

        moved :
            (victim : CacheSlot A T)
            → In victim pool.slots
            → In s pool.slots ⊎ In s pool.spilled
            → In s (remove_slot victim.id pool.slots) ⊎ In s (handed victim pool.has_tier)
        moved victim mv (inr n) = inr (rw tier (In-append_left s pool.spilled (victim ∷ []) n))
        moved victim mv (inl n) = elim (Bool-cases (eqb s.id victim.id)) [
          | inl t ↦ inr (
              rw tier (
                In-append_right s pool.spilled (victim ∷ [])
                  (inl (one s victim n mv ((eqb_iff s.id victim.id).0 t)))))
          | inr f ↦ inl (remove_slot-other victim.id s pool.slots f n)
        ]
