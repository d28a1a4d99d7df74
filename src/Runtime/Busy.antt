-- ===== src/Runtime/Busy.antt =====
-- The slots that serve a reply, while `_take` and `_add` (app/runtime/prompt_cache.py) find a cache
-- for another prompt.
use matricxon.Base.{
  keep, leb, ℕ, zero, suc, ◌+◌, ◌<◌, ◌≡◌, List, [], ◌∷◌, ◌++◌, Option, none, some, true, false,
  length, ltb, eqb, not, ◌||◌, ◌&&◌, string_eq, arith, In, Bool-cases, Option-cases, inl, inr, refl,
  ap, sym, subst, ◌∙◌, In-append_left, In-append_cases,
}
use matricxon.Runtime.Hybrid.{HybridSnapshot}
use matricxon.Runtime.Slot.{Cache, CacheSlot, rewind, fork, rewind_cache, fork_cache}
use matricxon.Runtime.Pool.{
  PromptCache, set_slot, remove_slot, evict, use_slot, add_slot, oldest, idle, over_limits,
  drop_slot,
}
use matricxon.Runtime.Eviction.{OneCacheEach, evict_spared, remove_slot-other, In-remove_slot}
use matricxon.Runtime.Acquire.{continues, wants_fork, add_fork, take_slot}

module _ {A T : Type 0} where
  pub set_slot-other :
      (slot s : CacheSlot A T) (slots : List (CacheSlot A T))
      → eqb s.id slot.id ≡ false
      → In s slots
      → In s (set_slot slot slots)
  unfolding set_slot
  set_slot-other slot s [] o m = absurd m
  set_slot-other slot s (x ∷ slots) o m = elim (Bool-cases (eqb x.id slot.id)) [
    | inl t ↦ elim m [
      | inl e ↦ absurd (cc (o, t, ap (λ (y : CacheSlot A T). eqb y.id slot.id) e))
      | inr n ↦ rw t (inr n)
    ]
    | inr f ↦ elim m [ inl e ↦ rw f (inl e) | inr n ↦ rw f (inr (set_slot-other slot s slots o n)) ]
  ]

  -- A slot that has just been added is the last.
  set_slot-snoc :
      (used slot : CacheSlot A T) (slots : List (CacheSlot A T))
      → used.id ≡ slot.id
      → ((t : CacheSlot A T) → In t slots → eqb t.id slot.id ≡ false)
      → set_slot used (slots ++ (slot ∷ [])) ≡ slots ++ (used ∷ [])
  unfolding set_slot
  set_slot-snoc used slot [] e new = rw (itself) refl
    where
      itself : eqb slot.id used.id ≡ true
      itself = ground (arith, e)
  set_slot-snoc used slot (x ∷ slots) e new =
      rw (other) (ap (λ rest. x ∷ rest) (set_slot-snoc used slot slots e (λ t m. new t (inr m))))
    where
      other : eqb x.id used.id ≡ false
      other = ground (arith, e, new x (inl refl))

  OneCacheEach-snoc :
      (slot : CacheSlot A T) (slots : List (CacheSlot A T))
      → OneCacheEach slots
      → ((t : CacheSlot A T) → In t slots → eqb t.id slot.id ≡ false)
      → OneCacheEach (slots ++ (slot ∷ []))
  OneCacheEach-snoc slot slots one new s t ms mt e = elim (In-append_cases s slots (slot ∷ []) ms) [
    | inl ns ↦ elim (In-append_cases t slots (slot ∷ []) mt) [
      | inl nt ↦ one s t ns nt e
      | inr nt ↦ elim nt [
        | inl q ↦ absurd (ground (arith, e, ap (λ (y : CacheSlot A T). y.id) q, new s ns))
        | inr q ↦ elim q [ ]
      ]
    ]
    | inr ns ↦ elim ns [
      | inl p ↦ elim (In-append_cases t slots (slot ∷ []) mt) [
        | inl nt ↦ absurd (ground (arith, e, ap (λ (y : CacheSlot A T). y.id) p, new t nt))
        | inr nt ↦ elim nt [ inl q ↦ p ∙ sym q | inr q ↦ elim q [ ] ]
      ]
      | inr p ↦ elim p [ ]
    ]
  ]

  -- No two slots share a cache, and a new cache gets an id of its own.
  pub record IsPool (pool : PromptCache A T) : Type 0 where
    pub one : OneCacheEach pool.slots
    pub old : (s : CacheSlot A T) → In s pool.slots → s.id < pool.next_id
    pub room : 0 < pool.max_slots

  module _ (cache_bytes : Cache A T → ℕ) (snapshot_bytes : HybridSnapshot T → ℕ) where
    -- A slot that serves a reply outlives the arrival of a new one.
    pub add_slot-In :
        (slot s : CacheSlot A T) (pool : PromptCache A T)
        → OneCacheEach pool.slots
        → ((t : CacheSlot A T) → In t pool.slots → eqb t.id slot.id ≡ false)
        → In s pool.slots
        → s.in_use ≡ true
        → In s (add_slot cache_bytes snapshot_bytes slot pool).0.slots
    unfolding add_slot use_slot
    add_slot-In slot s pool one new m busy =
        let used : CacheSlot A T = record slot { last_used = pool.tick + 1 } in
        let same = set_slot-snoc used slot pool.slots refl new in
        evict_spared cache_bytes snapshot_bytes _ (some slot.id)
          (record pool { tick = pool.tick + 1; slots = set_slot used (pool.slots ++ (slot ∷ [])) })
          s (subst OneCacheEach (sym same) (OneCacheEach-snoc used pool.slots one new))
          (subst (In s) (sym same) (In-append_left s pool.slots (used ∷ []) m)) (inl busy)

    evict_frame :
        (fuel : ℕ) (kept : Option ℕ) (pool : PromptCache A T)
        → let after = evict cache_bytes snapshot_bytes fuel kept pool in
          (after.next_id ≡ pool.next_id)
          × (after.max_slots ≡ pool.max_slots)
          × ((s : CacheSlot A T) → In s after.slots → In s pool.slots)
    unfolding evict
    evict_frame zero kept pool = (refl, refl, λ s m. m)
    evict_frame (suc fuel) kept pool = elim (Option-cases (oldest (keep (idle kept) pool.slots))) [
      | inl e ↦ rw (e, evict) (refl, refl, λ s m. m)
      | inr (victim, e) ↦
          elim (Bool-cases
            (not (over_limits cache_bytes snapshot_bytes pool) || leb (length pool.slots) 1)) [
              | inl t ↦ rw (e, evict, t) (refl, refl, λ s m. m)
              | inr f ↦
                  let rest =
                    evict_frame fuel kept (drop_slot cache_bytes snapshot_bytes victim pool) in
                  rw (e, evict, f)
                    (rest.0, rest.1, λ s m. In-remove_slot victim.id s pool.slots (rest.2 s m))
            ]
    ]

    -- The pool with a slot of a new id is a pool again.
    pub add_slot-IsPool :
        (slot : CacheSlot A T) (pool : PromptCache A T)
        → IsPool pool
        → IsPool
            (add_slot cache_bytes snapshot_bytes
              (record slot { id = pool.next_id })
              (record pool { next_id = pool.next_id + 1 })).0
    unfolding add_slot use_slot
    add_slot-IsPool slot pool good = record {
      one = λ s t ms mt e.
          OneCacheEach-snoc used pool.slots good.one fresh s t (there s ms) (there t mt) e;
      old = λ s m. older s (there s m);
      room = omega (arith, frame.1, good.room);
    }
      where
        new : CacheSlot A T
        new = record slot { id = pool.next_id }

        used : CacheSlot A T
        used = record new { last_used = pool.tick + 1 }

        fresh : (t : CacheSlot A T) → In t pool.slots → eqb t.id pool.next_id ≡ false
        fresh t m = ground (arith, good.old t m)

        grown : PromptCache A T
        grown = record pool {
          next_id = pool.next_id + 1;
          tick = pool.tick + 1;
          slots = set_slot used (pool.slots ++ (new ∷ []));
        }

        frame :
            let after = evict cache_bytes snapshot_bytes (length grown.slots) (some new.id) grown in
            (after.next_id ≡ grown.next_id)
            × (after.max_slots ≡ grown.max_slots)
            × ((s : CacheSlot A T) → In s after.slots → In s grown.slots)
        frame = evict_frame (length grown.slots) (some new.id) grown

        there :
            (s : CacheSlot A T)
            → In s (evict cache_bytes snapshot_bytes (length grown.slots) (some new.id) grown).slots
            → In s (pool.slots ++ (used ∷ []))
        there s m = subst (In s) (set_slot-snoc used new pool.slots refl fresh) (frame.2 s m)

        older :
            (s : CacheSlot A T)
            → In s (pool.slots ++ (used ∷ []))
            → s.id
              < (evict cache_bytes snapshot_bytes (length grown.slots) (some new.id) grown).next_id
        older s m = elim (In-append_cases s pool.slots (used ∷ []) m) [
          | inl n ↦ omega (arith, frame.0, good.old s n)
          | inr n ↦ elim n [
            | inl p ↦ omega (arith, frame.0, ap (λ (y : CacheSlot A T). y.id) p)
            | inr p ↦ elim p [ ]
          ]
        ]

  module _ (empty : A) (cache_bytes : Cache A T → ℕ) (snapshot_bytes : HybridSnapshot T → ℕ) where
    -- The slot is where it was, and is not the one that is handed out.
    abbrev pub Spared : CacheSlot A T → Option (PromptCache A T × CacheSlot A T) → Type 0
    Spared s none = Unit
    Spared s (some (pool, slot)) = In s pool.slots × (eqb s.id slot.id ≡ false)

    add_fork-Spared :
        (id n : ℕ) (wanted : Option ℕ) (slot s : CacheSlot A T) (pool : PromptCache A T)
        → OneCacheEach pool.slots
        → ((t : CacheSlot A T) → In t pool.slots → eqb t.id id ≡ false)
        → In s pool.slots
        → s.in_use ≡ true
        → Spared s (add_fork empty cache_bytes snapshot_bytes (fork empty id n wanted slot) pool)
    unfolding fork add_slot use_slot
    add_fork-Spared id n wanted slot s pool one new m busy =
        elim (Option-cases (fork_cache empty n wanted slot.cache slot.snapshots)) [
          | inl e ↦ rw (e, fork) tt
          | inr (cache, e) ↦
              rw (e, fork)
                (
                  add_slot-In cache_bytes snapshot_bytes _ s
                      (record pool { next_id = pool.next_id + 1 }) one new m busy,
                  new s m,
                )
        ]

    rewind-Spared :
        (n : ℕ) (slot s : CacheSlot A T) (pool : PromptCache A T)
        → In s pool.slots
        → eqb s.id slot.id ≡ false
        → Spared s (elim (rewind n slot) as (λ _. Option (PromptCache A T × CacheSlot A T)) [
          | none ↦ none
          | some cut ↦ some (use_slot cut (record pool { slots = set_slot cut pool.slots }))
        ])
    unfolding rewind use_slot
    rewind-Spared n slot s pool m other =
        elim (Option-cases (rewind_cache n slot.cache slot.snapshots)) [
          | inl e ↦ rw (e, rewind) tt
          | inr (cache, e) ↦
              rw (e, rewind)
                (set_slot-other _ s _ other (set_slot-other _ s pool.slots other m), other)
        ]

    pub take_slot-Spared :
        (slot s : CacheSlot A T) (common n num_ctx : ℕ) (pool : PromptCache A T)
        → IsPool pool
        → In slot pool.slots
        → (slot.in_use && eqb pool.max_slots 1) ≡ false
        → In s pool.slots
        → s.in_use ≡ true
        → Spared s (take_slot empty cache_bytes snapshot_bytes slot common n num_ctx pool)
    unfolding take_slot
    take_slot-Spared slot s common n num_ctx pool good chosen free m busy =
        elim (Bool-cases (ltb slot.num_ctx num_ctx)) [
          | inl t ↦
              rw t
                (elim (Bool-cases
                  (continues empty cache_bytes snapshot_bytes slot common && not slot.in_use)) [
                    | inl c ↦ rw c (
                        add_fork-Spared pool.next_id n (some num_ctx) slot s
                          (record pool { slots = remove_slot slot.id pool.slots })
                          (λ x y mx my.
                            good.one x y (In-remove_slot slot.id x pool.slots mx)
                              (In-remove_slot slot.id y pool.slots my))
                          (λ x mx. fresh x (In-remove_slot slot.id x pool.slots mx))
                          (remove_slot-other slot.id s pool.slots (other (ground arith)) m) busy)
                    | inr c ↦ rw c (
                        add_fork-Spared pool.next_id n (some num_ctx) slot s pool good.one fresh m
                          busy)
                  ])
          | inr f ↦
              elim (Bool-cases (
                ltb 1 pool.max_slots
                && wants_fork empty cache_bytes snapshot_bytes slot common n)) [
                  | inl t ↦
                      rw (f, t)
                        (add_fork-Spared pool.next_id n none slot s pool good.one fresh m busy)
                  | inr g ↦
                      rw (f, g)
                        (rewind-Spared n slot s pool m (other (ground (arith, g, good.room, free))))
                ]
        ]
      where
        fresh : (t : CacheSlot A T) → In t pool.slots → eqb t.id pool.next_id ≡ false
        fresh t mt = ground (arith, good.old t mt)

        other : slot.in_use ≡ false → eqb s.id slot.id ≡ false
        other idle_slot = elim (Bool-cases (eqb s.id slot.id)) [
          | inl t ↦ absurd (
              cc (
                busy,
                idle_slot,
                ap (λ (y : CacheSlot A T). y.in_use) (good.one s slot m chosen (ground (arith, t))),
              ))
          | inr f ↦ f
        ]
