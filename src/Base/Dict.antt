-- ===== src/Base/Dict.antt =====
-- Python's `dict`: an association list in the order of insertion. Assigning to a key that is there
-- keeps its place, and a new key goes to the end.
use Prim.Native.Nat.{◌+◌, ◌≤◌}
use mathlib.Core.Bool.{◌||◌, Bool, true, false}
use mathlib.Core.List.{◌++◌, List, [], ◌∷◌, map}
use mathlib.Core.Path.{◌≡◌, refl, ap, ◌∙◌}
use mathlib.Core.Logic.{◌⊎◌, inl, inr}
use mathlib.Core.Option.{Option, none, some}
use native.Mathlib.Omega.{arith}
use matricxon.Base.Tests.{if◌then◌else◌, Bool-cases}
use matricxon.Base.Equality.{Eq, ◌==◌, beq_self, beq-cases}
use matricxon.Base.Lists.{length, contains, Distinct, In}

abbrev pub Dict : Type 0 → Type 0 → Type 0
Dict K V = List (K × V)

abbrev pub keys : {K V : Type 0} → Dict K V → List K
keys = map (λ e. e.0)

module _ {K V : Type 0} ⦃e : Eq K⦄ where
  -- `d.get(k)`
  unfoldable pub get : K → Dict K V → Option V
  get k [] = none
  get k ((j, v) ∷ d) = if j == k then some v else get k d

  -- `d[k] = v`
  unfoldable pub put : K → V → Dict K V → Dict K V
  put k v [] = (k, v) ∷ []
  put k v ((j, w) ∷ d) = if j == k then (j, v) ∷ d else (j, w) ∷ put k v d

  -- `d.pop(k, None)`
  unfoldable pub remove : K → Dict K V → Dict K V
  remove k [] = []
  remove k ((j, v) ∷ d) = let rest = remove k d in if j == k then rest else (j, v) ∷ rest

  -- `k in d`
  unfoldable pub has : K → Dict K V → Bool
  has k [] = false
  has k ((j, v) ∷ d) = if j == k then true else has k d

  -- `d.get(k, default)`
  abbrev pub get_or : K → V → Dict K V → V
  get_or k v d = elim (get k d) [ none ↦ v | some w ↦ w ]

  -- `d.update(other)`
  unfoldable pub update : Dict K V → Dict K V → Dict K V
  update d [] = d
  update d ((k, v) ∷ more) = update (put k v d) more

  pub get-put :
      (k j : K) (v : V) (d : Dict K V) → get j (put k v d) ≡ (if k == j then some v else get j d)
  unfolding get put
  get-put k j v [] = refl
  get-put k j v ((i, w) ∷ d) =
      ground (arith, e.beq_iff k j, e.beq_iff i k, e.beq_iff i j, get-put k j v d)

  pub get-remove :
      (k j : K) (d : Dict K V) → get j (remove k d) ≡ (if k == j then none else get j d)
  unfolding get remove
  get-remove k j [] = ground arith
  get-remove k j ((i, w) ∷ d) =
      ground (arith, e.beq_iff k j, e.beq_iff i k, e.beq_iff i j, get-remove k j d)

  pub get-put_self : (k : K) (v : V) (d : Dict K V) → get k (put k v d) ≡ some v
  get-put_self k v d = simp (get-put, beq_self)

  pub get-remove_self : (k : K) (d : Dict K V) → get k (remove k d) ≡ none
  get-remove_self k d = simp (get-remove, beq_self)

  -- A key that is looked up with success is among the keys.
  pub In-keys : (k : K) (v : V) (d : Dict K V) → get k d ≡ some v → In k (keys d)
  unfolding get
  In-keys k v [] h = absurd (cc)
  In-keys k v ((j, w) ∷ d) h = elim (beq-cases j k) [
    | inl p ↦ inl (cc)
    | inr q ↦ inr (In-keys k v d (ground arith))
  ]

  -- The keys of a dictionary are distinct, and stay so.
  contains-put :
      (k i : K) (v : V) (d : Dict K V)
      → contains i (keys d) ≡ false
      → (i == k) ≡ false
      → contains i (keys (put k v d)) ≡ false
  unfolding put contains
  contains-put k i v [] h q = ground arith
  contains-put k i v ((j, w) ∷ d) h q = ground (arith, contains-put k i v d)

  pub Distinct-put :
      (k : K) (v : V) (d : Dict K V) → Distinct (keys d) → Distinct (keys (put k v d))
  unfolding put contains
  Distinct-put k v [] h = (refl, tt)
  Distinct-put k v ((j, w) ∷ d) h = ground (arith, contains-put k j v d, Distinct-put k v d h.1)

  pub length-remove : (k : K) (d : Dict K V) → length (remove k d) ≤ length d
  unfolding remove
  length-remove k [] = omega arith
  length-remove k ((j, w) ∷ d) = ground (arith, length-remove k d)

  -- A lookup that succeeds finds an entry of the list.
  pub get-In : (k : K) (v : V) (d : Dict K V) → get k d ≡ some v → In (k, v) d
  unfolding get
  get-In k v [] h = absurd (cc)
  get-In k v ((j, w) ∷ d) h = elim (beq-cases j k) [
    | inl p ↦ inl (λ i. (p' p i, w' p i))
    | inr q ↦ inr (get-In k v d (ground arith))
  ]
    where
      p' : j ≡ k → k ≡ j
      p' p = cc

      w' : j ≡ k → v ≡ w
      w' p = ground (arith, beq_self k)

  -- The entries after an assignment are the new one and old ones.
  pub In-put :
      (k : K) (v : V) (d : Dict K V) (j : K) (w : V)
      → In (j, w) (put k v d)
      → ((j ≡ k) × (w ≡ v)) ⊎ In (j, w) d
  unfolding put
  In-put k v [] j w (inl p) = inl (ap (λ (x : K × V). x.0) p, ap (λ (x : K × V). x.1) p)
  In-put k v [] j w (inr m) = absurd m
  In-put k v ((i, u) ∷ d) j w m = elim (Bool-cases (i == k)) [
    | inl h ↦
        let m' : In (j, w) ((i, v) ∷ d) = rw h at m in
        elim m' [
          | inl p ↦ inl (ap (λ (x : K × V). x.0) p ∙ (e.beq_iff i k).0 h, ap (λ (x : K × V). x.1) p)
          | inr n ↦ inr (inr n)
        ]
    | inr h ↦
        let m' : In (j, w) ((i, u) ∷ put k v d) = rw h at m in
        elim m' [
          | inl p ↦ inr (inl p)
          | inr n ↦ elim (In-put k v d j w n) [ inl q ↦ inl q | inr o ↦ inr (inr o) ]
        ]
  ]

  pub In-remove : (k : K) (d : Dict K V) (j : K) (w : V) → In (j, w) (remove k d) → In (j, w) d
  unfolding remove
  In-remove k [] j w m = absurd m
  In-remove k ((i, u) ∷ d) j w m = elim (Bool-cases (i == k)) [
    | inl h ↦ inr (In-remove k d j w (rw h at m))
    | inr h ↦
        let m' : In (j, w) ((i, u) ∷ remove k d) = rw h at m in
        elim m' [ inl p ↦ inl p | inr n ↦ inr (In-remove k d j w n) ]
  ]

  -- A key that is there already is overwritten in place; a new one is one entry more.
  pub length-put :
      (k : K) (v : V) (d : Dict K V)
      → length (put k v d) ≡ (if has k d then length d else length d + 1)
  unfolding put has
  length-put k v [] = refl
  length-put k v ((j, w) ∷ d) = ground (arith, length-put k v d)

  pub has-put : (k : K) (v : V) (d : Dict K V) → has k (put k v d) ≡ true
  unfolding put has
  has-put k v [] = rw (beq_self k)
  has-put k v ((j, w) ∷ d) = ground (arith, has-put k v d)

  -- A new key goes to the end.
  pub put-fresh : (k : K) (v : V) (d : Dict K V) → has k d ≡ false → put k v d ≡ d ++ ((k, v) ∷ [])
  unfolding put has
  put-fresh k v [] h = refl
  put-fresh k v ((j, w) ∷ d) h = elim (Bool-cases (j == k)) [
    | inl q ↦ absurd (cc (rw q at h))
    | inr q ↦ rw q (ap (λ rest. (j, w) ∷ rest) (put-fresh k v d (rw q at h)))
  ]

  pub has-snoc : (k j : K) (v : V) (d : Dict K V) → has k (d ++ ((j, v) ∷ [])) ≡ (has k d || j == k)
  unfolding has
  has-snoc k j v [] = ground arith
  has-snoc k j v ((i, w) ∷ d) = ground (arith, has-snoc k j v d)
