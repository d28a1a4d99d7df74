-- ===== src/Consensus/Proposer/Acks.antt =====
-- What a leader knows of a slot in flight: who accepted it, each node once.
use mathlib.Core.Path.{ap, subst₂}
use matricxon.Base.Dict.{
  get-remove_self, get-remove, get-put, get-put_self, get, put, get-In, In-put, In-remove,
}
use matricxon.Base.{
  ltb→lt, false, ◌<◌, contains→In, ◌==◌, true, of_some, ◌∙◌, ℕ, ◌≤◌, ◌≡◌, ◌⊎◌, inl, inr, String,
  List, Option, none, some, In, Distinct, Bool-cases, contains, length, string_eq, nat_eq, arith,
  subst, sym, refl, ltb,
}
use matricxon.Consensus.Command.{Command}
use matricxon.Consensus.Proposer.{Leadership, add_to_set, ack_entry, on_ack}

add_to_set-Distinct : (x : String) (xs : List String) → Distinct xs → Distinct (add_to_set x xs)
unfolding add_to_set
add_to_set-Distinct x xs d = elim (Bool-cases (contains x xs)) [
  | inl h ↦ rw h d
  | inr h ↦ rw h (h, d)
]

In-add_to_set : (x a : String) (xs : List String) → In a (add_to_set x xs) → (a ≡ x) ⊎ In a xs
unfolding add_to_set
In-add_to_set x a xs m = elim (Bool-cases (contains x xs)) [
  | inl h ↦ inr (rw h at m)
  | inr h ↦ rw h at m
]

In-add_to_set_self : (x : String) (xs : List String) → In x (add_to_set x xs)
unfolding add_to_set
In-add_to_set_self x xs = elim (Bool-cases (contains x xs)) [
  | inl h ↦ rw h (contains→In x xs h)
  | inr h ↦ rw h (inl refl)
]

add_to_set-In : (x a : String) (xs : List String) → In a xs → In a (add_to_set x xs)
unfolding add_to_set
add_to_set-In x a xs m = elim (Bool-cases (contains x xs)) [ inl h ↦ rw h m | inr h ↦ rw h (inr m) ]

-- A property of everything in flight: of the slot, the command and the nodes that accepted it.
abbrev pub InFlight : (ℕ → Command → Type 0) → (ℕ → String → Type 0) → Leadership → Type 0
InFlight P V l =
    (i : ℕ) (c : Command) (acks : List String)
    → In (i, (c, acks)) l.inflight
    → P i c × Distinct acks × ((a : String) → In a acks → V i a)

-- What is then in flight in the slot. If no command comes out, one that was in flight still is, the
-- sender among the nodes that accepted it, and these are too few. One that comes out is gone.
abbrev pub Kept : ℕ → String → Leadership → Leadership × Option Command → Type 0
Kept slot sender l (l', none) =
    (c : Command) (acks : List String)
    → get slot l.inflight ≡ some (c, acks)
    → (acks' : List String) × (get slot l'.inflight ≡ some (c, acks'))
      × In sender acks'
      × ((a : String) → In a acks → In a acks')
      × (length acks' < l.quorum)
Kept slot sender l (l', some c) = get slot l'.inflight ≡ none

-- What counting an acceptance leaves: the slots in flight keep their property, a command that
-- comes out is that of the slot, with the distinct nodes that accepted it, as many as the quorum,
-- no other slot changes, and the slot itself is cleared only for a command that comes out.
abbrev pub Counted :
    (ℕ → Command → Type 0)
    → (ℕ → String → Type 0)
    → ℕ
    → String
    → Leadership
    → Leadership × Option Command
    → Type 0
Counted P V slot sender l (l', out) =
    (l' ≡ record l { inflight = l'.inflight })
    × InFlight P V l'
    × ((c : Command)
        → out ≡ some c
        → P slot c
          × ((acks : List String) × Distinct acks
              × (l.quorum ≤ length acks)
              × ((a : String) → In a acks → V slot a)))
    × ((i : ℕ) → (slot == i) ≡ false → get i l'.inflight ≡ get i l.inflight)
    × Kept slot sender l (l', out)

module _ (P : ℕ → Command → Type 0) (V : ℕ → String → Type 0) (slot : ℕ) (sender : String)
    (l : Leadership) (all : InFlight P V l) (vote : V slot sender) where
  acks_with :
      (acks : List String)
      → ((a : String) → In a acks → V slot a)
      → (a : String) → In a (add_to_set sender acks)
      → V slot a
  acks_with acks each a m = elim (In-add_to_set sender a acks m) [
    | inl p ↦ subst (V slot) (sym p) vote
    | inr k ↦ each a k
  ]

  put-InFlight :
      (c : Command) (acks : List String)
      → In (slot, (c, acks)) l.inflight
      → InFlight P V (record l { inflight = put slot (c, add_to_set sender acks) l.inflight })
  put-InFlight c acks m i c' acks' k =
      elim (In-put slot (c, add_to_set sender acks) l.inflight i (c', acks') k) [
        | inr old ↦ all i c' acks' old
        | inl (p, q) ↦
            let (known, distinct, each) = all slot c acks m in
            subst₂
              (λ j (w : Command × List String).
                P j w.0 × Distinct w.1 × ((a : String) → In a w.1 → V j a))
              (sym p) (sym q) (known, add_to_set-Distinct sender acks distinct, acks_with acks each)
      ]

  still :
      (c : Command) (acks : List String) (c' : Command) (acks' : List String)
      → ◌≡◌ {A = Command × List String} (c, acks) (c', acks')
      → ltb (length (add_to_set sender acks)) l.quorum ≡ true
      → (more : List String) × (get slot (put slot (c, add_to_set sender acks) l.inflight)
          ≡ some (c', more))
        × In sender more
        × ((a : String) → In a acks' → In a more)
        × (length more < l.quorum)
  still c acks c' acks' p few = (
    add_to_set sender acks,
    get-put_self slot (c, add_to_set sender acks) l.inflight
        ∙ ap (λ (x : Command). some (x, add_to_set sender acks))
            (ap (λ (x : Command × List String). x.0) p),
    In-add_to_set_self sender acks,
    λ a m.
        add_to_set-In sender a acks
          (subst (In a) (sym (ap (λ (x : Command × List String). x.1) p)) m),
    ltb→lt _ _ few,
  )

  entry-Counted :
      (o : Option (Command × List String))
      → get slot l.inflight ≡ o
      → Counted P V slot sender l (ack_entry o slot sender l)
  unfolding ack_entry
  entry-Counted none e =
      (refl, all, λ c h. absurd (cc), λ i q. refl, λ c acks h. absurd (cc (sym e ∙ h)))
  entry-Counted (some (c, acks)) e =
      let m : In (slot, (c, acks)) l.inflight = get-In slot (c, acks) l.inflight e in
      let (known, distinct, each) = all slot c acks m in
      elim (Bool-cases (ltb (length (add_to_set sender acks)) l.quorum)) [
        | inl few ↦ rw few (
          refl,
          put-InFlight c acks m,
          λ c' h. absurd (cc),
          λ i q. rw (get-put slot i (c, add_to_set sender acks) l.inflight, q),
          λ c' acks' h. still c acks c' acks' (of_some (sym e ∙ h)) few,
        )
        | inr enough ↦ rw enough (
          refl,
          λ i c' acks' k. all i c' acks' (In-remove slot l.inflight i (c', acks') k),
          λ c' h. (
            subst (P slot) (of_some h) known,
            (
              add_to_set sender acks,
              add_to_set-Distinct sender acks distinct,
              ground arith,
              acks_with acks each,
            ),
          ),
          λ i q. rw (get-remove slot i l.inflight, q),
          get-remove_self slot l.inflight,
        )
      ]

  -- If everything in flight has a property and the sender has that of a node that accepts the slot,
  -- then counting its acceptance keeps the property, and no other slot changes. A command leaves
  -- its slot only when it comes out, with a quorum of distinct nodes that accepted it; below the
  -- quorum it stays in its slot, with the nodes so far and the sender.
  pub on_ack-Counted : Counted P V slot sender l (on_ack slot sender l)
  unfolding on_ack
  on_ack-Counted = entry-Counted (get slot l.inflight) refl
