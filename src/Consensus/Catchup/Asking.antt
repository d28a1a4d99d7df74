-- ===== src/Consensus/Catchup/Asking.antt =====
-- Whom the pull of the log asks, when, and for what.
use matricxon.Base.{
  refl, sym, ℕ, ◌≤◌, ◌<◌, ◌⊎◌, String, ◌≡◌, inl, inr, none, some, true, false, Option, Option-cases,
  Bool-cases, of_some, ap, ◌∙◌, arith, nat_eq, string_eq, ◌==◌, if◌then◌else◌,
}
use matricxon.Consensus.Catchup.Due.{Due, waits-Due}
use matricxon.Consensus.Messages.{CatchUp}
use matricxon.Consensus.Replica.{before}
use matricxon.Consensus.Catchup.{Position, CatchUpPolicy, note_ahead, request, pull, moved, waits}

-- The second position is at the first or later: in a later epoch, or in the same at no lower slot.
abbrev pub NotBefore : Position → Position → Type 0
NotBefore (e, s) (e', s') = (e < e') ⊎ ((e ≡ e') × (s ≤ s'))

before-NotBefore : (e s e' s' : ℕ) → before e' s' e s ≡ false → NotBefore (e, s) (e', s')
before-NotBefore e s e' s' h = ground arith

-- The peer and the position that the node keeps in mind after it was told of another: the told one
-- if it knew of none, and otherwise one of the two, at least as far as the one it knew.
abbrev pub Furthest : Option (String × Position) → String × Position → String × Position → Type 0
Furthest none told kept = kept ≡ told
Furthest (some old) told kept = NotBefore old.1 kept.1 × ((kept ≡ told) ⊎ (kept ≡ old))

note_ahead-Furthest_of :
    (o : Option (String × Position)) (peer : String) (e slot : ℕ) (p : CatchUpPolicy)
    → p.ahead ≡ o
    → (kept : String × Position) × ((note_ahead peer e slot p).ahead ≡ some kept)
      × NotBefore (e, slot) kept.1
      × Furthest o (peer, (e, slot)) kept
unfolding note_ahead
note_ahead-Furthest_of none peer e slot p h =
    ((peer, (e, slot)), rw (h, note_ahead), ground arith, λ i. (peer, (e, slot)))
note_ahead-Furthest_of (some (q, (e', slot'))) peer e slot p h =
    elim (Bool-cases (before e slot e' slot')) [
      | inl k ↦ (
        (q, (e', slot')),
        rw (h, note_ahead, k) h,
        ground arith,
        (ground arith, inr (λ i. (q, (e', slot')))),
      )
      | inr k ↦ (
        (peer, (e, slot)),
        rw (h, note_ahead, k),
        ground arith,
        (before-NotBefore e' slot' e slot k, inl (λ i. (peer, (e, slot)))),
      )
    ]

-- After a peer has said how far it is, the peer that the node keeps in mind is that one, or the one
-- that it kept before, with its position, and is at least as far as either.
pub note_ahead-Furthest :
    (peer : String) (e slot : ℕ) (p : CatchUpPolicy)
    → (kept : String × Position) × ((note_ahead peer e slot p).ahead ≡ some kept)
      × NotBefore (e, slot) kept.1
      × Furthest p.ahead (peer, (e, slot)) kept
note_ahead-Furthest peer e slot p = note_ahead-Furthest_of p.ahead peer e slot p refl

-- What the pull asks its peer for: the log from the node's position on. Of itself it asks nothing.
abbrev pub wanted : String → Position → CatchUpPolicy → Option CatchUp
wanted peer here p =
    if peer == p.id
    then none
    else some (record { sender = p.id; epoch = here.0; from_slot = here.1 })

request-wanted :
    (peer : String) (now : ℕ) (here : Position) (p : CatchUpPolicy)
    → ((request peer now true here p).1 ≡ wanted peer here p)
      × ((request peer now true here p).0.asked_at ≡ p.asked_at)
unfolding request
request-wanted peer now here p = ground arith

id-moved : (now : ℕ) (here : Position) (p : CatchUpPolicy) → (moved now here p).id ≡ p.id
unfolding moved
id-moved now here p = ground arith

pull_asks :
    (now : ℕ) (here : Position) (p : CatchUpPolicy) (q : String) (e slot : ℕ)
    → p.ahead ≡ some (q, (e, slot))
    → before here.0 here.1 e slot ≡ true
    → waits now here (moved now here p) ≡ false
    → ((pull now here p).1 ≡ some (q, wanted q here p)) × ((pull now here p).0.asked_at ≡ some here)
unfolding pull
pull_asks now here p q e slot k b w = (
  rw (k, pull, b, w)
      (ap (λ (x : Option CatchUp). some (q, x))
        ((request-wanted q now here asking).0
          ∙ ap
              (λ (n : String).
                if q == n
                then none
                else some (record { sender = n; epoch = here.0; from_slot = here.1 }))
              (id-moved now here p))),
  rw (k, pull, b, w) ((request-wanted q now here asking).1),
)
  where
    asking : CatchUpPolicy
    asking = record (moved now here p) { asked_at = some here }

-- The pull of the log asks only the peer that the node keeps in mind, only while that peer is ahead,
-- and only when the next batch is due: none was asked for yet, the last one has been taken in, or the
-- node has not moved for a second. It asks for the log from the node's position on, of itself for
-- nothing, and notes the position that it asked from.
pub pull-ahead :
    (now : ℕ) (here : Position) (p : CatchUpPolicy) (peer : String) (asked : Option CatchUp)
    → (pull now here p).1 ≡ some (peer, asked)
    → (there : Position) × (p.ahead ≡ some (peer, there))
      × ((here.0 < there.0) ⊎ ((here.0 ≡ there.0) × (here.1 < there.1)))
      × Due now here p
      × (asked ≡ wanted peer here p)
      × ((pull now here p).0.asked_at ≡ some here)
unfolding pull
pull-ahead now here p peer asked h = elim (Option-cases p.ahead) [
  | inl k ↦ absurd (cc (rw (k, pull) at h))
  | inr ((q, (e, slot)), k) ↦ elim (Bool-cases (before here.0 here.1 e slot)) [
    | inr b ↦ absurd (cc (rw (k, pull, b) at h))
    | inl b ↦ elim (Bool-cases (waits now here (moved now here p))) [
      | inl w ↦ absurd (cc (rw (k, pull, b, w) at h))
      | inr w ↦
          let (answer, noted) = pull_asks now here p q e slot k b w in
          let same : ◌≡◌ {A = String × Option CatchUp} (q, wanted q here p) (peer, asked) =
            of_some (sym answer ∙ h) in
          let who : q ≡ peer = ap (λ (x : String × Option CatchUp). x.0) same in
          (
            (e, slot),
            k ∙ ap (λ (x : String). some (x, (e, slot))) who,
            ground arith,
            waits-Due now here p p.asked_at refl w,
            sym (ap (λ (x : String × Option CatchUp). x.1) same)
                ∙ ap (λ (x : String). wanted x here p) who,
            noted,
          )
    ]
  ]
]
