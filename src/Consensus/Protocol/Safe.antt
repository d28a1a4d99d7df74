-- ===== src/Consensus/Protocol/Safe.antt =====
-- Why a new leader's proposals are safe: the promises of a majority tell enough of the past.
use matricxon.Base.{
  ℕ, ◌≤◌, ◌≡◌, ◌⊎◌, inl, inr, String, List, none, some, Bool, true, In, contains, contains→In,
  Distinct, length, Bool-cases, string_eq, nat_eq, arith, sym, ap, ◌∙◌, of_some, refl, In→contains,
  [], ◌∷◌, subst,
}
use matricxon.Base.Count.{length-le-count, overlap}
use matricxon.Base.Dict.{Dict, keys, get}
use matricxon.Consensus.Ballot.{Ballot}
use matricxon.Consensus.Ballot.Order.{
  Lt, Le, lt_le_trans, not-lt_of_le, total, le_trans, le_antisymm,
}
use matricxon.Consensus.Command.{Command}
use matricxon.Consensus.Messages.{Entry, Promise, promise}
use matricxon.Consensus.Proposer.{Campaign, best_of}
use matricxon.Consensus.Proposer.Best.{Covers, best_of-Covers, best_of_origin}
use matricxon.Consensus.Protocol.{System, majority}
use matricxon.Consensus.Protocol.Facts.{
  promised, position, Proposed, Voted, has_vote, IsQuorum, SafeAt, Grows, Proposed-later,
}

-- Two majorities share a voter.
pub quorums_meet :
    (voters : List String) (p q : String → Bool)
    → IsQuorum voters p
    → IsQuorum voters q
    → (a : String) × In a voters × (p a ≡ true) × (q a ≡ true)
quorums_meet voters p q h k = elim (overlap p q voters) [ inl l ↦ absurd (omega arith) | inr w ↦ w ]

-- What an answer to a Prepare says of the acceptor, now and for ever.
pub record PromiseOk (voters : List String) (s : System) (m : Promise) : Type 0 where
  pub member : In m.sender voters
  pub bound : Le m.ballot (promised s m.sender)
  pub reported :
      (i : ℕ) (b : Ballot) (c : Command)
      → In (i, b, c) m.accepted
      → Proposed s b i c × (Lt b m.ballot ⊎ Proposed s m.ballot i c)
  pub complete :
      (i : ℕ) (b : Ballot)
      → position s m.ballot.node ≤ i
      → Voted s m.sender b i
      → Lt b m.ballot
      → (b' : Ballot) × (c : Command) × In (i, b', c) m.accepted × Le b b'

pub PromiseOk-later :
    (voters : List String) {s t : System} (m : Promise)
    → Grows s t
    → PromiseOk voters s m
    → PromiseOk voters t m
PromiseOk-later voters {s} {t} m g ok = record {
  member = ok.member;
  bound =
      le_trans m.ballot (promised s m.sender) (promised t m.sender) ok.bound (g.promises m.sender);
  reported = λ i b c k.
      let (p, o) = ok.reported i b c k in
      (
        Proposed-later g b i c p,
        elim o [ inl l ↦ inl l | inr q ↦ inr (Proposed-later g m.ballot i c q) ],
      );
  complete = λ i b l v h. elim (g.new_votes m.sender b i v) [
    | inl old ↦ ok.complete i b (omega (arith, g.positions m.ballot.node)) old h
    | inr le ↦
        absurd (not-lt_of_le m.ballot b (le_trans m.ballot (promised s m.sender) b ok.bound le) h)
  ];
}

-- The promises that a campaign has counted, and that nothing is proposed under its ballot yet.
pub record CampaignOk (voters : List String) (s : System) (n : String) (c : Campaign) : Type 0 where
  pub node : c.ballot.node ≡ n
  pub round : c.ballot.round ≤ (promised s n).round
  pub quorum : c.quorum ≡ majority voters
  pub distinct : Distinct (keys c.promises)
  pub counted :
      (a : String) (es : List Entry)
      → In (a, es) c.promises
      → (m : Promise) × In (promise m) s.sent
        × (m.sender ≡ a)
        × (m.ballot ≡ c.ballot)
        × (m.accepted ≡ es)
  pub fresh : (i : ℕ) (command : Command) → Proposed s c.ballot i command → ⊥

In-keys_entry :
    {V : Type 0} (a : String) (d : Dict String V) → In a (keys d) → (v : V) × In (a, v) d
In-keys_entry a [] m = absurd m
In-keys_entry a ((j, v) ∷ d) (inl p) = (v, inl (λ k. (p k, v)))
In-keys_entry a ((j, v) ∷ d) (inr m) = let (w, k) = In-keys_entry a d m in (w, inr k)

length-keys : {V : Type 0} (d : Dict String V) → length (keys d) ≡ length d
length-keys [] = refl
length-keys (e ∷ d) = omega (arith, length-keys d)

module _ (voters : List String) (s : System) (n : String) (c : Campaign)
    (ok : CampaignOk voters s n c)
    (promises : (m : Promise) → In (promise m) s.sent → PromiseOk voters s m) where
  promise_of :
      (a : String)
      → contains a (keys c.promises) ≡ true
      → (m : Promise) × (m.sender ≡ a)
        × (m.ballot ≡ c.ballot)
        × In (a, m.accepted) c.promises
        × PromiseOk voters s m
  promise_of a h =
      let (es, k) = In-keys_entry a c.promises (contains→In a (keys c.promises) h) in
      let (m, sent, p, q, r) = ok.counted a es k in
      (m, p, q, subst (λ x. In (a, x) c.promises) (sym r) k, promises m sent)

  member_of : (a : String) → In a (keys c.promises) → In a voters
  member_of a h =
      let (m, p, q, r, ok') = promise_of a (In→contains a (keys c.promises) h) in
      subst (λ x. In x voters) p ok'.member

  pub counted-IsQuorum :
      c.quorum ≤ length c.promises → IsQuorum voters (λ a. contains a (keys c.promises))
  counted-IsQuorum h = omega (
    arith,
    length-le-count (keys c.promises) voters ok.distinct member_of,
    length-keys c.promises,
    ok.quorum,
  )

  -- A voter that promised and voted below the ballot in a slot has the slot's best entry covering it.
  vote-Covers :
      (a : String) (b : Ballot) (i : ℕ)
      → contains a (keys c.promises) ≡ true
      → position s n ≤ i
      → Voted s a b i
      → Lt b c.ballot
      → Covers (best_of c) i b
  vote-Covers a b i h l v k =
      let (m, p, q, r, ok') = promise_of a h in
      let at_node : m.ballot.node ≡ n = ap (λ (x : Ballot). x.node) q ∙ ok.node in
      let (b', command, entry, le) =
        ok'.complete i b (subst (λ x. position s x ≤ i) (sym at_node) l)
          (subst (λ x. Voted s x b i) (sym p) v) (subst (λ x. Lt b x) (sym q) k) in
      let (w, e, le') = best_of-Covers c a m.accepted i b' command r entry in
      (w, e, le_trans b b' w.0 le le')

  promised_high :
      (a : String) (b : Ballot)
      → contains a (keys c.promises) ≡ true
      → Lt b c.ballot
      → Lt b (promised s a)
  promised_high a b h k =
      let (m, p, q, r, ok') = promise_of a h in
      lt_le_trans b c.ballot (promised s a) k
        (subst (λ x. Le x (promised s a)) q (subst (λ x. Le m.ballot (promised s x)) p ok'.bound))

  -- What the best entry of a slot stands for: a proposal of an earlier ballot.
  best-Proposed :
      (i : ℕ) (v : Ballot × Command)
      → get i (best_of c) ≡ some v
      → Proposed s v.0 i v.1 × Lt v.0 c.ballot
  best-Proposed i v h =
      let (a, es, k, entry) = best_of_origin c i v h in
      let (m, sent, p, q, r) = ok.counted a es k in
      let (prop, o) =
        (promises m sent).reported i v.0 v.1 (subst (In (i, v.0, v.1)) (sym r) entry) in
      (
        prop,
        elim o [
          | inl l ↦ subst (λ x. Lt v.0 x) q l
          | inr again ↦ absurd (ok.fresh i v.1 (subst (λ x. Proposed s x i v.1) q again))
        ],
      )

  module _ (enough : c.quorum ≤ length c.promises) (i : ℕ) (l : position s n ≤ i) where
    -- In a slot that no promise reports any command is safe.
    pub gap-SafeAt :
        (command : Command) → get i (best_of c) ≡ none → SafeAt voters s c.ballot i command
    gap-SafeAt command none_there b' lt = (
      λ a. contains a (keys c.promises),
      counted-IsQuorum enough,
      λ a h. elim (Bool-cases (has_vote s.sent a b' i)) [
        | inl v ↦ let (w, e, le) = vote-Covers a b' i h l v lt in absurd (ground (arith, e))
        | inr v ↦ inr (v, promised_high a b' h lt)
      ],
    )

    -- Elsewhere the command of the best entry is.
    pub best-SafeAt :
        ((b : Ballot) (command : Command) → Proposed s b i command → SafeAt voters s b i command)
        → (v : Ballot × Command) → get i (best_of c) ≡ some v
        → SafeAt voters s c.ballot i v.1
    best-SafeAt safe v there b' lt =
        let (prop, below) = best-Proposed i v there in
        elim (total b' v.0) [
          | inl before ↦ safe v.0 v.1 prop b' before
          | inr le ↦ (
            λ a. contains a (keys c.promises),
            counted-IsQuorum enough,
            λ a h. elim (Bool-cases (has_vote s.sent a b' i)) [
              | inr no_vote ↦ inr (no_vote, promised_high a b' h lt)
              | inl vote ↦
                  let (w, e, le') = vote-Covers a b' i h l vote lt in
                  let same : w ≡ v = of_some (sym e ∙ there) in
                  let eq : b' ≡ v.0 =
                    le_antisymm b' v.0
                      (subst (λ x. Le b' x) (ap (λ (x : Ballot × Command). x.0) same) le') le in
                  inl (vote, subst (λ x. Proposed s x i v.1) (sym eq) prop)
            ],
          )
        ]
