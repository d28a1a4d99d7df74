-- ===== src/Consensus/Protocol/Facts.antt =====
-- What has happened in a system, as facts about its messages and acceptors, and how they last.
use matricxon.Base.{Bool-cases}
use matricxon.Base.{
  ℕ, ◌≤◌, ◌≡◌, ◌⊎◌, inl, inr, String, List, [], ◌∷◌, Bool, true, false, ◌&&◌, ◌||◌, ◌==◌, In,
  count_by, string_eq, nat_eq,
}
use matricxon.Consensus.Ballot.{Ballot, ballot_eq}
use matricxon.Consensus.Ballot.Order.{Lt, Le, lt_le_trans, not-lt_of_le}
use matricxon.Consensus.Command.{Command}
use matricxon.Consensus.Messages.{Accept, Message, accept, accepted}
use matricxon.Consensus.Protocol.{System, majority}

abbrev pub promised : System → String → Ballot
promised s a = (s.acceptor a).state.promised

abbrev pub position : System → String → ℕ
position s n = (s.seat n).next_slot

-- Some node asked the acceptors to accept this command.
abbrev pub Proposed : System → Ballot → ℕ → Command → Type 0
Proposed s b i c =
    (m : Accept) × In (accept m) s.sent × (m.ballot ≡ b) × (m.slot ≡ i) × (m.command ≡ c)

abbrev pub is_vote : Message → String → Ballot → ℕ → Bool
is_vote (accepted m) a b i = m.sender == a && m.ballot == b && m.slot == i
is_vote m a b i = false

abbrev pub has_vote : List Message → String → Ballot → ℕ → Bool
has_vote [] a b i = false
has_vote (m ∷ ms) a b i = is_vote m a b i || has_vote ms a b i

-- The acceptor answered that it accepted the ballot's command in the slot.
abbrev pub Voted : System → String → Ballot → ℕ → Type 0
Voted s a b i = has_vote s.sent a b i ≡ true

-- A set of voters that is a majority.
abbrev pub IsQuorum : List String → (String → Bool) → Type 0
IsQuorum voters q = majority voters ≤ count_by q voters

-- A majority accepted the command in the slot, under one ballot.
abbrev pub Chosen : List String → System → ℕ → Command → Type 0
Chosen voters s i c =
    (b : Ballot) × (q : String → Bool) × IsQuorum voters q
    × Proposed s b i c
    × ((a : String) → q a ≡ true → Voted s a b i)

-- No other command can be or become chosen in the slot under the ballot: each member of some
-- majority accepted this very command, or did not accept and has promised not to.
abbrev pub Blocks : List String → System → Ballot → ℕ → Command → Type 0
Blocks voters s b i c =
    (q : String → Bool) × IsQuorum voters q
    × ((a : String)
        → q a ≡ true
        → (Voted s a b i × Proposed s b i c)
          ⊎ ((has_vote s.sent a b i ≡ false) × Lt b (promised s a)))

abbrev pub SafeAt : List String → System → Ballot → ℕ → Command → Type 0
SafeAt voters s b i c = (b' : Ballot) → Lt b' b → Blocks voters s b' i c

-- What every step of the protocol leaves true.
pub record Grows (s t : System) : Type 0 where
  pub sent : (m : Message) → In m s.sent → In m t.sent
  pub votes : (a : String) (b : Ballot) (i : ℕ) → Voted s a b i → Voted t a b i
  pub promises : (a : String) → Le (promised s a) (promised t a)
  pub new_votes :
      (a : String) (b : Ballot) (i : ℕ) → Voted t a b i → Voted s a b i ⊎ Le (promised s a) b
  pub positions : (n : String) → position s n ≤ position t n

module _ {s t : System} (g : Grows s t) where
  pub Proposed-later : (b : Ballot) (i : ℕ) (c : Command) → Proposed s b i c → Proposed t b i c
  Proposed-later b i c (m, k, p, q, r) = (m, g.sent (accept m) k, p, q, r)

  not-voted_later :
      (a : String) (b : Ballot) (i : ℕ)
      → has_vote s.sent a b i ≡ false
      → Lt b (promised s a)
      → has_vote t.sent a b i ≡ false
  not-voted_later a b i h l = elim (Bool-cases (has_vote t.sent a b i)) [
    | inr k ↦ k
    | inl k ↦ elim (g.new_votes a b i k) [
      | inl v ↦ cc
      | inr le ↦ absurd (not-lt_of_le (promised s a) b le l)
    ]
  ]

  pub Blocks-later :
      (voters : List String) (b : Ballot) (i : ℕ) (c : Command)
      → Blocks voters s b i c
      → Blocks voters t b i c
  Blocks-later voters b i c (q, n, each) = (
    q,
    n,
    λ a h. elim (each a h) [
      | inl (v, p) ↦ inl (g.votes a b i v, Proposed-later b i c p)
      | inr (v, l) ↦
          inr (
            not-voted_later a b i v l,
            lt_le_trans b (promised s a) (promised t a) l (g.promises a),
          )
    ],
  )

  pub SafeAt-later :
      (voters : List String) (b : Ballot) (i : ℕ) (c : Command)
      → SafeAt voters s b i c
      → SafeAt voters t b i c
  SafeAt-later voters b i c h b' l = Blocks-later voters b' i c (h b' l)

  pub Chosen-later :
      (voters : List String) (i : ℕ) (c : Command) → Chosen voters s i c → Chosen voters t i c
  Chosen-later voters i c (b, q, n, p, each) =
      (b, q, n, Proposed-later b i c p, λ a h. g.votes a b i (each a h))
