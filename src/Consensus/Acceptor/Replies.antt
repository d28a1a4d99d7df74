-- ===== src/Consensus/Acceptor/Replies.antt =====
-- What an acceptor answers, and what it then has promised and accepted.
use mathlib.Core.Path.{ap₂}
use matricxon.Base.{
  max, subst, sym, refl, List, and_split, ltb→lt, Option, none, ◌==◌, ◌<◌, ℕ, ◌≤◌, ◌≡◌, ◌⊎◌, inl,
  inr, [], ◌∷◌, some, true, false, arith, In, Bool-cases, nat_eq, ltb,
}
use matricxon.Base.Dict.{Dict, get, get-put, get-put_self, In-put}
use matricxon.Consensus.Acceptor.Reports.{In-report, report-In, report-from}
use matricxon.Consensus.Messages.{Entry, Prepare, Accept, Message, promise, accepted, nack}
use matricxon.Consensus.Ballot.{Ballot, ballot_ltb, ballot_ltb_total, ballot_eq}
use matricxon.Consensus.Ballot.Order.{Lt, Le}
use matricxon.Consensus.Command.{Command, command_eq}
use matricxon.Consensus.Acceptor.{
  max_round, rounds_max, Acceptor, raise_promise, report, record_entry, same_entry, on_prepare,
  on_accept,
}

-- The fields that never change.
pub record SameIdentity (a a' : Acceptor) : Type 0 where
  pub id : a'.id ≡ a.id
  pub epoch : a'.epoch ≡ a.epoch
  pub floor : a'.floor ≡ a.floor

pub raise_promise-SameIdentity : (b : Ballot) (a : Acceptor) → SameIdentity a (raise_promise b a)
unfolding raise_promise
raise_promise-SameIdentity b a = ground arith

pub promised-raise_promise :
    (b : Ballot) (a : Acceptor) → Le a.state.promised b → (raise_promise b a).state.promised ≡ b
unfolding raise_promise
promised-raise_promise b a h = elim (Bool-cases (ballot_ltb a.state.promised b)) [
  | inl k ↦ rw k
  | inr k ↦ rw k (ballot_ltb_total a.state.promised b k h)
]

pub accepted-raise_promise :
    (b : Ballot) (a : Acceptor) → (raise_promise b a).state.accepted ≡ a.state.accepted
unfolding raise_promise
accepted-raise_promise b a = ground arith

abbrev pub refusal : Ballot → Acceptor → Message
refusal b a =
    nack (record { sender = a.id; epoch = a.epoch; ballot = b; promised = a.state.promised })

abbrev pub granted : Prepare → Acceptor → Message
granted m a = promise (record {
  sender = a.id;
  epoch = a.epoch;
  ballot = m.ballot;
  accepted = report m.from_slot a.state.accepted;
})

abbrev pub agreement : Accept → Acceptor → Message
agreement m a =
    accepted (record { sender = a.id; epoch = a.epoch; ballot = m.ballot; slot = m.slot })

-- The two branches of an answer to a Prepare, as the code takes them.
pub on_prepare_cases :
    (m : Prepare) (a : Acceptor)
    → (Lt m.ballot a.state.promised × (on_prepare m a ≡ (a, refusal m.ballot a)))
      ⊎ (Le a.state.promised m.ballot × (on_prepare m a ≡ (raise_promise m.ballot a, granted m a)))
unfolding on_prepare
on_prepare_cases m a = elim (Bool-cases (ballot_ltb m.ballot a.state.promised)) [
  | inl h ↦ inl (h, rw h)
  | inr h ↦ inr (h, rw h)
]

-- What a granted Prepare does to the acceptor, and what the promise that answers it reports.
pub record Promised (m : Prepare) (a a' : Acceptor) (reply : Message) : Type 0 where
  pub same : SameIdentity a a'
  pub allowed : Le a.state.promised m.ballot
  pub promised : a'.state.promised ≡ m.ballot
  pub accepted : a'.state.accepted ≡ a.state.accepted
  pub chosen : a'.state.chosen ≡ a.state.chosen
  pub reports : List Entry
  pub answer :
      reply
      ≡ promise (record { sender = a.id; epoch = a.epoch; ballot = m.ballot; accepted = reports })
  pub sound :
      (i : ℕ) (b : Ballot) (c : Command)
      → In (i, b, c) reports
      → (m.from_slot ≤ i) × In (i, (b, c)) a.state.accepted
  pub complete :
      (i : ℕ) (v : Ballot × Command)
      → m.from_slot ≤ i
      → get i a.state.accepted ≡ some v
      → In (i, v.0, v.1) reports

-- What an acceptor answers to a Prepare, refused or granted.
abbrev pub PrepareOutcome : Prepare → Acceptor → Type 0
PrepareOutcome m a =
    (Lt m.ballot a.state.promised × (on_prepare m a ≡ (a, refusal m.ballot a)))
    ⊎ Promised m a (on_prepare m a).0 (on_prepare m a).1

raise_promise-Promised :
    (m : Prepare) (a : Acceptor)
    → Le a.state.promised m.ballot
    → Promised m a (raise_promise m.ballot a) (granted m a)
unfolding raise_promise
raise_promise-Promised m a l = record {
  same = raise_promise-SameIdentity m.ballot a;
  allowed = l;
  promised = promised-raise_promise m.ballot a l;
  accepted = accepted-raise_promise m.ballot a;
  chosen = ground arith;
  reports = report m.from_slot a.state.accepted;
  answer = refl;
  sound = λ i b c k. (
    report-from m.from_slot a.state.accepted i b c k,
    report-In m.from_slot a.state.accepted i b c k,
  );
  complete = λ i v f h. In-report m.from_slot a.state.accepted i v f h;
}

-- A Prepare below the promise is refused with the ballot that is promised, and changes nothing. Any
-- other raises the promise to its ballot and changes nothing else of what is durable; it is answered
-- by a promise for that ballot, whose entries are all held by the acceptor from the asked slot on,
-- and are all that a lookup there finds.
pub on_prepare_lem : (m : Prepare) (a : Acceptor) → PrepareOutcome m a
on_prepare_lem m a = elim (on_prepare_cases m a) [
  | inl w ↦ inl w
  | inr (l, p) ↦ inr (
      subst (λ (r : Acceptor × Message). Promised m a r.0 r.1) (sym p)
        (raise_promise-Promised m a l))
]

-- What the acceptance of a message does to the acceptor.
pub record Took (m : Accept) (a a' : Acceptor) : Type 0 where
  pub same : SameIdentity a a'
  pub allowed : Le a.state.promised m.ballot
  pub promised : a'.state.promised ≡ m.ballot
  pub here : get m.slot a'.state.accepted ≡ some (m.ballot, m.command)
  pub there : (i : ℕ) → (m.slot == i) ≡ false → get i a'.state.accepted ≡ get i a.state.accepted
  pub only :
      (i : ℕ) (v : Ballot × Command)
      → In (i, v) a'.state.accepted
      → ((i ≡ m.slot) × (v ≡ (m.ballot, m.command))) ⊎ In (i, v) a.state.accepted

same_entry-eq :
    (o : Option (Ballot × Command)) (b : Ballot) (c : Command)
    → same_entry o b c ≡ true
    → o ≡ some (b, c)
unfolding same_entry
same_entry-eq none b c h = cc
same_entry-eq (some (b', c')) b c h =
    let (p, q) = and_split (b' == b) (c' == c) h in
    ap₂ (λ (x : Ballot) (y : Command). some (x, y)) ((ballot_eq.beq_iff b' b).0 p)
      ((command_eq.beq_iff c' c).0 q)

kept-Took :
    (m : Accept) (a : Acceptor)
    → Le a.state.promised m.ballot
    → get m.slot a.state.accepted ≡ some (m.ballot, m.command)
    → Took m a (raise_promise m.ballot a)
kept-Took m a l h = record {
  same = raise_promise-SameIdentity m.ballot a;
  allowed = l;
  promised = promised-raise_promise m.ballot a l;
  here = rw (accepted-raise_promise m.ballot a) h;
  there = λ i q. rw (accepted-raise_promise m.ballot a);
  only = λ i v k. inr (rw (accepted-raise_promise m.ballot a) at k);
}

record_entry-Took :
    (m : Accept) (a : Acceptor)
    → Le a.state.promised m.ballot
    → Took m a (record_entry m.slot m.ballot m.command (raise_promise m.ballot a))
unfolding record_entry
record_entry-Took m a l = record {
  same =
      let f = raise_promise-SameIdentity m.ballot a in
      record { id = f.id; epoch = f.epoch; floor = f.floor };
  allowed = l;
  promised = promised-raise_promise m.ballot a l;
  here = get-put_self m.slot (m.ballot, m.command) (raise_promise m.ballot a).state.accepted;
  there = λ i q. rw (
    get-put m.slot i (m.ballot, m.command) (raise_promise m.ballot a).state.accepted,
    q,
    accepted-raise_promise m.ballot a,
  );
  only = λ i v k.
      rw (accepted-raise_promise m.ballot a) at
        (In-put m.slot (m.ballot, m.command) (raise_promise m.ballot a).state.accepted i v k);
}

-- What an acceptor answers to an Accept, refused or agreed to.
abbrev pub AcceptOutcome : Accept → Acceptor → Type 0
AcceptOutcome m a =
    (((m.slot < a.floor) ⊎ Lt m.ballot a.state.promised)
      × (on_accept m a ≡ (a, refusal m.ballot a)))
    ⊎ ((a.floor ≤ m.slot) × Took m a (on_accept m a).0 × ((on_accept m a).1 ≡ agreement m a))

-- An Accept below the floor or below the promise is refused and changes nothing. Any other is agreed
-- to: the promise is its ballot, its slot holds its ballot and command, every other slot what it held.
pub on_accept_lem : (m : Accept) (a : Acceptor) → AcceptOutcome m a
unfolding on_accept
on_accept_lem m a = elim (Bool-cases (ltb m.slot a.floor)) [
  | inl f ↦ inl (inl (ltb→lt m.slot a.floor f), rw f)
  | inr f ↦ elim (Bool-cases (ballot_ltb m.ballot a.state.promised)) [
    | inl h ↦ inl (inr h, rw (f, h))
    | inr h ↦ elim (Bool-cases (same_entry (get m.slot a.state.accepted) m.ballot m.command)) [
      | inl s ↦
          inr (ground arith, rw (f, h, s) (kept-Took m a h (same_entry-eq _ _ _ s)), rw (f, h, s))
      | inr s ↦ inr (ground arith, rw (f, h, s) (record_entry-Took m a h), rw (f, h, s))
    ]
  ]
]

rounds_max-ge : (n : ℕ) (d : Dict ℕ (Ballot × Command)) → n ≤ rounds_max n d
unfolding rounds_max
rounds_max-ge n [] = omega arith
rounds_max-ge n ((i, (b, c)) ∷ d) = omega (arith, rounds_max-ge (max n b.round) d)

-- The highest round that a restarted node reads from its acceptor is at least the promised one.
pub round-le-max_round : (a : Acceptor) → a.state.promised.round ≤ max_round a
unfolding max_round
round-le-max_round a = rounds_max-ge a.state.promised.round a.state.accepted
