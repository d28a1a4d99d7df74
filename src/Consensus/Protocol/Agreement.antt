-- ===== src/Consensus/Protocol/Agreement.antt =====
-- Whatever the network does, the voters of an epoch agree on the command of each slot.
use matricxon.Consensus.Protocol.Facts.{IsQuorum}
use matricxon.Base.{Bool}
use matricxon.Base.{
  ℕ, ◌≡◌, inl, inr, String, List, [], true, In, arith, sym, subst, refl, nat_eq, string_eq,
}
use matricxon.Consensus.Ballot.{Ballot}
use matricxon.Consensus.Ballot.Order.{Lt, total, le_cases}
use matricxon.Consensus.Command.{Command}
use matricxon.Consensus.Messages.{Commit, commit}
use matricxon.Consensus.Storage.{empty_epoch}
use matricxon.Consensus.Acceptor.{Acceptor}
use matricxon.Consensus.Protocol.{
  idle, Seat, System, Step, campaign, hear_prepare, hear_promise, propose, hear_accept,
  hear_accepted, step_down, restart, news, Reach, here, next,
}
use matricxon.Consensus.Protocol.Facts.{Proposed, Voted, Chosen}
use matricxon.Consensus.Protocol.Safe.{quorums_meet}
use matricxon.Consensus.Protocol.Invariant.{Inv}
use matricxon.Consensus.Protocol.Seats.{
  after_accepted-Inv, after_step_down-Inv, after_restart-Inv, after_news-Inv,
}
use matricxon.Consensus.Protocol.Proposals.{after_propose-Inv}
use matricxon.Consensus.Protocol.Elections.{after_promise-Inv}
use matricxon.Consensus.Protocol.Answers.{after_prepare-Inv, after_campaign-Inv}
use matricxon.Consensus.Protocol.Votes.{after_accept-Inv}

abbrev fresh_acceptor : ℕ → String → Acceptor
fresh_acceptor e n = record { id = n; epoch = e; state = empty_epoch; floor = 0; saved = [] }

abbrev fresh_seat : Seat
fresh_seat = record { next_slot = 0; round_seen = 0; stage = idle }

-- The start of an epoch: nothing promised, nothing accepted, nothing sent.
abbrev pub fresh_system : ℕ → System
fresh_system e = record { acceptor = fresh_acceptor e; seat = λ n. fresh_seat; sent = [] }

fresh_system-Inv : (voters : List String) (e : ℕ) → Inv voters (fresh_system e)
fresh_system-Inv voters e = record {
  acceptors = λ n. record {
    id = refl;
    heard = omega arith;
    backed = λ i v k. absurd k;
    votes = λ b i v. absurd (cc);
  };
  promises = λ m k. absurd k;
  requests = λ m k. absurd k;
  unique = λ b i c d p q. absurd (p.1);
  safe = λ b i c p. absurd (p.1);
  rounds = λ b i c p. absurd (p.1);
  stages = λ n. tt;
  commits = λ m k. absurd k;
}

module _ (voters : List String) (e : ℕ) where
  Step-Inv : (s t : System) → Inv voters s → Step voters e s t → Inv voters t
  Step-Inv s _ inv (campaign n member) = after_campaign-Inv voters e s n inv member
  Step-Inv s _ inv (hear_prepare a m member sent) = after_prepare-Inv voters e s a inv member m sent
  Step-Inv s _ inv (hear_promise n m c chosen sent stage same) =
      after_promise-Inv voters e s n m c chosen inv sent stage same
  Step-Inv s _ inv (propose n l c stage) = after_propose-Inv voters e s n l c inv stage
  Step-Inv s _ inv (hear_accept a m member sent) = after_accept-Inv voters e s a m inv member sent
  Step-Inv s _ inv (hear_accepted n m l sent stage same) =
      after_accepted-Inv voters e s n m l inv sent stage same
  Step-Inv s _ inv (step_down n) = after_step_down-Inv voters e s n inv
  Step-Inv s _ inv (restart n) = after_restart-Inv voters e s n inv
  Step-Inv s _ inv (news n slots rounds) = after_news-Inv voters e s n inv slots rounds

  Reach-Inv : (s t : System) → Inv voters s → Reach voters e s t → Inv voters t
  Reach-Inv s _ inv here = inv
  Reach-Inv s u inv (next {t = t} r st) = Step-Inv t u (Reach-Inv s t inv r) st

module _ (voters : List String) (s : System) (inv : Inv voters s) (i : ℕ) where
  -- Of two choices the one under the lower ballot forces the other.
  lower-agrees :
      (b b' : Ballot) (c c' : Command)
      → ((q : String → Bool) × IsQuorum voters q × ((a : String) → q a ≡ true → Voted s a b i))
      → Proposed s b i c
      → Proposed s b' i c'
      → Lt b b'
      → c ≡ c'
  lower-agrees b b' c c' (q, n, each) p p' lt =
      let (q', n', each') = inv.safe b' i c' p' b lt in
      let (a, mem, h, h') = quorums_meet voters q q' n n' in
      elim (each' a h') [
        | inl (v, same) ↦ inv.unique b i c c' p same
        | inr (silent, high) ↦ let v : Voted s a b i = each a h in absurd (cc)
      ]

  pub Chosen-agree : (c c' : Command) → Chosen voters s i c → Chosen voters s i c' → c ≡ c'
  Chosen-agree c c' (b, q, n, p, each) (b', q', n', p', each') = elim (total b b') [
    | inl lt ↦ lower-agrees b b' c c' (q, n, each) p p' lt
    | inr le ↦ elim (le_cases b' b le) [
      | inl lt ↦ sym (lower-agrees b' b c' c (q', n', each') p' p lt)
      | inr eq ↦ inv.unique b i c c' p (subst (λ x. Proposed s x i c') eq p')
    ]
  ]

-- Two announcements for one slot name one command, however the messages of the epoch were lost,
-- delayed, repeated and reordered, and however often its nodes campaigned, led, stepped down and
-- restarted, as long as no node compacts its log.
pub commits-agree :
    (voters : List String) (e : ℕ) (s : System) (m m' : Commit)
    → Reach voters e (fresh_system e) s
    → In (commit m) s.sent
    → In (commit m') s.sent
    → m.slot ≡ m'.slot
    → m.command ≡ m'.command
commits-agree voters e s m m' r k k' same =
    let inv = Reach-Inv voters e (fresh_system e) s (fresh_system-Inv voters e) r in
    Chosen-agree voters s inv m.slot m.command m'.command (inv.commits m k)
      (subst (λ i. Chosen voters s i m'.command) (sym same) (inv.commits m' k'))
