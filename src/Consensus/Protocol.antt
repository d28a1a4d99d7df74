-- ===== src/Consensus/Protocol.antt =====
-- One epoch of the protocol over a network that loses, delays, repeats and reorders messages:
-- app/consensus/roles.py with the acceptor and the proposer of each node, and nothing else of it.
-- `sent` holds every message ever sent in the epoch, and a step may deliver any of them at any time.
-- A step is one handler of one node, run with the functions of Acceptor.antt and Proposer.antt. The
-- position and the chosen log of a node come from its replica; here they may grow at any time. No
-- step compacts the log.
pub mod Facts
pub mod Safe
pub mod Acceptors
pub mod Answers
pub mod Votes
pub mod Seats
pub mod Proposals
pub mod Elections
pub mod Invariant
pub mod Agreement
use matricxon.Base.{
  ℕ, ◌++◌, ◌+◌, ◌/◌, ◌≡◌, String, List, [], ◌∷◌, none, some, Option, Bool, true, false, In, max,
  length, if◌then◌else◌, ◌==◌, string_eq, nat_eq,
}
use matricxon.Base.Dict.{Dict}
use matricxon.Base.Sort.{sort_items}
use matricxon.Consensus.Ballot.{Ballot}
use matricxon.Consensus.Command.{Command}
use matricxon.Consensus.Messages.{
  Prepare, Promise, Accept, Accepted, Commit, Message, prepare, promise, accept, accepted, commit,
}
use matricxon.Consensus.Acceptor
use matricxon.Consensus.Acceptor.{Acceptor}
use matricxon.Consensus.Proposer
use matricxon.Consensus.Proposer.{Campaign, Leadership}
use matricxon.Consensus.Node.Leading.{past_known}

pub data Stage : Type 0 where
  idle : Stage
  campaigning : Campaign → Stage
  leading : Leadership → Stage

pub record Seat : Type 0 where
  pub next_slot : ℕ
  pub round_seen : ℕ
  pub stage : Stage

pub record System : Type 0 where
  pub acceptor : String → Acceptor
  pub seat : String → Seat
  pub sent : List Message

-- A function changed at one node.
abbrev pub set_at : {A : Type 0} → String → A → (String → A) → String → A
set_at n v f j = if j == n then v else f j

-- One node gets a new acceptor and seat, and sends messages: what every step does.
abbrev pub at_node : String → Acceptor → Seat → List Message → System → System
at_node n a seat new s = record {
  acceptor = set_at n a s.acceptor;
  seat = set_at n seat s.seat;
  sent = new ++ s.sent;
}

-- `quorum`
abbrev pub majority : List String → ℕ
majority voters = length voters / 2 + 1

module _ (voters : List String) (e : ℕ) where
  abbrev pub new_ballot : String → System → Ballot
  new_ballot n s = record { round = (s.seat n).round_seen + 1; node = n }

  abbrev pub new_prepare : String → System → Prepare
  new_prepare n s = record {
    sender = n;
    epoch = e;
    ballot = new_ballot n s;
    from_slot = (s.seat n).next_slot;
  }

  -- `_start_campaign`, and the node's own Prepare, which `_drain` handles before anything else.
  unfoldable pub after_campaign : String → System → System
  after_campaign n s =
      let (a, reply) = Acceptor.on_prepare (new_prepare n s) (s.acceptor n) in
      at_node n a
        (record (s.seat n) {
          round_seen = (s.seat n).round_seen + 1;
          stage = campaigning (Proposer.new_campaign (new_ballot n s) (majority voters));
        })
        (reply ∷ prepare (new_prepare n s) ∷ []) s

  -- A promise or an acceptance raises the highest round that the node has seen.
  abbrev pub raised : Message → ℕ → Seat → Seat
  raised (promise m) r seat = record seat { round_seen = max seat.round_seen r }
  raised (accepted m) r seat = record seat { round_seen = max seat.round_seen r }
  raised m r seat = seat

  -- `_on_prepare`
  unfoldable pub after_prepare : String → Prepare → System → System
  after_prepare a m s =
      let (a', reply) = Acceptor.on_prepare m (s.acceptor a) in
      at_node a a' (raised reply m.ballot.round (s.seat a)) (reply ∷ []) s

  abbrev pub accept_of : String → Ballot → ℕ → Command → Message
  accept_of n b i c = accept (record { sender = n; epoch = e; ballot = b; slot = i; command = c })

  -- `_propose_at` for each slot of a plan: the messages,
  unfoldable pub accepts_of : String → Ballot → Dict ℕ Command → List Message
  accepts_of n b [] = []
  accepts_of n b ((i, c) ∷ rest) = accept_of n b i c ∷ accepts_of n b rest

  -- and the leadership.
  unfoldable pub propose_each : Dict ℕ Command → Leadership → Leadership
  propose_each [] l = l
  propose_each ((i, c) ∷ rest) l = propose_each rest (Proposer.propose i c l)

  abbrev pub first_leadership : String → Campaign → Dict ℕ Command → System → Leadership
  first_leadership n c chosen s =
      let next = (s.seat n).next_slot in
      Proposer.new_leadership c.ballot (majority voters)
        (max next (past_known chosen (Proposer.plan next chosen c)))

  abbrev pub sorted_plan : String → Campaign → Dict ℕ Command → System → Dict ℕ Command
  sorted_plan n c chosen s = sort_items (Proposer.plan (s.seat n).next_slot chosen c)

  -- `_become_leader`
  unfoldable pub lead : String → Campaign → Dict ℕ Command → System → System
  unfolding accepts_of propose_each
  lead n c chosen s =
      at_node n (s.acceptor n)
        (record (s.seat n) {
          stage = leading (propose_each (sorted_plan n c chosen s) (first_leadership n c chosen s));
        })
        (accepts_of n c.ballot (sorted_plan n c chosen s)) s

  -- `_on_promise`
  unfoldable pub after_promise : String → Promise → Campaign → Dict ℕ Command → System → System
  unfolding lead
  after_promise n m c chosen s =
      let (c', complete) = Proposer.add m.sender m.accepted c in
      if complete
      then lead n c' chosen s
      else at_node n (s.acceptor n) (record (s.seat n) { stage = campaigning c' }) [] s

  -- `_propose`
  unfoldable pub after_propose : String → Leadership → Command → System → System
  after_propose n l c s =
      at_node n (s.acceptor n)
        (record (s.seat n) { stage = leading (Proposer.propose l.next_free_slot c l) })
        (accept_of n l.ballot l.next_free_slot c ∷ []) s

  -- `_on_accept`
  unfoldable pub after_accept : String → Accept → System → System
  after_accept a m s =
      let (a', reply) = Acceptor.on_accept m (s.acceptor a) in
      at_node a a' (raised reply m.ballot.round (s.seat a)) (reply ∷ []) s

  abbrev pub announce : String → ℕ → Option Command → List Message
  announce n i none = []
  announce n i (some c) = commit (record { sender = n; epoch = e; slot = i; command = c }) ∷ []

  -- `_on_accepted`
  unfoldable pub after_accepted : String → Accepted → Leadership → System → System
  after_accepted n m l s =
      let (l', chosen) = Proposer.on_ack m.slot m.sender l in
      at_node n (s.acceptor n) (record (s.seat n) { stage = leading l' }) (announce n m.slot chosen)
        s

  -- `_step_down`
  unfoldable pub after_step_down : String → System → System
  after_step_down n s = at_node n (s.acceptor n) (record (s.seat n) { stage = idle }) [] s

  -- A crash and a restart: what the acceptor saved stays.
  unfoldable pub after_restart : String → System → System
  after_restart n s =
      at_node n (s.acceptor n)
        (record (s.seat n) { round_seen = Acceptor.max_round (s.acceptor n); stage = idle }) [] s

  -- The replica gets further, or a Nack names a higher round.
  unfoldable pub after_news : String → ℕ → ℕ → System → System
  after_news n slots rounds s =
      at_node n (s.acceptor n)
        (record (s.seat n) {
          next_slot = (s.seat n).next_slot + slots;
          round_seen = (s.seat n).round_seen + rounds;
        })
        [] s

  pub data Step (s : System) : System → Type 0 where
    campaign : (n : String) → In n voters → Step s (after_campaign n s)
    hear_prepare :
        (a : String) (m : Prepare)
        → In a voters
        → In (prepare m) s.sent
        → Step s (after_prepare a m s)
    hear_promise :
        (n : String) (m : Promise) (c : Campaign) (chosen : Dict ℕ Command)
        → In (promise m) s.sent
        → (s.seat n).stage ≡ campaigning c
        → m.ballot ≡ c.ballot
        → Step s (after_promise n m c chosen s)
    propose :
        (n : String) (l : Leadership) (c : Command)
        → (s.seat n).stage ≡ leading l
        → Step s (after_propose n l c s)
    hear_accept :
        (a : String) (m : Accept) → In a voters → In (accept m) s.sent → Step s (after_accept a m s)
    hear_accepted :
        (n : String) (m : Accepted) (l : Leadership)
        → In (accepted m) s.sent
        → (s.seat n).stage ≡ leading l
        → m.ballot ≡ l.ballot
        → Step s (after_accepted n m l s)
    step_down : (n : String) → Step s (after_step_down n s)
    restart : (n : String) → Step s (after_restart n s)
    news : (n : String) (slots rounds : ℕ) → Step s (after_news n slots rounds s)

  pub data Reach (s : System) : System → Type 0 where
    here : Reach s s
    next : {t u : System} → Reach s t → Step t u → Reach s u
