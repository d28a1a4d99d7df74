-- ===== src/Consensus/Proposer/Once.antt =====
-- What a campaign and a leadership count only once.
use matricxon.Base.{inr}
use matricxon.Base.{inl}
use matricxon.Base.{
  String, List, ◌≡◌, Option, some, none, true, false, arith, string_eq, nat_eq, ℕ, Bool-cases,
  length, ltb,
}
use matricxon.Base.Dict.{get, has, length-put, get-remove_self}
use matricxon.Consensus.Command.{Command}
use matricxon.Consensus.Messages.{Entry}
use matricxon.Consensus.Proposer.{Campaign, Leadership, add, add_to_set, ack_entry, on_ack}

-- A second promise of a node that has promised already never completes the majority.
add_again :
    (sender : String) (es : List Entry) (c : Campaign)
    → has sender c.promises ≡ true
    → (add sender es c).1 ≡ false
unfolding add
add_again sender es c h = ground (arith, h, length-put sender es c.promises)

unchanged-some :
    (slot : ℕ) (sender : String) (l : Leadership) (o : Option (Command × List String)) (c : Command)
    → (ack_entry o slot sender l).1 ≡ some c
    → get slot (ack_entry o slot sender l).0.inflight ≡ none
unfolding ack_entry
unchanged-some slot sender l none c h = absurd (cc)
unchanged-some slot sender l (some (d, acks)) c h =
    elim (Bool-cases (ltb (length (add_to_set sender acks)) l.quorum)) [
      | inl k ↦ absurd (cc (rw k at h))
      | inr k ↦ rw k (get-remove_self slot l.inflight)
    ]

-- A slot's command is announced once: after the acceptance that completes its majority no other
-- acceptance for the slot brings it out again.
pub on_ack_once :
    (slot : ℕ) (sender sender' : String) (l : Leadership) (c : Command)
    → (on_ack slot sender l).1 ≡ some c
    → on_ack slot sender' (on_ack slot sender l).0 ≡ ((on_ack slot sender l).0, none)
unfolding on_ack ack_entry
on_ack_once slot sender sender' l c h = rw (unchanged-some slot sender l (get slot l.inflight) c h)
