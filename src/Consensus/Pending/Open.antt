-- ===== src/Consensus/Pending/Open.antt =====
-- Which commands a node hands over again.
use matricxon.Base.Dict.{get-put_self, put, get-put, get-remove, remove, get}
use matricxon.Base.{
  some, ap, List, false, ◌==◌, ◌||◌, refl, String, ◌≡◌, Bool, none, arith, [], ◌∷◌, if◌then◌else◌,
  string_eq, beq-cases, inl, inr,
}
use matricxon.Consensus.Command.{Command}
use matricxon.Consensus.Pending.{Pending, add, discard, still_open}

-- Exactly the commands that are not applied yet stay open, whatever was submitted before.
get-still_open :
    (applied : String → Bool) (i : String) (p : Pending)
    → get i (still_open applied p) ≡ (if applied i then none else get i p)
unfolding get still_open
get-still_open applied i [] = ground arith
get-still_open applied i ((j, c) ∷ p) = elim (beq-cases j i) [
  | inl q ↦ ground (arith, q, get-still_open applied i p, ap applied q)
  | inr q ↦ ground (arith, q, get-still_open applied i p)
]

-- What a node does with its pending commands: it submits one, gives one up, or looks which are open,
-- when it finds some of them applied.
pub data Use : Type 0 where
  submitted : Command → Use
  given_up : String → Use
  looked : (String → Bool) → Use

abbrev pub use_one : Use → Pending → Pending
use_one (submitted c) p = add c p
use_one (given_up i) p = discard i p
use_one (looked applied) p = still_open applied p

abbrev pub use_all : List Use → Pending → Pending
use_all [] p = p
use_all (u ∷ us) p = use_all us (use_one u p)

-- The command with the id is given up, or found applied.
abbrev pub closed : String → List Use → Bool
closed i [] = false
closed i (submitted c ∷ us) = closed i us
closed i (given_up j ∷ us) = j == i || closed i us
closed i (looked applied ∷ us) = applied i || closed i us

abbrev pub resubmitted : String → List Use → Bool
resubmitted i [] = false
resubmitted i (submitted c ∷ us) = c.cmd_id == i || resubmitted i us
resubmitted i (_ ∷ us) = resubmitted i us

get-use_all :
    (i : String) (us : List Use) (p : Pending)
    → resubmitted i us ≡ false
    → get i (use_all us p) ≡ (if closed i us then none else get i p)
unfolding add discard
get-use_all i [] p h = refl
get-use_all i (submitted c ∷ us) p h =
    ground (arith, get-use_all i us (put c.cmd_id c p), get-put c.cmd_id i c p)
get-use_all i (given_up j ∷ us) p h =
    ground (arith, get-use_all i us (remove j p), get-remove j i p)
get-use_all i (looked applied ∷ us) p h =
    ground (arith, get-use_all i us (still_open applied p), get-still_open applied i p)

-- Whatever a node submits, gives up or finds applied after it submitted a command, short of another
-- one with the same id: the command is pending exactly until it is given up or found applied.
pub submitted-use_all :
    (c : Command) (us : List Use) (p : Pending)
    → resubmitted c.cmd_id us ≡ false
    → get c.cmd_id (use_all us (add c p)) ≡ (if closed c.cmd_id us then none else some c)
unfolding add
submitted-use_all c us p h =
    rw (get-use_all c.cmd_id us (put c.cmd_id c p) h, get-put_self c.cmd_id c p)
