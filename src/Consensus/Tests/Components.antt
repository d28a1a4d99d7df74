-- ===== src/Consensus/Tests/Components.antt =====
-- The theorems about single components at concrete inputs.
use matricxon.Base.{
  beq-cases, ◌∙◌, sym, subst, ℕ, String, List, [], ◌∷◌, ◌≡◌, ◌≤◌, ◌<◌, ◌⊎◌, ◌↔◌, inl, inr, none,
  some, true, false, In, refl, arith, ◌==◌, count_by, string_eq, nat_eq, Distinct, contains, ◌+◌,
}
use matricxon.Base.Dict.{put, get, has}
use matricxon.Base.Sort.{sort}
use matricxon.Consensus.Catchup.{new_policy, note_ahead, pull, request, CatchUpPolicy, Position}
use matricxon.Consensus.Catchup.Asking.{NotBefore, wanted, note_ahead-Furthest, pull-ahead}
use matricxon.Consensus.Catchup.Due.{Due}
use matricxon.Consensus.Keeper.{VoterKeeper, Look}
use matricxon.Consensus.Proposer.{add_to_set, best_of, plan, add, on_ack}
use matricxon.Consensus.Messages.{Entry}
use matricxon.Consensus.Command.{null, lease, cas, Value-discrete, Command}
use matricxon.Consensus.Machine.{Machine, empty_machine, apply}
use matricxon.Consensus.Lease.{claim, taken}
use matricxon.Consensus.Lease.Exclusive.{Acquired, claim-Acquired}
use matricxon.Consensus.Tests.{
  first, set_x, set_y, voters, promised_first, prepare_second, accept_second, campaign_second,
  leader_second, replica_one, base_one, durable_one, watch_failed, learner_d,
}
use matricxon.Consensus.Acceptor.{on_prepare, on_accept}
use matricxon.Consensus.Acceptor.Replies.{
  PrepareOutcome, AcceptOutcome, on_prepare_lem, on_accept_lem,
}
use matricxon.Consensus.Acceptor.Durable.{Saved, on_prepare-Saved, on_accept-Saved}
use matricxon.Consensus.Proposer.Best.{Covers, best_of-Covers, best_of_origin}
use matricxon.Consensus.Proposer.Reported.{Highest, Allowed, plan-Allowed, plan-Reported}
use matricxon.Consensus.Proposer.Acks.{InFlight, Counted, on_ack-Counted}
use matricxon.Consensus.Proposer.Once.{on_ack_once}
use matricxon.Consensus.Replica.{commit, advance_all}
use matricxon.Consensus.Replica.Log.{CommitOutcome, commit_lem}
use matricxon.Consensus.Replica.Progress.{Stopped, advance_all-Stopped}
use matricxon.Consensus.Storage.{epoch_state, prune}
use matricxon.Consensus.Storage.Pruning.{get-prune}
use matricxon.Consensus.Quorum.{next_campaign_wait, must_step_down}
use matricxon.Consensus.Quorum.Bounds.{RecentlyHeard, next_campaign_wait-bounds, must_step_down_iff}
use matricxon.Consensus.Pending.{still_open}
use matricxon.Consensus.Pending.Open.{looked, use_all, submitted-use_all}
use matricxon.Consensus.Learners.{Sighting, caught_up}
use matricxon.Consensus.Learners.Candidates.{CaughtUp, caught_up-CaughtUp}
use matricxon.Consensus.Pending

on_prepare_lem_example : PrepareOutcome prepare_second promised_first
on_prepare_lem_example = on_prepare_lem prepare_second promised_first

on_accept_lem_example : AcceptOutcome accept_second promised_first
on_accept_lem_example = on_accept_lem accept_second promised_first

on_prepare-Saved_example : Saved promised_first (on_prepare prepare_second promised_first).0
on_prepare-Saved_example = on_prepare-Saved prepare_second promised_first

on_accept-Saved_example : Saved promised_first (on_accept accept_second promised_first).0
on_accept-Saved_example = on_accept-Saved accept_second promised_first

best_of-Covers_example : Covers (best_of campaign_second) 2 first
best_of-Covers_example =
    best_of-Covers campaign_second "c" ((0, first, set_x) ∷ (2, first, set_y) ∷ []) 2 first set_y
      (inr (inl refl)) (inr (inl refl))

plan-Allowed_example :
    (0 ≤ 0) × (has {K = ℕ} {V = Command} 0 [] ≡ false) × Allowed campaign_second 0 set_x
unfolding plan best_of get put has
plan-Allowed_example = plan-Allowed 0 [] campaign_second 0 set_x (inl refl)

plan-Reported_example :
    (has {K = ℕ} {V = Command} 2 [] ≡ true)
    ⊎ ((d : Command) × In (2, d) (plan 0 [] campaign_second) × Highest campaign_second 2 d)
plan-Reported_example =
    plan-Reported 0 [] campaign_second 2 first set_y (omega arith)
      ("c", (0, first, set_x) ∷ (2, first, set_y) ∷ [], inr (inl refl), inr (inl refl))

on_ack_once_example :
    on_ack 0 "a" (on_ack 0 "c" leader_second).0 ≡ ((on_ack 0 "c" leader_second).0, none)
unfolding on_ack get add_to_set contains
on_ack_once_example = on_ack_once 0 "c" "a" leader_second set_x refl

abbrev IsSetX : ℕ → Command → Type 0
IsSetX i c = c ≡ set_x

abbrev IsVoter : ℕ → String → Type 0
IsVoter i a = In a voters

leader_second-InFlight : InFlight IsSetX IsVoter leader_second
unfolding contains
leader_second-InFlight i c acks (inl p) =
    subst
      (λ (x : ℕ × (Command × List String)).
        IsSetX x.0 x.1.0 × Distinct x.1.1 × ((a : String) → In a x.1.1 → IsVoter x.0 a))
      (sym p) (refl, (refl, tt), λ a m. elim m [ inl q ↦ inr (inl q) | inr k ↦ absurd k ])
leader_second-InFlight i c acks (inr m) = absurd m

on_ack-Counted_example : Counted IsSetX IsVoter 0 "c" leader_second (on_ack 0 "c" leader_second)
on_ack-Counted_example =
    on_ack-Counted IsSetX IsVoter 0 "c" leader_second leader_second-InFlight (inr (inr (inl refl)))

commit_lem_example : CommitOutcome 0 1 set_x replica_one (commit 0 1 set_x replica_one)
commit_lem_example = commit_lem 0 1 set_x replica_one

advance_all-Stopped_example : Stopped (advance_all replica_one)
advance_all-Stopped_example = advance_all-Stopped replica_one

get-prune_example :
    (get 0 (epoch_state 0 (prune durable_one)).chosen ≡ none)
    × (get 0 (epoch_state 0 (prune durable_one)).accepted ≡ none)
    × ((epoch_state 0 (prune durable_one)).promised ≡ first)
    × ((prune durable_one).genesis ≡ none)
    × ((prune durable_one).snapshot ≡ some base_one)
unfolding epoch_state get
get-prune_example = get-prune durable_one base_one 0 0 refl

next_campaign_wait-bounds_example :
    (300 ≤ (next_campaign_wait 999 watch_failed).1)
    × ((next_campaign_wait 999 watch_failed).1 ≤ 2400)
next_campaign_wait-bounds_example = next_campaign_wait-bounds 999 watch_failed (omega arith)

-- At 304 the leader has heard from "b" alone, which it did 299 milliseconds before.
reached_is_b :
    (v : String) → (("b" == v) ≡ true) ↔ ((v ≡ "a" → ⊥) × RecentlyHeard v 304 watch_failed)
unfolding get
reached_is_b v = elim (beq-cases "b" v) [
  | inl p ↦
      subst (λ x. (("b" == x) ≡ true) ↔ ((x ≡ "a" → ⊥) × RecentlyHeard x 304 watch_failed)) p
        (
          λ h. (λ q. absurd (cc ((string_eq.beq_iff "b" "a").1 q)), (5, refl, omega arith)),
          λ h. refl,
        )
  | inr q ↦ (λ h. absurd (cc (sym q ∙ h)), λ (o, (at, h, l)). absurd (cc (rw q at h)))
]

must_step_down_iff_example :
    (must_step_down "a" voters 2 304 watch_failed ≡ true)
    ↔ ((300 ≤ 304) × (1 + count_by (λ v. "b" == v) voters < 2))
must_step_down_iff_example =
    must_step_down_iff "a" voters 2 304 watch_failed (λ v. "b" == v) reached_is_b

submitted-use_all_example :
    get "2" (use_all (looked (λ i. i == "1") ∷ []) (Pending.add set_y (("1", set_x) ∷ [])))
    ≡ some set_y
submitted-use_all_example =
    submitted-use_all set_y (looked (λ i. i == "1") ∷ []) (("1", set_x) ∷ []) refl

caught_up-CaughtUp_example :
    (s : Sighting) × In ("d", s) learner_d × CaughtUp voters 0 8 2 20 "d" "host" s
unfolding caught_up sort contains
caught_up-CaughtUp_example = caught_up-CaughtUp voters 0 8 2 20 learner_d "d" "host" (inl refl)

best_of_origin_example :
    (a : String) × (es : List Entry) × In (a, es) campaign_second.promises × In (2, first, set_y) es
unfolding best_of get put
best_of_origin_example = best_of_origin campaign_second 2 (first, set_y) refl

-- A free lease, taken by compare-and-set.
abbrev pull_leased : Machine
pull_leased = record { config = ("lease/pull", lease (some "a") 1500) ∷ []; nodes = [] }

claim-Acquired_example : Acquired "a" "pull" 1000 500 null empty_machine pull_leased
unfolding claim taken apply get put Value-discrete
claim-Acquired_example =
    claim-Acquired "a" "pull" 1000 500 null (cas "lease/pull" null (lease (some "a") 1500))
      empty_machine pull_leased refl refl

note_ahead-Furthest_example :
    (kept : String × Position) × ((note_ahead "b" 1 4 (new_policy "a" 50 100)).ahead ≡ some kept)
    × NotBefore (1, 4) kept.1
    × (kept ≡ ("b", (1, 4)))
note_ahead-Furthest_example = note_ahead-Furthest "b" 1 4 (new_policy "a" 50 100)

abbrev behind_b : CatchUpPolicy
behind_b = record (new_policy "a" 50 100) { ahead = some ("b", (1, 4)) }

pull-ahead_example :
    (there : Position) × (behind_b.ahead ≡ some ("b", there))
    × ((0 < there.0) ⊎ ((0 ≡ there.0) × (9 < there.1)))
    × Due 100 (0, 9) behind_b
    × (some (record { sender = "a"; epoch = 0; from_slot = 9 }) ≡ wanted "b" (0, 9) behind_b)
    × ((pull 100 (0, 9) behind_b).0.asked_at ≡ some (0, 9))
unfolding pull request
pull-ahead_example =
    pull-ahead 100 (0, 9) behind_b "b" (some (record { sender = "a"; epoch = 0; from_slot = 9 }))
      refl

-- A look of a leader whose third voter was missing before and does not answer.
abbrev look_of_a : Look
look_of_a = record {
  now = 90;
  leading = true;
  voters = voters;
  answering = "a" ∷ "b" ∷ [];
  removed = [];
  registered = [];
  known = [];
  learners = [];
}

abbrev keeper_of_a : VoterKeeper
keeper_of_a = record { target = 3; lost_after = 900; probed = []; missing = ("c", 30) ∷ [] }
