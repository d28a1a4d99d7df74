-- ===== src/Consensus/Replica/Log.antt =====
-- The chosen log of a replica: `commit` writes a slot once, and nothing that it then applies
-- touches the log.
use matricxon.Base.{string_eq, []}
use matricxon.Base.{Bool}
use matricxon.Base.Dict.{get_or}
use matricxon.Base.{◌||◌, ◌&&◌, if◌then◌else◌, beq-cases, Option, of_some, sym, ap, ◌∙◌, String}
use matricxon.Base.Dict.{Dict}
use matricxon.Base.Dict.{has}
use matricxon.Base.{◌||◌, ◌&&◌, if◌then◌else◌, beq-cases, Option, of_some, sym, ap, ◌∙◌, ◌∙◌}
use matricxon.Base.{
  ◌||◌, ◌&&◌, if◌then◌else◌, beq-cases, Option, of_some, sym, ap, ◌∙◌, ℕ, zero, suc, ◌≡◌, ◌⊎◌, inl,
  inr, none, some, true, false, Bool-cases, Option-cases, refl, nat_eq, arith, ◌==◌,
}
use matricxon.Base.Dict.{put, get-put}
use matricxon.Consensus.Command.{
  no_payload, unknown, Command, command_eq, Payload, reconfigure, set, delete, cas, add_node,
  remove_node, noop,
}
use matricxon.Consensus.Machine.{Machine, apply}
use matricxon.Consensus.Replica.{
  skip_slot, Replica, Fault, safety_violation, chosen_at, choose, before, remember, seal,
  run_payload, apply_next, advance, advance_all, commit,
}

seal-chosen :
    (c : Command) (e : ℕ) (members : Dict String String) (r : Replica)
    → (seal c e members r).chosen ≡ r.chosen
unfolding seal remember
seal-chosen c e members r = ground arith

abbrev ran : Command → Machine → Bool → Replica → Replica
ran c m result r = skip_slot (remember c result (record r { machine = m }))

-- What one round of the loop did: it skipped the slot, sealed the epoch, or ran the state machine.
abbrev pub Round : Command → Replica → Replica → Type 0
Round c r r' =
    (r' ≡ skip_slot r)
    ⊎ (((e : ℕ) × (members : Dict String String) × (r' ≡ seal c e members r))
        ⊎ ((m : Machine) × (result : Bool) × (r' ≡ ran c m result r)))

applied-Round :
    (c : Command) (r r' : Replica) (o : Option (Machine × Bool))
    → elim o [ none ↦ none | some (m, result) ↦ some (ran c m result r) ] ≡ some r'
    → Round c r r'
applied-Round c r r' none h = absurd (cc)
applied-Round c r r' (some (m, result)) h = inr (inr (m, result, sym (of_some h)))

run_payload-Round :
    (c : Command) (p : Payload) (r r' : Replica) → run_payload c p r ≡ some r' → Round c r r'
unfolding run_payload apply
run_payload-Round c (reconfigure e members) r r' h = inr (inl (e, members, sym (of_some h)))
run_payload-Round c no_payload r r' h = absurd (cc)
run_payload-Round c (unknown op) r r' h = absurd (cc)
run_payload-Round c (set k v) r r' h = applied-Round c r r' (apply r.machine (set k v)) h
run_payload-Round c (delete k) r r' h = applied-Round c r r' (apply r.machine (delete k)) h
run_payload-Round c (cas k x v) r r' h = applied-Round c r r' (apply r.machine (cas k x v)) h
run_payload-Round c (add_node n a) r r' h = applied-Round c r r' (apply r.machine (add_node n a)) h
run_payload-Round c (remove_node n) r r' h =
    applied-Round c r r' (apply r.machine (remove_node n)) h

pub apply_next-Round : (c : Command) (r r' : Replica) → apply_next c r ≡ some r' → Round c r r'
unfolding apply_next
apply_next-Round c r r' h = elim (Bool-cases (has c.cmd_id r.results || c == noop)) [
  | inl k ↦ inl (sym (of_some (rw k at h)))
  | inr k ↦ run_payload-Round c c.payload r r' (rw k at h)
]

pub apply_next-chosen :
    (c : Command) (r r' : Replica) → apply_next c r ≡ some r' → r'.chosen ≡ r.chosen
unfolding remember
apply_next-chosen c r r' h = elim (apply_next-Round c r r' h) [
  | inl p ↦ ap (λ (x : Replica). x.chosen) p
  | inr (inl (e, members, p)) ↦ ap (λ (x : Replica). x.chosen) p ∙ seal-chosen c e members r
  | inr (inr (m, result, p)) ↦ ap (λ (x : Replica). x.chosen) p
]

advance-chosen : (n : ℕ) (r : Replica) → (advance n r).0.chosen ≡ r.chosen
unfolding advance
advance-chosen zero r = refl
advance-chosen (suc n) r = elim (Option-cases (chosen_at r.epoch r.next_slot r.chosen)) [
  | inl p ↦ rw (p, advance)
  | inr (c, p) ↦ elim (Option-cases (apply_next c r)) [
    | inl q ↦ rw (p, advance, q)
    | inr (r', q) ↦ rw (p, advance, q) (advance-chosen n r' ∙ apply_next-chosen c r r' q)
  ]
]

pub chosen_at-choose :
    (e slot : ℕ) (c : Command) (log : Dict ℕ (Dict ℕ Command)) (e' slot' : ℕ)
    → chosen_at e' slot' (choose e slot c log)
      ≡ (if e == e' && slot == slot' then some c else chosen_at e' slot' log)
unfolding chosen_at choose
chosen_at-choose e slot c log e' slot' = ground (
  arith,
  get-put e e' (put slot c (get_or e [] log)) log,
  get-put slot slot' c (get_or e [] log),
  nat_eq.beq_iff e e',
)

-- The outcomes of `commit`: known already, in conflict, too old, or chosen.
abbrev pub CommitOutcome : ℕ → ℕ → Command → Replica → Replica × (Option Fault × Bool) → Type 0
CommitOutcome e slot c r out =
    ((chosen_at e slot r.chosen ≡ some c) × (out ≡ (r, (none, false))))
    ⊎ (((d : Command) × (chosen_at e slot r.chosen ≡ some d)
          × (d ≡ c → ⊥)
          × (out ≡ (r, (some safety_violation, false))))
        ⊎ (((chosen_at e slot r.chosen ≡ none)
              × (before e slot r.epoch r.next_slot ≡ true)
              × (out ≡ (r, (none, false))))
            ⊎ ((chosen_at e slot r.chosen ≡ none)
                × (before e slot r.epoch r.next_slot ≡ false)
                × (out.1.1 ≡ true)
                × ((e' slot' : ℕ)
                    → chosen_at e' slot' out.0.chosen ≡ (
                        if e == e' && slot == slot'
                        then some c
                        else chosen_at e' slot' r.chosen)))))

-- Committing the command that a slot holds changes nothing; another command is the safety violation
-- and changes nothing; a slot before the position is ignored; any other slot is chosen, and whatever
-- the loop then applies, every other slot keeps what it held.
pub commit_lem :
    (e slot : ℕ) (c : Command) (r : Replica) → CommitOutcome e slot c r (commit e slot c r)
unfolding commit advance_all
commit_lem e slot c r = elim (Option-cases (chosen_at e slot r.chosen)) [
  | inr (d, p) ↦ elim (beq-cases d c) [
    | inl q ↦ inl (p ∙ ap (λ (x : Command). some x) q, rw (p, commit, (command_eq.beq_iff d c).1 q))
    | inr q ↦ inr (inl (d, p, λ k. cc ((command_eq.beq_iff d c).1 k), rw (p, commit, q)))
  ]
  | inl p ↦ elim (Bool-cases (before e slot r.epoch r.next_slot)) [
    | inl b ↦ inr (inr (inl (p, b, rw (p, commit, b))))
    | inr b ↦ inr (
        inr (
          inr (
            p,
            b,
            rw (p, commit, b),
            λ e' slot'.
                rw (p, commit, b, advance_all)
                  (ap (chosen_at e' slot') (advance-chosen _ _)
                    ∙ chosen_at-choose e slot c r.chosen e' slot'),
          )))
  ]
]
