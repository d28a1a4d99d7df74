-- ===== src/Consensus/Lease/Exclusive.antt =====
-- No two nodes win one lease: what a compare-and-set that went through says.
use matricxon.Base.{Option}
use matricxon.Base.{Bool}
use matricxon.Base.{
  ℕ, ◌+◌, ◌<◌, ◌≡◌, String, none, some, true, false, Bool-cases, inl, inr, arith, of_some, ◌==◌,
  string_eq, sym, ap, ◌∙◌, subst,
}
use matricxon.Base.Dict.{get_or, put, get-put_self}
use matricxon.Consensus.Command.{Value, null, lease, Payload, cas, value_eq}
use matricxon.Consensus.Machine.{Machine, apply}
use matricxon.Consensus.Lease.{key_of, current, taken, claim}

-- What the command of an acquisition does when it succeeds: the value that the node had read still
-- stood, nobody else's lease was live by the node's clock, and the lease is the node's from then on.
pub record Acquired (id name : String) (ttl now : ℕ) (value : Value) (m m' : Machine) : Type 0 where
  pub unchanged : current name m.config ≡ value
  pub free : taken id (current name m.config) now ≡ false
  pub own : current name m'.config ≡ lease (some id) (now + ttl)
  pub excludes :
      (other : String) (t : ℕ)
      → (id == other) ≡ false
      → t < now + ttl
      → claim other name ttl t (current name m'.config) ≡ none

cas-true :
    (k : String) (expected v : Value) (m m' : Machine)
    → apply m (cas k expected v) ≡ some (m', true)
    → (get_or k null m.config ≡ expected) × (get_or k null m'.config ≡ v)
unfolding apply
cas-true k expected v m m' h = elim (Bool-cases (get_or k null m.config == expected)) [
  | inl e ↦
      let done : ◌≡◌ {A = Machine × Bool} (record m { config = put k v m.config }, true)
          (m', true) =
        of_some (rw e at h) in
      (
        (value_eq.beq_iff (get_or k null m.config) expected).0 e,
        ap (λ (x : Machine × Bool). get_or k null x.0.config) (sym done)
            ∙ ap (λ (o : Option Value). elim o [ none ↦ null | some w ↦ w ])
                (get-put_self k v m.config),
      )
  | inr e ↦
      let failed : ◌≡◌ {A = Machine × Bool} (m, false) (m', true) = of_some (rw e at h) in
      absurd (cc (ap (λ (x : Machine × Bool). x.1) failed))
]

lease-excludes :
    (id other name : String) (ttl until t : ℕ)
    → (id == other) ≡ false
    → t < until
    → claim other name ttl t (lease (some id) until) ≡ none
unfolding claim taken
lease-excludes id other name ttl until t q l = ground (arith, q)

-- A node that acquires a lease by a compare-and-set on what it had read, whatever happened to the
-- lease meanwhile, finds it unchanged and not live for another node by its own clock, owns it
-- afterwards, and until it expires no other node that reads it even submits a claim.
pub claim-Acquired :
    (id name : String) (ttl now : ℕ) (value : Value) (p : Payload) (m m' : Machine)
    → claim id name ttl now value ≡ some p
    → apply m p ≡ some (m', true)
    → Acquired id name ttl now value m m'
unfolding claim
claim-Acquired id name ttl now value p m m' h won = elim (Bool-cases (taken id value now)) [
  | inl k ↦ absurd (cc (rw k at h))
  | inr k ↦
      let q : cas (key_of name) value (lease (some id) (now + ttl)) ≡ p = of_some (rw k at h) in
      let (was, is) =
        cas-true (key_of name) value (lease (some id) (now + ttl)) m m'
          (subst (λ x. apply m x ≡ some (m', true)) (sym q) won) in
      record {
        unchanged = was;
        free = subst (λ x. taken id x now ≡ false) (sym was) k;
        own = is;
        excludes = λ other t d l.
            subst (λ x. claim other name ttl t x ≡ none) (sym is)
              (lease-excludes id other name ttl (now + ttl) t d l);
      }
]
