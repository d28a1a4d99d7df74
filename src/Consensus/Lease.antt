-- ===== src/Consensus/Lease.antt =====
-- app/consensus/lease.py: leases with a time limit on the compare-and-set of the cluster. Times are
-- whole milliseconds. A key with the prefix holds a lease, or nothing: another value counts as
-- nothing. The copy of the configuration, the clock and the submission of a command belong to the
-- running node, and are parameters.
pub mod Exclusive
use Prim.Native.String.{◌++◌ as text_append}
use matricxon.Base.{
  ℕ, ◌+◌, ◌/◌, String, List, [], ◌∷◌, Option, none, some, Bool, true, false, not, ltb,
  if◌then◌else◌, ◌==◌, ◌&&◌, string_eq,
}
use matricxon.Base.Dict.{Dict, get_or}
use matricxon.Consensus.Command.{Value, null, lease, Payload, cas}

abbrev pub key_of : String → String
key_of name = text_append "lease/" name

-- `self._read().get(PREFIX + name)`
abbrev pub current : String → Dict String Value → Value
current name config = get_or (key_of name) null config

-- The holder of a value that has not expired.
unfoldable pub live_holder : Value → ℕ → Option String
live_holder (lease (some h) expires) now = if not (h == "") && ltb now expires then some h else none
live_holder _ now = none

-- Held by this node, with a margin.
unfoldable pub held_by : String → Value → ℕ → ℕ → Bool
held_by id (lease (some h) expires) margin now = h == id && ltb (now + margin) expires
held_by id _ margin now = false

-- Held by another node: `try_acquire` gives up.
unfoldable pub taken : String → Value → ℕ → Bool
taken id (lease (some h) expires) now = not (h == id) && ltb now expires
taken id _ now = false

-- The compare-and-set of `try_acquire`, if it submits one.
unfoldable pub claim : String → String → ℕ → ℕ → Value → Option Payload
unfolding taken
claim id name ttl now value =
    if taken id value now
    then none
    else some (cas (key_of name) value (lease (some id) (now + ttl)))

unfoldable pub is_own : String → Value → Bool
is_own id (lease (some h) expires) = h == id
is_own id _ = false

-- The compare-and-set of `release`.
unfoldable pub give_up : String → String → Value → Option Payload
unfolding is_own
give_up id name value =
    if is_own id value then some (cas (key_of name) value (lease none 0)) else none

module _ {W : Type 0} (read : W → Dict String Value) (clock : W → ℕ)
    (submit : Payload → W → W × Bool) where
  unfoldable pub holder : String → W → Option String
  unfolding live_holder
  holder name w = live_holder (current name (read w)) (clock w)

  unfoldable pub holds : String → String → ℕ → W → Bool
  unfolding held_by
  holds id name margin w = held_by id (current name (read w)) margin (clock w)

  submit_if : Option Payload → W → W × Bool
  submit_if none w = (w, false)
  submit_if (some p) w = submit p w

  unfoldable pub try_acquire : String → String → ℕ → W → W × Bool
  unfolding claim submit_if
  try_acquire id name ttl w = submit_if (claim id name ttl (clock w) (current name (read w))) w

  unfoldable pub release : String → String → W → W × Bool
  unfolding give_up submit_if
  release id name w = submit_if (give_up id name (current name (read w))) w

  acquire_each : String → List String → ℕ → W → W
  unfolding try_acquire
  acquire_each id [] ttl w = w
  acquire_each id (name ∷ names) ttl w = acquire_each id names ttl (try_acquire id name ttl w).0

  run_each : String → List (String × (W → W)) → ℕ → W → W
  unfolding holds
  run_each id [] ttl w = w
  run_each id ((name, task) ∷ tasks) ttl w =
      run_each id tasks ttl (if holds id name (ttl / 3) w then task w else w)

  -- `LeaseKeeper.tick`: renews, unless the cluster cannot decide, and runs the tasks of what it owns.
  unfoldable pub tick : String → List String → ℕ → Bool → List (String × (W → W)) → W → W
  unfolding acquire_each run_each
  tick id names ttl ready tasks w =
      run_each id tasks ttl (if ready then acquire_each id names ttl w else w)
