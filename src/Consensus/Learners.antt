-- ===== src/Consensus/Learners.antt =====
-- app/consensus/learners.py: the nodes that follow the log without voting.
pub mod Candidates
use matricxon.Base.{
  ℕ, ◌+◌, String, List, [], ◌∷◌, Bool, not, ltb, leb, map, if◌then◌else◌, ◌==◌, ◌&&◌, ◌||◌,
  string_eq, nat_eq, contains,
}
use matricxon.Base.Dict.{Dict, put}
use matricxon.Base.Sort.{sort}
use matricxon.Base.Text.{text_ltb}

pub record Sighting : Type 0 where
  pub address : String
  pub epoch : ℕ
  pub next_slot : ℕ
  pub at : ℕ

abbrev pub Learners : Type 0
Learners = Dict String Sighting

abbrev pub fresh : ℕ
fresh = 30000

unfoldable pub seen : String → Sighting → Learners → Learners
seen node_id s l = put node_id s l

usable : List String → ℕ → ℕ → ℕ → ℕ → String → Sighting → Bool
usable voters e next_slot slack now node_id s =
    not (contains node_id voters || ltb (s.at + fresh) now || not (s.epoch == e) || s.address == "")
    && leb next_slot (slack + s.next_slot)

found : List String → ℕ → ℕ → ℕ → ℕ → Learners → List (ℕ × String × String)
found voters e next_slot slack now [] = []
found voters e next_slot slack now ((node_id, s) ∷ rest) =
    let more = found voters e next_slot slack now rest in
    if usable voters e next_slot slack now node_id s
    then (s.next_slot, node_id, s.address) ∷ more
    else more

-- The order of `(next_slot - theirs, node_id, address)`: the longer log first.
closer : ℕ × String × String → ℕ × String × String → Bool
closer (a, n, x) (b, m, y) = ltb b a || (a == b && (text_ltb n m || (n == m && not (text_ltb y x))))

unfoldable pub caught_up : List String → ℕ → ℕ → ℕ → ℕ → Learners → List (String × String)
unfolding usable found closer
caught_up voters e next_slot slack now l =
    map (λ t. (t.1, t.2)) (sort closer (found voters e next_slot slack now l))

unfoldable pub known : ℕ → Learners → Dict String String
known now [] = []
known now ((n, s) ∷ rest) =
    let more = known now rest in
    if not (s.address == "") && leb now (s.at + fresh) then (n, s.address) ∷ more else more
