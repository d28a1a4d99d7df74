-- ===== src/Consensus/Keeper.antt =====
-- app/consensus/voter_keeper.py: one look of the leader that keeps the number of voters. What it sees
-- is a record; what it does to the cluster, and the probe of an address, are parameters.
pub mod Missing
use matricxon.Base.{
  sym, subst, beq_self, ℕ, ◌+◌, ◌-◌, String, List, [], ◌∷◌, none, some, Bool, true, false, not, ltb,
  leb, length, take, keep, if◌then◌else◌, ◌==◌, ◌&&◌, ◌||◌, ◌≡◌, string_eq, nat_eq, contains, arith,
  refl, beq-cases, inl, inr, Bool-cases,
}
use matricxon.Base.Dict.{Dict, get, put, has, get_or, update}

pub record VoterKeeper : Type 0 where
  pub target : ℕ
  pub lost_after : ℕ
  pub probed : Dict String ℕ
  pub missing : Dict String ℕ

-- What `step` reads under the lock of the runtime.
pub record Look : Type 0 where
  pub now : ℕ
  pub leading : Bool
  pub voters : List String
  pub answering : List String
  pub removed : List String
  pub registered : Dict String String
  pub known : Dict String String
  pub learners : List (String × String)

pub data Deed : Type 0 where
  made : String → Deed
  replaced : String → String → Deed

-- `self._probed.get(node_id, -1e9)` is within the last minute.
asked_lately : ℕ → String → VoterKeeper → Bool
asked_lately now n k = elim (get n k.probed) [ none ↦ false | some at ↦ ltb now (at + 60000) ]

-- The registered addresses that are news.
fresh_of : Look → Dict String String → Dict String String
fresh_of l [] = []
fresh_of l ((n, a) ∷ known) =
    let rest = fresh_of l known in
    if contains n l.removed
      || contains n l.voters
      || elim (get n l.registered) [ none ↦ false | some b ↦ b == a ]
    then rest
    else (n, a) ∷ rest

without : List String → Dict String String → Dict String String
without gone = keep (λ e. not (contains e.0 gone))

-- Since when each voter that does not answer has been missing.
unfoldable missing_of : ℕ → List String → Dict String ℕ → List String → Dict String ℕ
missing_of now answering before [] = []
missing_of now answering before (v ∷ vs) =
    let rest = missing_of now answering before vs in
    if contains v answering then rest else (v, get_or v now before) ∷ rest

lost_of : ℕ → ℕ → Dict String ℕ → List String
lost_of now after [] = []
lost_of now after ((v, since) ∷ d) =
    let rest = lost_of now after d in if leb (since + after) now then v ∷ rest else rest

module _ {W : Type 0} (stranger : String → String → Bool) (set_nodes : Dict String String → W → W)
    (add_voter : String → String → W → W × Bool) (remove_voter : String → W → W) where
  unfoldable pub stale :
      Dict String String → Dict String String → ℕ → VoterKeeper → VoterKeeper × List String
  unfolding asked_lately
  stale [] heard now k = (k, [])
  stale ((n, a) ∷ registered) heard now k =
      if has n heard || asked_lately now n k
      then stale registered heard now k
      else (let (k', gone) =
            stale registered heard now (record k { probed = put n now k.probed }) in
          (k', if stranger n a then n ∷ gone else gone))

  promote : List (String × String) → W → W × List Deed
  promote [] w = (w, [])
  promote ((n, a) ∷ learners) w =
      let (w', ok) = add_voter n a w in
      let (w'', done) = promote learners w' in (w'', if ok then made n ∷ done else done)

  replace : List String → List (String × String) → W → W × List Deed
  replace (lost ∷ _) ((n, a) ∷ _) w =
      let (w', ok) = add_voter n a w in
      if ok then (remove_voter lost w', replaced n lost ∷ []) else (w', [])
  replace _ _ w = (w, [])

  -- `if fresh or gone`: the list of nodes is written.
  register : Look → Dict String String → List String → W → W
  unfolding without
  register l [] [] w = w
  register l fresh gone w = set_nodes (without gone (update l.registered fresh)) w

  -- The end of `step`, on a leader that keeps a target.
  keep_target : Look → VoterKeeper → W → VoterKeeper × (W × List Deed)
  unfolding missing_of lost_of promote replace
  keep_target l k w =
      let missing = missing_of l.now l.answering k.missing l.voters in
      let lost = lost_of l.now k.lost_after missing in
      let (w', done) = promote (take (k.target - length l.voters) l.learners) w in
      (
        record k { missing = missing },
        elim done [ [] ↦ replace lost l.learners w' | d ∷ ds ↦ (w', d ∷ ds) ],
      )

  -- `step`
  unfoldable pub step : Look → VoterKeeper → W → VoterKeeper × (W × List Deed)
  unfolding stale fresh_of register keep_target
  step l k w =
      if not l.leading
      then (record k { missing = [] }, (w, []))
      else (let (k', gone) = stale l.registered l.known l.now k in
          let w' = register l (fresh_of l l.known) gone w in
          if k'.target == 0 then (k', (w', [])) else keep_target l k' w')
