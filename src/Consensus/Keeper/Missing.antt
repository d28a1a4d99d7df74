-- ===== src/Consensus/Keeper/Missing.antt =====
-- Whom the voter keeper counts as missing after a look, and since when.
use matricxon.Base.{
  String, [], none, some, true, false, not, ◌⊎◌, if◌then◌else◌, ◌&&◌, ◌≡◌, string_eq, contains,
}
use matricxon.Base.Dict.{Dict, get, get_or}
use matricxon.Consensus.Keeper.{VoterKeeper, Look}

-- What a look leaves of the missing voters: none if the node does not lead, the same if it has no
-- target, and otherwise exactly the voters that did not answer, since when they were missing or now.
abbrev pub MissingAfter : Look → VoterKeeper → VoterKeeper → Type 0
MissingAfter l k k' =
    ((l.leading ≡ false) × (k'.missing ≡ []))
    ⊎ ((l.leading ≡ true) × (k.target ≡ 0) × (k'.missing ≡ k.missing))
    ⊎ ((l.leading ≡ true)
        × ((v : String)
            → get v k'.missing ≡ (
                if contains v l.voters && not (contains v l.answering)
                then some (get_or v l.now k.missing)
                else none)))
