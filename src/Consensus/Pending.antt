-- ===== src/Consensus/Pending.antt =====
-- app/consensus/pending.py: commands that this node submitted and that are not applied yet.
pub mod Open
use matricxon.Base.{String, [], ◌∷◌, Bool, if◌then◌else◌, string_eq}
use matricxon.Base.Dict.{Dict, put, remove}
use matricxon.Consensus.Command.{Command}

abbrev pub Pending : Type 0
Pending = Dict String Command

unfoldable pub add : Command → Pending → Pending
add c p = put c.cmd_id c p

unfoldable pub discard : String → Pending → Pending
discard cmd_id p = remove cmd_id p

-- `open`: drops what is applied; the rest are the commands to hand over again.
unfoldable pub still_open : (String → Bool) → Pending → Pending
still_open applied [] = []
still_open applied ((i, c) ∷ p) =
    let rest = still_open applied p in if applied i then rest else (i, c) ∷ rest
