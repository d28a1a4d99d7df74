-- ===== src/Consensus/Machine.antt =====
-- app/consensus/state_machine.py: the shared facts that the log drives. `none` stands for the
-- `ValueError` of an unknown operation (and for the error of a payload that is no operation).
use matricxon.Base.{[]}
use matricxon.Base.{
  String, Bool, true, false, Option, none, some, ◌==◌, if◌then◌else◌, string_eq, not,
}
use matricxon.Base.Dict.{Dict, get_or, put, remove, has}
use matricxon.Consensus.Command.{
  Value, null, Payload, set, delete, cas, add_node, remove_node, value_eq,
}

pub record Machine : Type 0 where
  pub config : Dict String Value
  pub nodes : Dict String String

abbrev pub empty_machine : Machine
empty_machine = record { config = []; nodes = [] }

unfoldable pub apply : Machine → Payload → Option (Machine × Bool)
apply m (set k v) = some (record m { config = put k v m.config }, true)
apply m (delete k) =
    some (record m { config = remove k m.config }, not (get_or k null m.config == null))
apply m (cas k expected v) =
    if get_or k null m.config == expected
    then some (record m { config = put k v m.config }, true)
    else some (m, false)
apply m (add_node n a) = some (record m { nodes = put n a m.nodes }, true)
apply m (remove_node n) = some (record m { nodes = remove n m.nodes }, has n m.nodes)
apply m _ = none
