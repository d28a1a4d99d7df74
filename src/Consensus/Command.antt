-- ===== src/Consensus/Command.antt =====
-- The commands of app/consensus/messages.py and their payloads: the operations that
-- app/consensus/state_machine.py applies and the `reconfigure` of app/consensus/replica.py.
-- A value of the shared configuration is one of the shapes that the code stores there; `unknown` is
-- any other payload, by its "op".
use matricxon.Base.{
  ℕ, ℕ_discrete, String, List, Bool, true, false, Option, string_discrete, Eq, of_discrete,
}
use matricxon.Base.Dict.{Dict}

pub data Value : Type 0 where
  null : Value
  flag : Bool → Value
  text : String → Value
  ids : List String → Value
  addresses : Dict String String → Value
  lease : Option String → ℕ → Value
  timers : ℕ → ℕ → Value

unfoldable pub Value-discrete : Discrete Value
unfolding ℕ_discrete string_discrete
Value-discrete = hlevel (ℕ_discrete, string_discrete)

pub data Payload : Type 0 where
  no_payload : Payload
  reconfigure : ℕ → Dict String String → Payload
  set : String → Value → Payload
  delete : String → Payload
  cas : String → Value → Value → Payload
  add_node : String → String → Payload
  remove_node : String → Payload
  unknown : String → Payload

pub record Command : Type 0 where
  pub cmd_id : String
  pub payload : Payload

abbrev pub noop : Command
noop = record { cmd_id = ""; payload = no_payload }

unfoldable pub Command-discrete : Discrete Command
unfolding Value-discrete ℕ_discrete string_discrete
Command-discrete = hlevel (ℕ_discrete, string_discrete, Value-discrete)

instance abbrev pub value_eq : Eq Value
value_eq = of_discrete Value-discrete

instance abbrev pub command_eq : Eq Command
command_eq = of_discrete Command-discrete

unfoldable pub is_reconfigure : Command → Bool
is_reconfigure c = elim c.payload [ reconfigure e m ↦ true | _ ↦ false ]
