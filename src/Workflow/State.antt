-- ===== src/Workflow/State.antt =====
-- `State` of state/state.py, the dict that flows through a workflow, and the objects that a call returns.
use optorch.Base.{
  ◌≡◌, Bool, true, false, String, Option, none, some, if◌then◌else◌, ◌==◌, arith, Bool-cases,
}
use optorch.Base.Dict
use optorch.Base.Dict.{Dict}

-- The values of a state. Any other object than None, a text or a bool has its truth value and a name that stands
-- for the rest; it is hashable and equal to nothing that a configuration holds.
pub data Value : Type 0 where
  null : Value
  text : String → Value
  flag : Bool → Value
  object : Bool → String → Value

abbrev pub State : Type 0
State = Dict Value

abbrev pub truthy : Value → Bool
truthy null = false
truthy (text s) = if s == "" then false else true
truthy (flag b) = b
truthy (object b name) = b

abbrev pub or_null : Option Value → Value
or_null none = null
or_null (some v) = v

unfoldable pub get : String → State → Value
get key s = or_null (Dict.get key s)

unfoldable pub set : String → Value → State → State
set key value s = Dict.insert key value s

pub get-set :
    (key name : String) (v : Value) (state : State)
    → get name (set key v state) ≡ (if key == name then v else get name state)
unfolding get set
get-set key name v state =
    rw (Dict.get-insert key name v state) (ground (arith, Bool-cases (key == name)))

unfoldable pub has : String → State → Bool
has key s = Dict.has key s

unfoldable pub remove : String → State → State
remove key s = Dict.erase key s

-- What a call leaves that got a state and returns one: the state that it got, as it is afterwards, and the state
-- that it returns where this is another object.
pub record Cell : Type 0 where
  pub original : State
  pub other : Option State

abbrev pub returned : State → Option State → State
returned original none = original
returned original (some other) = other

abbrev pub result_of : Cell → State
result_of c = returned c.original c.other

abbrev pub same : State → Cell
same s = record { original = s; other = none }

-- a further call, which gets the state that the call before returned
unfoldable pub then_cell : Cell → Option State → Cell → Cell
then_cell before none after = after
then_cell before (some other) after = record {
  original = before.original;
  other = some (result_of after);
}

unfoldable pub modify : (State → State) → Cell → Cell
modify f c = then_cell c c.other (same (f (result_of c)))
