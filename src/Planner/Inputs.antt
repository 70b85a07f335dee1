-- ===== src/Planner/Inputs.antt =====
-- pkg/engine/planner/planner.go, `CompareInputs` and `planNodeChange`: when a resource is changed.
use cldctl.Prelude.{Option, none, some, true, ◌≡◌}
use cldctl.Dict.{Dict}
use cldctl.Text.{Text}
use cldctl.Value.{Value}
use cldctl.Planner.{deep_equal}

-- Two inputs are the same for the planner: neither is there, or both are and print alike.
abbrev pub Agree : Option Value → Option Value → Type 0
Agree none none = Unit
Agree none (some b) = ⊥
Agree (some a) none = ⊥
Agree (some a) (some b) = deep_equal a b ≡ true
