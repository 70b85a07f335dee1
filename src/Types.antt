-- ===== src/Types.antt =====
-- pkg/state/types/types.go: the state that is stored for an environment. Times are not modelled.
use cldctl.Dict.{Dict}
use cldctl.Prelude.{List, ℕ, ℤ}
use cldctl.Text.{Text}
use cldctl.Value.{Value}

pub data EnvironmentStatus : Type 0 where
  pending provisioning ready failed destroying : EnvironmentStatus

pub data ResourceStatus : Type 0 where
  pending provisioning ready failed deleting deleted : ResourceStatus

pub data ModuleStatus : Type 0 where
  pending applying ready failed : ModuleStatus

pub record ModuleState : Type 0 where
  pub name : Text
  pub plugin : Text
  pub source : Text
  pub inputs : Dict Value
  pub outputs : Dict Value
  pub iac_state : List ℕ
  pub status : ModuleStatus
  pub status_reason : Text

pub record ResourceState : Type 0 where
  pub name : Text
  pub type : Text
  pub component : Text
  pub hook : Text
  pub module_name : Text
  pub inputs : Dict Value
  pub outputs : Dict Value
  pub iac_state : List ℕ
  pub module_states : Dict ModuleState
  pub status : ResourceStatus
  pub status_reason : Text

pub record InstanceState : Type 0 where
  pub name : Text
  pub source : Text
  pub weight : ℤ
  pub variables : Dict Text
  pub resources : Dict ResourceState

pub record ComponentState : Type 0 where
  pub name : Text
  pub version : Text
  pub source : Text
  pub status : ResourceStatus
  pub status_reason : Text
  pub variables : Dict Text
  pub dependencies : List Text
  pub outputs : Dict Value
  pub resources : Dict ResourceState
  pub instances : Dict InstanceState

pub record EnvironmentState : Type 0 where
  pub name : Text
  pub datacenter : Text
  pub status : EnvironmentStatus
  pub status_reason : Text
  pub variables : Dict Text
  pub components : Dict ComponentState
  pub modules : Dict ModuleState

pub record DatacenterState : Type 0 where
  pub name : Text
  pub version : Text
  pub source : Text
  pub variables : Dict Text
  pub modules : Dict ModuleState

-- A component that is declared for a datacenter.
pub record DatacenterComponentConfig : Type 0 where
  pub name : Text
  pub source : Text
  pub variables : Dict Text

pub record EnvironmentRef : Type 0 where
  pub name : Text
  pub datacenter : Text
