-- ===== src/Gmm/Transitions.antt =====
-- The table of transitions (gmm/init.go).
pub mod Paths
mod Examples
use amf_cdac.Base.{ℕ, Bool, ◌&&◌, Option, none, some, List, [], ◌∷◌, nat_beq, if◌then◌else◌}
use amf_cdac.Types.{
  GmmState, deregistered, deregistration_initiated, authentication, security_mode, context_setup,
  registered,
}

-- The events, with the two that the fsm package sends itself.
pub data Event : Type 0 where
  gmm_message start_auth auth_success auth_restart auth_fail auth_error : Event
  security_mode_success security_mode_fail security_skip security_mode_abort : Event
  context_setup_success context_setup_fail : Event
  init_deregistration nw_initiated_deregistration deregistration_accept : Event
  slice_info_delete slice_info_add : Event
  entry_event exit_event : Event

-- The strings that stand for the events differ, and so do the numbers here.
abbrev event_index : Event → ℕ
event_index gmm_message = 0
event_index start_auth = 1
event_index auth_success = 2
event_index auth_restart = 3
event_index auth_fail = 4
event_index auth_error = 5
event_index security_mode_success = 6
event_index security_mode_fail = 7
event_index security_skip = 8
event_index security_mode_abort = 9
event_index context_setup_success = 10
event_index context_setup_fail = 11
event_index init_deregistration = 12
event_index nw_initiated_deregistration = 13
event_index deregistration_accept = 14
event_index slice_info_delete = 15
event_index slice_info_add = 16
event_index entry_event = 17
event_index exit_event = 18

abbrev state_index : GmmState → ℕ
state_index deregistered = 0
state_index deregistration_initiated = 1
state_index authentication = 2
state_index security_mode = 3
state_index context_setup = 4
state_index registered = 5

-- fsm.Transition
pub record Transition : Type 0 where
  pub event : Event
  pub from : GmmState
  pub to : GmmState

abbrev row : Event → GmmState → GmmState → Transition
row event from to = record { event = event; from = from; to = to }

abbrev pub transitions : List Transition
transitions =
    row gmm_message deregistered deregistered
    ∷ row gmm_message authentication authentication
    ∷ row gmm_message security_mode security_mode
    ∷ row gmm_message context_setup context_setup
    ∷ row gmm_message registered registered
    ∷ row gmm_message deregistration_initiated deregistration_initiated
    ∷ row start_auth deregistered authentication
    ∷ row start_auth registered authentication
    ∷ row auth_restart authentication authentication
    ∷ row auth_success authentication security_mode
    ∷ row auth_fail authentication deregistered
    ∷ row auth_error authentication deregistered
    ∷ row security_mode_success security_mode context_setup
    ∷ row security_skip security_mode context_setup
    ∷ row security_mode_fail security_mode deregistered
    ∷ row security_mode_abort security_mode deregistered
    ∷ row context_setup_success context_setup registered
    ∷ row context_setup_fail context_setup deregistered
    ∷ row init_deregistration registered deregistration_initiated
    ∷ row nw_initiated_deregistration registered deregistration_initiated
    ∷ row deregistration_accept deregistration_initiated deregistered
    ∷ []

pub find_row : List Transition → GmmState → Event → Option GmmState
find_row [] s e = none
find_row (t ∷ ts) s e =
    if nat_beq (event_index t.event) (event_index e) && nat_beq (state_index t.from) (state_index s)
    then some t.to
    else find_row ts s e

-- The state to which the table leads from a state at an event.
unfoldable pub target : GmmState → Event → Option GmmState
unfolding find_row
target s e = find_row transitions s e
