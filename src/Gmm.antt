-- ===== src/Gmm.antt =====
-- The GMM state machine of a UE (gmm/init.go, gmm/sm.go): its table of transitions, and the callbacks
-- that run in its states. SendEvent is util-cdac's fsm package, which is not part of the repository:
-- a callback is a tree that shows each event it sends, and continues with the answer.
pub mod Transitions
pub mod Questions
pub mod Proc
pub mod Callbacks
pub mod Senders
pub mod Handlers
