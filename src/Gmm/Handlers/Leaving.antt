-- ===== src/Gmm/Handlers/Leaving.antt =====
-- Deregistration by the UE and by the network (gmm/handler.go).
use amf_cdac.Base.{
  ℕ, Bool, true, false, ◌||◌, none, some, [], ◌∷◌, ◌==◌, nat_eq, if◌then◌else◌, Map, load,
}
use amf_cdac.Types.{
  AccessType, access_type_eq, access_3gpp, access_non_3gpp, access_empty, deregistered, RelAction,
  release_ue_context, release_nw_initiated,
}
use amf_cdac.Ue.{SmContext, NasAccess, nas_3gpp, nas_non_3gpp, nas_both, nas_other}
use amf_cdac.Context.State.{World}
use amf_cdac.Gmm.Transitions.{deregistration_accept as deregistration_accept_event}
use amf_cdac.Gmm.Questions.{
  releases_sm_context, deletes_am_policy, ue_context_release_command, deregister,
}
use amf_cdac.Gmm.Proc.{Proc, returns, panics, sends_to, asks}
use amf_cdac.Gmm.Callbacks.{put, of_ue}
use amf_cdac.Gmm.Senders.{send_deregistration_accept}
use amf_cdac.Gmm.Handlers.{succeed, after, clear_t3522, ran_ue_of}

-- The sessions that pass the test are released, in the order of the range; errors are logged.
unfoldable pub release_sessions :
    (SmContext → Bool) → ℕ → Map ℕ SmContext → World → (World → Proc Bool) → Proc Bool
release_sessions test u [] w k = k w
release_sessions test u ((psi, sm) ∷ rest) w k =
    if test sm
    then asks (releases_sm_context u psi none) w (λ r w'. release_sessions test u rest w' k)
    else release_sessions test u rest w k

-- ue.State[a].Is(Deregistered); a nil entry is dereferenced.
abbrev pub is_deregistered : World → ℕ → AccessType → (Bool → Proc Bool) → Proc Bool
is_deregistered w u a k = elim (load (w.ues u).state a) [
  | none ↦ panics
  | some deregistered ↦ k true
  | some _ ↦ k false
]

-- Whether the policy association ends: the other access is deregistered.
abbrev pub policy_ends : World → ℕ → AccessType → (Bool → Proc Bool) → Proc Bool
policy_ends w u access_3gpp k = is_deregistered w u access_non_3gpp k
policy_ends w u access_non_3gpp k = is_deregistered w u access_3gpp k
policy_ends w u access_empty k = k true

unfoldable pub end_policy : ℕ → AccessType → World → (World → Proc Bool) → Proc Bool
end_policy u a w k =
    if (w.ues u).am_policy_association
    then policy_ends w u a
        (λ ends. if ends then asks (deletes_am_policy u) w (λ r w'. k w') else k w)
    else k w

-- The release of the UE's context over one access, if it has one there.
unfoldable pub release_context :
    RelAction → ℕ → AccessType → World → (World → Proc Bool) → Proc Bool
release_context action u a w k = elim (ran_ue_of w u a) [
  | none ↦ k w
  | some p ↦ asks (ue_context_release_command (some p) action deregister) w (λ sent w'. k w')
]

-- The contexts of the accesses that are left.
unfoldable pub release_contexts :
    RelAction → NasAccess → ℕ → World → (World → Proc Bool) → Proc Bool
unfolding release_context
release_contexts action nas_3gpp u w k = release_context action u access_3gpp w k
release_contexts action nas_non_3gpp u w k = release_context action u access_non_3gpp w k
release_contexts action nas_both u w k =
    release_context action u access_3gpp w (λ w1. release_context action u access_non_3gpp w1 k)
release_contexts action (nas_other n) u w k = k w

-- The event goes to the state of one access, with the access type of the message.
abbrev pub accept_to : AccessType → ℕ → AccessType → World → Proc Bool
accept_to target u a w =
    sends_to target deregistration_accept_event (of_ue u a) w (λ failed w'. returns failed w')

-- The events to the states of the accesses that are left.
unfoldable pub accept_for : NasAccess → ℕ → AccessType → World → Proc Bool
accept_for nas_3gpp u a w = accept_to access_3gpp u a w
accept_for nas_non_3gpp u a w = accept_to access_non_3gpp u a w
accept_for nas_both u a w =
    sends_to access_3gpp deregistration_accept_event (of_ue u a) w
      (λ failed w'. accept_to access_non_3gpp u a w')
accept_for (nas_other n) u a w = succeed w

-- The accept of the message, unless the UE switches off or has no connection.
unfoldable pub answer_request : Bool → ℕ → AccessType → World → (World → Proc Bool) → Proc Bool
answer_request switch_off u a w k = if switch_off then k w else elim (ran_ue_of w u a) [
  | none ↦ k w
  | some p ↦ after (send_deregistration_accept (some p) w) k
]

abbrev pub is_both : NasAccess → Bool
is_both nas_both = true
is_both _ = false

-- HandleDeregistrationRequest, of a message with this access type and switch-off flag
unfoldable pub handle_deregistration_request : ℕ → AccessType → NasAccess → Bool → World → Proc Bool
unfolding release_sessions end_policy answer_request release_contexts accept_for
handle_deregistration_request u a target switch_off w =
    release_sessions (λ sm. sm.access_type == a || is_both target) u (w.ues u).sm_context_list w
      (λ w1. end_policy u a w1 (λ w2.
        answer_request switch_off u a w2
          (λ w3. release_contexts release_ue_context target u w3 (accept_for target u a))))

-- HandleDeregistrationAccept
unfoldable pub handle_deregistration_accept : ℕ → AccessType → World → Proc Bool
unfolding clear_t3522 release_contexts
handle_deregistration_accept u a w = clear_t3522 w u (λ w1.
    release_contexts release_nw_initiated (w1.ues u).deregistration_target_access_type u w1 (λ w2.
      accept_to access_3gpp u a
        (put w2 u (record (w2.ues u) { deregistration_target_access_type = nas_other 0 }))))
