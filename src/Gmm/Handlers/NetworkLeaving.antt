-- ===== src/Gmm/Handlers/NetworkLeaving.antt =====
-- NetworkInitiatedDeregistrationProcedure (gmm/handler.go).
use amf_cdac.Base.{ℕ, Bool, true, false, none, some, [], ◌∷◌, ◌==◌, if◌then◌else◌, Map, load}
use amf_cdac.Types.{AccessType, access_type_eq, access_3gpp, registered, release_nw_initiated}
use amf_cdac.Ue.{SmContext}
use amf_cdac.Context.State.{World}
use amf_cdac.Context.Ues.{cm_connect, remove_amf_ue}
use amf_cdac.Gmm.Questions.{
  Answer, granted, releases_sm_context, deletes_am_policy, ue_context_release_command, deregister,
}
use amf_cdac.Gmm.Proc.{Proc, returns, panics, asks}
use amf_cdac.Gmm.Callbacks.{set_deregistered_state}
use amf_cdac.Gmm.Senders.{send_deregistration_request}
use amf_cdac.Gmm.Handlers.{Env, after, ran_ue_of, an_type_to_nas}
use amf_cdac.Gmm.Handlers.Leaving.{policy_ends}
use amf_cdac.Gmm.Handlers.Slices.{is_failed}

-- ue.State[a].Is(Registered); a nil entry is dereferenced.
abbrev pub when_registered : World → ℕ → AccessType → Proc Bool → Proc Bool → Proc Bool
when_registered w u a then_ else_ = elim (load (w.ues u).state a) [
  | none ↦ panics
  | some registered ↦ then_
  | some _ ↦ else_
]

-- A connected and registered UE is asked to deregister, another one is set deregistered.
unfoldable pub begin_leaving : Env → ℕ → AccessType → World → (World → Proc Bool) → Proc Bool
begin_leaving env u a w k =
    let set = after (set_deregistered_state w u a) k in
    if cm_connect (w.ues u) a
    then when_registered w u a
        (after
          (send_deregistration_request env.timers (ran_ue_of w u a) (an_type_to_nas a) true 0 w) k)
        set
    else set

-- The sessions over the access are released; the error of the last release stays.
unfoldable pub release_over :
    ℕ → AccessType → Map ℕ SmContext → Bool → World → (Bool → World → Proc Bool) → Proc Bool
release_over u a [] err w k = k err w
release_over u a ((psi, sm) ∷ rest) err w k =
    if sm.access_type == a
    then asks (releases_sm_context u psi none) w (λ r w'. release_over u a rest (is_failed r) w' k)
    else release_over u a rest err w k

abbrev pub is_granted : {A : Type 0} → Answer A → Bool
is_granted (granted x) = true
is_granted _ = false

-- The end of the policy association; problem details are an error here as well.
unfoldable pub end_policy_of :
    ℕ → AccessType → Bool → World → (Bool → World → Proc Bool) → Proc Bool
end_policy_of u a err w k =
    if (w.ues u).am_policy_association
    then policy_ends w u a (λ ends.
      if ends
      then asks (deletes_am_policy u) w (λ r w'. k (if is_granted r then false else true) w')
      else k err w)
    else k err w

-- The context of a UE that is not registered: released over 3GPP when the UE is connected, and else
-- removed.
unfoldable pub drop_context : ℕ → AccessType → Bool → World → Proc Bool
drop_context u a err w = when_registered w u a (returns err w) (
    if cm_connect (w.ues u) a
    then asks
        (ue_context_release_command (ran_ue_of w u access_3gpp) release_nw_initiated deregister) w
        (λ sent w'. returns err w')
    else returns err (remove_amf_ue w u))

-- NetworkInitiatedDeregistrationProcedure
unfoldable pub network_initiated_deregistration : Env → ℕ → AccessType → World → Proc Bool
unfolding begin_leaving release_over end_policy_of drop_context
network_initiated_deregistration env u a w = begin_leaving env u a w (λ w1.
    release_over u a (w1.ues u).sm_context_list false w1
      (λ err w2. end_policy_of u a err w2 (λ err' w3. drop_context u a err' w3)))
