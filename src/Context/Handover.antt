-- ===== src/Context/Handover.antt =====
-- The two RanUes of a UE during a handover (context/common_function.go, AttachSourceUeTargetUe and
-- DetachSourceUeTargetUe).
use amf_cdac.Base.{ℕ, ◌≡◌, ◌≢◌, ◌⊎◌, Option, none, some, arith}
use amf_cdac.Context.State.{RanUe, World, update}

-- The fields of one RanUe are changed.
abbrev pub with_ran_ue : World → ℕ → RanUe → World
with_ran_ue w p r = record w { ran_ues = update w.ran_ues p r }

-- targetUe.AmfUe = amfUe, targetUe.SourceUe = sourceUe, sourceUe.TargetUe = targetUe, in this order.
pub link_ues : World → ℕ → ℕ → ℕ → World
link_ues w u s t =
    let w1 = with_ran_ue w t (record (w.ran_ues t) { amf_ue = some u }) in
    let w2 = with_ran_ue w1 t (record (w1.ran_ues t) { source_ue = some s }) in
    with_ran_ue w2 s (record (w2.ran_ues s) { target_ue = some t })

-- AttachSourceUeTargetUe(sourceUe, targetUe): with a nil argument, or no AmfUe, it only logs.
unfoldable pub attach_source_target : World → Option ℕ → Option ℕ → World
unfolding link_ues
attach_source_target w none t = w
attach_source_target w (some s) none = w
attach_source_target w (some s) (some t) = elim (w.ran_ues s).amf_ue [
  | none ↦ w
  | some u ↦ link_ues w u s t
]

-- DetachSourceUeTargetUe(ranUe)
pub unlink_target : World → ℕ → ℕ → World
unlink_target w p t =
    let w1 = with_ran_ue w p (record (w.ran_ues p) { target_ue = none }) in
    with_ran_ue w1 t (record (w1.ran_ues t) { source_ue = none })

pub unlink_source : World → ℕ → ℕ → World
unlink_source w p s =
    let w1 = with_ran_ue w p (record (w.ran_ues p) { source_ue = none }) in
    with_ran_ue w1 s (record (w1.ran_ues s) { target_ue = none })

unfoldable pub detach_source_target : World → Option ℕ → World
unfolding unlink_target unlink_source
detach_source_target w none = w
detach_source_target w (some p) = elim (w.ran_ues p).target_ue [
  | some t ↦ unlink_target w p t
  | none ↦ elim (w.ran_ues p).source_ue [ some s ↦ unlink_source w p s | none ↦ w ]
]

-- A RanUe is the target of another one exactly when that one is its source.
pub record IsMirrored (w : World) : Type 0 where
  pub target_to_source :
      (p q : ℕ) → (w.ran_ues p).target_ue ≡ some q → (w.ran_ues q).source_ue ≡ some p
  pub source_to_target :
      (p q : ℕ) → (w.ran_ues q).source_ue ≡ some p → (w.ran_ues p).target_ue ≡ some q

-- Attaching a source that has no target to a target that has no source keeps all source and target
-- links mirrored; so does attaching with a nil argument or from a source without AmfUe.
pub attach-IsMirrored :
    (w : World) (s t : ℕ)
    → IsMirrored w
    → (w.ran_ues s).target_ue ≡ none
    → (w.ran_ues t).source_ue ≡ none
    → IsMirrored (attach_source_target w (some s) (some t))
unfolding attach_source_target
attach-IsMirrored w s t m free open_ = record {
  target_to_source = λ p q e. ground (
    arith,
    m.target_to_source p q,
    m.source_to_target p q,
    m.target_to_source p t,
    m.source_to_target s q,
  );
  source_to_target = λ p q e. ground (
    arith,
    m.target_to_source p q,
    m.source_to_target p q,
    m.target_to_source p t,
    m.source_to_target s q,
  );
}

-- Detaching either of the two keeps the links mirrored, whatever RanUe it is called with.
pub detach-IsMirrored :
    (w : World) (o : Option ℕ) → IsMirrored w → IsMirrored (detach_source_target w o)
unfolding detach_source_target
detach-IsMirrored w none m = m
detach-IsMirrored w (some x) m = record {
  target_to_source = λ p q e. ground (
    arith,
    m.target_to_source p q,
    m.source_to_target p q,
    m.target_to_source x q,
    m.source_to_target p x,
  );
  source_to_target = λ p q e. ground (
    arith,
    m.target_to_source p q,
    m.source_to_target p q,
    m.target_to_source x q,
    m.source_to_target p x,
  );
}

-- Attaching and then detaching, from either side, ends the handover: a source without target and a
-- target without source, the source in the hands of an AmfUe, have no link to one another left, and
-- no other RanUe has changed.
pub attach-detach :
    (w : World) (s t u x : ℕ)
    → (w.ran_ues s).amf_ue ≡ some u
    → (w.ran_ues s).target_ue ≡ none
    → (w.ran_ues t).source_ue ≡ none
    → (w.ran_ues t).target_ue ≡ none
    → s ≢ t
    → (x ≡ s) ⊎ (x ≡ t)
    → let w' = detach_source_target (attach_source_target w (some s) (some t)) (some x) in
      ((w'.ran_ues s).target_ue ≡ none)
      × ((w'.ran_ues t).source_ue ≡ none)
      × ((w'.ran_ues t).amf_ue ≡ some u)
      × ((q : ℕ) → q ≢ s → q ≢ t → w'.ran_ues q ≡ w.ran_ues q)
unfolding attach_source_target detach_source_target
attach-detach w s t u x a b c d n side =
    (ground arith, ground arith, ground arith, λ q k l. ground arith)
