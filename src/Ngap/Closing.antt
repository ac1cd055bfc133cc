-- ===== src/Ngap/Closing.antt =====
-- The end of a station's connection (ngap/dispatcher.go, HandleSCTPNotification and
-- HandleSCTPNotificationLb).
use amf_cdac.Base.{
  ℕ, String, Bool, Option, none, some, [], ◌∷◌, ◌==◌, string_eq, Map, if◌then◌else◌,
}
use amf_cdac.Context.State.{World, RanKey}
use amf_cdac.Context.Stations.{amf_ran_find_by_conn, amf_ran_find_by_gnb_id, remove_amf_ran}

-- The notification's type, and the state of a change of the association.
pub data Notification : Type 0 where
  comm_lost shutdown_comp other_state shutdown_event other_notification : Notification

-- The range over the pool that removes stale stations. The connection of a station that has none is
-- no SCTP connection, for which the type assertion panics; whether a connection is equal to a
-- closed one is a parameter.
unfoldable pub remove_stale : (ℕ → Bool) → Map RanKey ℕ → World → Option World
remove_stale is_closed [] w = some w
remove_stale is_closed ((key, r) ∷ rest) w = elim (w.rans r).conn [
  | none ↦ none
  | some conn ↦
      let w' = if is_closed conn then remove_amf_ran w r else w in remove_stale is_closed rest w'
]

unfoldable pub close_on : Notification → ℕ → World → World
close_on comm_lost r w = remove_amf_ran w r
close_on shutdown_comp r w = remove_amf_ran w r
close_on shutdown_event r w = remove_amf_ran w r
close_on _ r w = w

-- HandleSCTPNotification(conn, notification)
unfoldable pub handle_sctp_notification : (ℕ → Bool) → ℕ → Notification → World → Option World
unfolding remove_stale close_on
handle_sctp_notification is_closed conn notification w = elim (amf_ran_find_by_conn w conn) [
  | none ↦ some w
  | some r ↦ elim (remove_stale is_closed w.amf_ran_pool w) [
    | none ↦ none
    | some w' ↦ some (close_on notification r w')
  ]
]

-- The range over the pool that removes the stations with the identifier.
unfoldable pub remove_named : String → Map RanKey ℕ → World → World
remove_named gnb_id [] w = w
remove_named gnb_id ((key, r) ∷ rest) w =
    let w' = if (w.rans r).gnb_id == gnb_id then remove_amf_ran w r else w in
    remove_named gnb_id rest w'

-- HandleSCTPNotificationLb(gnbId); the station is removed once more at the end.
unfoldable pub handle_sctp_notification_lb : String → World → World
unfolding remove_named
handle_sctp_notification_lb gnb_id w = elim (amf_ran_find_by_gnb_id w gnb_id) [
  | none ↦ w
  | some r ↦ remove_amf_ran (remove_named gnb_id w.amf_ran_pool w) r
]
