-- ===== src/Channel/Examples.antt =====
-- A run of an event channel (context/transaction.go).
use amf_cdac.Base.{ℕ, ◌≡◌, refl, false, some, [], ◌∷◌}
use amf_cdac.Channel.{
  Message, ngap_msg, EventChannel, new_event_channel, submit_message, update_ngap_handler,
  take_message, step, handle,
}
use amf_cdac.Channel.Order.{IsOrdered}
use amf_cdac.Channel.History.{Reach, begins, goes, Reach-IsOrdered, quit-silent}

abbrev result_of : ℕ → Message → ℕ
result_of h m = h

abbrev ready : EventChannel
ready = record (new_event_channel 0) { ngap_handler = some 7 }

abbrev filled : EventChannel
filled = record ready { messages = ngap_msg 1 ∷ [] }

abbrev emptied : EventChannel
emptied = record ready { calls = record { handler = 7; ue = some 0; message = ngap_msg 1 } ∷ [] }

-- A handler is set, a message comes in and is handled.
one_message : Reach result_of (new_event_channel 0) (ngap_msg 1 ∷ []) emptied
unfolding new_event_channel step handle
one_message =
    goes {ms = ngap_msg 1 ∷ []} {tx = filled} take_message
      (goes {ms = []} {tx = ready} (submit_message (ngap_msg 1))
        (goes {ms = []} {tx = new_event_channel 0} (update_ngap_handler 7) begins refl) refl)
      refl

Reach-IsOrdered_example : IsOrdered result_of (ngap_msg 1 ∷ []) emptied
Reach-IsOrdered_example = Reach-IsOrdered result_of 0 (ngap_msg 1 ∷ []) emptied one_message

-- The goroutine is told to quit with a message waiting, and then another one is submitted.
abbrev told : EventChannel
told = record emptied { events = "quit" ∷ []; messages = ngap_msg 2 ∷ [] }

abbrev ended : EventChannel
ended = record told { events = []; running = false }

abbrev later : EventChannel
later = record ended { messages = ngap_msg 2 ∷ ngap_msg 3 ∷ [] }

submitted_late : Reach result_of ended (ngap_msg 3 ∷ []) later
unfolding step
submitted_late = goes {ms = []} {tx = ended} (submit_message (ngap_msg 3)) begins refl

quit-silent_example :
    (later.running ≡ false) × (later.calls ≡ told.calls) × (later.results ≡ told.results)
unfolding new_event_channel
quit-silent_example =
    quit-silent result_of told ended later [] (ngap_msg 3 ∷ []) refl (unfold step in refl)
      submitted_late
