-- ===== src/Channel.antt =====
-- The event channel of a UE (context/transaction.go): its goroutine takes messages and events, and
-- calls the handler of a message. Which of the two channels a select takes when both are ready is
-- the environment's choice, so a run is a list of moves.
pub mod Order
pub mod History
mod Examples
use amf_cdac.Base.{
  ℕ, ℤ, String, Bool, true, false, Option, none, some, List, [], ◌∷◌, ◌++◌, ◌==◌, string_eq,
  if◌then◌else◌, length, ltb,
}
use amf_cdac.Types.{Bytes, AccessType}

-- The messages, by their types; `other_msg` is of none of the types of the switch. A pointer or an
-- interface value in a message is a number, and so is the channel for the result.
pub data Message : Type 0 where
  nas_msg : AccessType → Bytes → ℤ → Message
  ngap_msg : ℕ → Message
  sbi_msg : String → String → ℕ → ℕ → Message
  config_msg : String → String → String → ℕ → Message
  other_msg : ℕ → Message

-- A call of a handler: which function, for which UE, with what.
pub record Call : Type 0 where
  pub handler : ℕ
  pub ue : Option ℕ
  pub message : Message

-- EventChannel, with the calls made, the oldest first, and the results sent; `running` holds until
-- the goroutine returns. Both channels have a capacity of 10.
pub record EventChannel : Type 0 where
  pub messages : List Message
  pub events : List String
  pub amf_ue : Option ℕ
  pub nas_handler : Option ℕ
  pub ngap_handler : Option ℕ
  pub sbi_handler : Option ℕ
  pub config_handler : Option ℕ
  pub running : Bool
  pub calls : List Call
  pub results : List (ℕ × ℕ)

-- ue.NewEventChannel(), and go tx.Start()
unfoldable pub new_event_channel : ℕ → EventChannel
new_event_channel u = record {
  messages = [];
  events = [];
  amf_ue = some u;
  nas_handler = none;
  ngap_handler = none;
  sbi_handler = none;
  config_handler = none;
  running = true;
  calls = [];
  results = [];
}

-- Moves of the rest of the program, and of the goroutine.
pub data Move : Type 0 where
  submit_message : Message → Move
  send_event : String → Move
  update_nas_handler update_ngap_handler update_sbi_handler update_config_handler : ℕ → Move
  take_message take_event : Move

-- A move is made, has to wait, or calls a nil function or dereferences a nil pointer.
pub data Outcome : Type 0 where
  moved : EventChannel → Outcome
  waits panics : Outcome

-- tx.AmfUe.TxLog, of which the update of a handler logs.
abbrev pub logged : EventChannel → EventChannel → Outcome
logged tx next = elim tx.amf_ue [ none ↦ panics | some u ↦ moved next ]

abbrev pub call : Option ℕ → EventChannel → Message → (EventChannel → Outcome) → Outcome
call none tx m k = panics
call (some h) tx m k =
    k (record tx { calls = tx.calls ++ record { handler = h; ue = tx.amf_ue; message = m } ∷ [] })

module _ (sbi_result : ℕ → Message → ℕ) where
  -- The result of an SBI handler goes to the channel of the message, which has room for it.
  abbrev pub respond : Option ℕ → ℕ → Message → EventChannel → Outcome
  respond none result m tx = panics
  respond (some h) result m tx =
      moved (record tx { results = tx.results ++ (result, sbi_result h m) ∷ [] })

  -- The switch on the type of the message.
  unfoldable pub handle : EventChannel → Message → Outcome
  handle tx (nas_msg a bytes code) = call tx.nas_handler tx (nas_msg a bytes code) moved
  handle tx (ngap_msg p) = call tx.ngap_handler tx (ngap_msg p) moved
  handle tx (sbi_msg id uri msg result) =
      call tx.sbi_handler tx (sbi_msg id uri msg result)
        (respond tx.sbi_handler result (sbi_msg id uri msg result))
  handle tx (config_msg supi sst sd msg) =
      call tx.config_handler tx (config_msg supi sst sd msg) moved
  handle tx (other_msg n) = moved tx

  abbrev pub handle_first : EventChannel → List Message → Outcome
  handle_first tx [] = waits
  handle_first tx (m ∷ rest) = handle (record tx { messages = rest }) m

  abbrev pub take_first : EventChannel → List String → Outcome
  take_first tx [] = waits
  take_first tx (e ∷ rest) =
      if e == "quit"
      then moved (record tx { events = rest; running = false })
      else moved (record tx { events = rest })

  -- SubmitMessage, a send on Event, the four updates, and the two cases of Start's select.
  unfoldable pub step : EventChannel → Move → Outcome
  unfolding handle
  step tx (submit_message m) =
      if ltb (length tx.messages) 10
      then moved (record tx { messages = tx.messages ++ m ∷ [] })
      else waits
  step tx (send_event e) =
      if ltb (length tx.events) 10
      then moved (record tx { events = tx.events ++ e ∷ [] })
      else waits
  step tx (update_nas_handler h) = logged tx (record tx { nas_handler = some h })
  step tx (update_ngap_handler h) = logged tx (record tx { ngap_handler = some h })
  step tx (update_sbi_handler h) = elim tx.amf_ue [
    | none ↦ moved tx
    | some u ↦ moved (record tx { sbi_handler = some h })
  ]
  step tx (update_config_handler h) = logged tx (record tx { config_handler = some h })
  step tx take_message = if tx.running then handle_first tx tx.messages else waits
  step tx take_event = if tx.running then take_first tx tx.events else waits
