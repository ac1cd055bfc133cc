-- ===== src/Lib.antt =====
-- The AMF (access and mobility management function) of a 5G core, written in Go: a model of its UE
-- and RAN contexts, its NAS security and its GMM state machine, with the theorems that make them
-- correct.
--
-- The AMF holds an AmfUe for each UE (context/amf_ue.go), an AmfRan for each base station
-- (context/amf_ran.go) and a RanUe for each signalling connection of a UE over a station
-- (context/ran_ue.go); pools of the AMF context (context/context.go) lead to them by identifier. NAS
-- messages of a UE come in by nas/handler.go and pass nas/nas_security/security.go, which protects
-- them under the security context of the AmfUe; then they reach the state machine of the UE (gmm).
-- Timers (context/timer.go) send unanswered messages again.
--
-- - Base: names of the libraries, Boolean tests, lists, equality, Go's maps and signed integers.
-- - Types: the data that several parts share.
-- - Timer: context/timer.go. NewTimer is new_timer and the goroutine is move and run; Stop is stop.
--   Timer.Retry is about the calls that a timer makes, Timer.Stopping about Stop.
-- - Ue: the record AmfUe. Ue.Algorithms is SelectSecurityAlg and SecurityContextIsValid;
--   Ue.Slices has the tests on slices and tracking areas of context/amf_ue.go, common_function.go
--   and context.go.
-- - Nas: nas/nas_security/security.go. Nas.Message has the messages and the functions of nas-cdac
--   that the file calls; Nas.Encode is Encode, Nas.Decode is Decode, their children the theorems.
--   Nas.Identity is StmsiToGuti and FetchUeContextWithMobileIdentity. Nas.Handler is nas/handler.go
--   and nas/dispatch.go: HandleNAS, DispatchMsg and Dispatch.
-- - Context: Context.State is the heap and the AMF context, Context.Ids the identifiers of UEs,
--   Context.Ran the operations on stations and RanUes (NewRanUe, Remove, SwitchToRan, AttachRanUe,
--   RemoveAllUeInRan), Context.Handover the links of source and target RanUes, Context.Registration
--   what a registration leaves in a UE, Context.Guti the TMSIs and GUTIs, Context.Ues the pool of UEs
--   with NewAmfUe, the lookups and AmfUe.Remove, Context.Stations the pool of stations with
--   AmfRan.Remove.
-- - Channel: context/transaction.go. A move of the goroutine Start, or of those that use its channels,
--   is step; Channel.Order and Channel.History are about the order of messages.
-- - Subscription: the subscriptions of context/context.go; Subscription.Status has the requests of
--   producer/subscription.go, Subscription.Promise the store that they stand for.
-- - Gmm: gmm/init.go and gmm/sm.go. Gmm.Transitions is the table of transitions, Gmm.Callbacks the
--   callbacks: DeRegistered, Authentication and SecurityMode in its child Early, Registered,
--   ContextSetup and DeregisteredInitiated in Late. Gmm.Proc is the tree that a callback is.
--   Gmm.Senders has the senders of gmm/message/send.go, Gmm.Handlers the handlers of gmm/handler.go by
--   topic, with what they share; Gmm.Questions lists what both ask of other parts.
-- - Ngap: ngap/dispatcher.go and ngap/handler.go, with the senders of ngap/message/send.go that
--   change a context. Ngap.Dispatching is Dispatch, DispatchLb and DispatchNgapMsg,
--   Ngap.Closing the SCTP notifications; Ngap.Fetching is FetchRanUeContext; Ngap.Reading is the loop over the IEs that each handler has, Ngap.Finding the
--   lookups, UpdateLocation and the senders. Ngap.Releasing is HandleUEContextReleaseRequest,
--   Ngap.Completing HandleUEContextReleaseComplete; Ngap.Resetting is HandleNGReset with the uplink
--   NAS messages, Ngap.Calling their call of HandleNAS, Ngap.Handing and Ngap.Admitting the messages of a N2 handover. The other modules
--   of Ngap are about what these keep and leave.
--
-- How the code is read. A pointer to a context is an address of a heap in the record World, so two
-- pointers to one object stay one object. A returned error and a dereferenced nil pointer are
-- outcomes of their own. The order in which a goroutine of a timer sees ticks and Stop is a list of
-- moves; the goroutine of AttachRanUe is an operation that may come at any later time. A range loop
-- over a slice that its body changes reads the array of the slice as Go leaves it. Every loop
-- is a recursion on the list, or on the number of rounds that Go fixes at the start of the loop;
-- only strconv.Itoa runs on fuel, ten digits, which are enough for an int32: the text is read back
-- as the number (Base.Decimal).
--
-- Parameters. The functions of nas-cdac (coding, MAC, ciphering, NAS COUNT) are the record
-- Nas.Message.Library, with the layout of TS 24.501 4.4.3.1 as the hypothesis IsNasCount where a
-- theorem needs it; its functions on mobile identities are Nas.Identity.Identities. The identifier
-- generators (idgenerator, drsm) are Context.Ids.Generators, and what context/db.go fetches is
-- Context.Ues.Database.
--
-- A handler of gmm/handler.go is a tree as well: what it asks of other parts of the program, of the
-- AUSF, the SMF or the RAN, is a node with a Question, and the tree goes on with each reply, in
-- whatever world the other part leaves. So a theorem on a handler holds for all of their answers. A
-- handler takes the values of its message decoded, as nas-cdac reads them. SHA-256, the constants of
-- nas-cdac and the numbers of its causes are in Gmm.Handlers.Env and Gmm.Handlers.Registering.Registry,
-- the latter with util.TACConfigToModels; the identifiers of subscriptions are
-- Subscription.StatusIds.
--
-- The state machine itself is util-cdac's fsm package: SendEvent is a node of the tree that a callback
-- is, and a theorem on callbacks holds whatever it answers. The functions of gmm/handler.go and
-- gmm/message that a callback calls are the record Gmm.Proc.Services; the ones of Gmm.Handlers take
-- decoded messages and are stated on their own.
--
-- A handler of ngap/handler.go takes the IEs as ngap-cdac has decoded them, each with a pointer that
-- may be nil, and ends in the world and the list of its effects, or in a nil pointer dereferenced,
-- which is none. Messages that go out, calls to the SMF, the notice of a UE's context and the store
-- in the database are effects; so are the handlers that are not in the model. Ngap.Peers is what comes
-- from elsewhere: the database, the encoder, the answers of the SMF. A handler that calls HandleNAS
-- goes on in the world that Nas.Handler.handle_nas leaves; what the state machine of GMM does with the
-- GmmMessageEvent that Dispatch sends is the field machine of Ngap.Peers. The causes that the SMF is told,
-- the cells and times of a location, and the cells recommended for paging are left out.
--
-- Not modelled: locks, logs and metrics, the database, HTTP clients and servers, the coding of NGAP
-- and NAS messages, key derivation, of the NGAP handlers NG setup, the initial UE message, the
-- responses on sessions and contexts, handover required and path switch, and of the GMM handlers the
-- initial and mobility registration, the service request and the transport of SM messages.
pub mod Base
pub mod Types
pub mod Timer
pub mod Ue
pub mod Nas
pub mod Context
pub mod Channel
pub mod Subscription
pub mod Gmm
pub mod Ngap
