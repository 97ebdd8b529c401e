-- ===== src/Stomp/EndToEnd.antt =====
-- From PublishMessage of stomp-broker/publisher.go to processMessage of stomp-broker/consumer.go, over a
-- broker that hands frames on.
use candi_plugin.Base.{
  ℕ, ◌≡◌, refl, sym, ap, ap₂, subst, ◌∙◌, Bool, List, [], ◌∷◌, ◌++◌, Option, none, some, All,
  bytes_eq, ==_iff, if◌then◌else◌,
}
use candi_plugin.Go.Text.{Bytes, codes}
use candi_plugin.Go.Map.{lookup, insert, lookup-insert, last_value}
use candi_plugin.Go.Outcome.{Outcome, ok, ok-inj}
use candi_plugin.Go.Act.{after-ok}
use candi_plugin.Candi.{
  Event, Error, Attributes, WorkerHandler, ServiceModule, PublisherArgument, module_handlers,
  message_or_data, send_stomp, root, start_trace, set_header, set_key, write, is_locked,
}
use candi_plugin.Candi.Events.{positions, inputs, if_due}
use candi_plugin.Stomp.Broker.{Broker, Options, publish_message, stomp_event_id}
use candi_plugin.Stomp.Worker.{
  WorkerEngine, Client, Locker, Message, copy_header, process_message, or_no_handler, get_lock_key,
  mount_handler, mount_handlers, empty_worker, apply_options, new_stomp_worker,
}
use candi_plugin.Stomp.Worker.Inputs.{process_message-inputs, process_message-handles}
use candi_plugin.Candi.Handlers.{constant, calls}
use candi_plugin.Stomp.Worker.Delivery.{Settled, is_held, has_id, process_message-Settled}
use candi_plugin.Stomp.Worker.Mounting.{mount_handler-ok, new_stomp_worker-Mounts}

-- A frame that the connection was given.
pub record Frame : Type 0 where
  pub destination : Bytes
  pub content_type : Bytes
  pub body : Bytes
  pub header : Attributes

abbrev pub frames : List Event → List Frame
frames [] = []
frames (send_stomp destination content_type body header ∷ log) =
    record { destination = destination; content_type = content_type; body = body; header = header }
    ∷ frames log
frames (e ∷ log) = frames log

copy_header-last :
    (header m : Attributes) (key : Bytes)
    → lookup key (copy_header header m) ≡ last_value key header (lookup key m)
unfolding copy_header
copy_header-last [] m key = refl
copy_header-last (entry ∷ entries) m key =
    copy_header-last entries (insert entry.0 entry.1 m) key
    ∙ ap (last_value key entries) (lookup-insert entry.0 key entry.1 m)

copy_header-nil :
    (header : Attributes) (key : Bytes)
    → lookup key (copy_header header []) ≡ last_value key header none
unfolding lookup
copy_header-nil header key = copy_header-last header [] key

found_inserted : (key value : Bytes) → lookup key (insert key value []) ≡ some value
unfolding lookup
found_inserted key value =
    lookup-insert key key value []
    ∙ ap (λ (b : Bool). if b then some value else none) ((==_iff key key).1 refl)

-- A message as the broker delivers it for a frame: to the same destination, with the same content type
-- and body, and with the frame's header entries among its own; Header.Get answers what the frame has.
pub record IsDelivered (f : Frame) (msg : Message) : Type 0 where
  pub destination_same : msg.destination ≡ f.destination
  pub content_type_same : msg.content_type ≡ f.content_type
  pub body_same : msg.body ≡ f.body
  pub entries_kept :
      (key value : Bytes)
      → lookup key f.header ≡ some value
      → last_value key msg.header none ≡ some value
  pub event_id_kept :
      (value : Bytes) → lookup stomp_event_id f.header ≡ some value → msg.event_id ≡ value

mount_handlers-err :
    (client : Client) (hs : List WorkerHandler) (w w' : WorkerEngine) (log : List Event)
    → (mount_handlers client hs w log).0 ≡ ok w'
    → w'.err ≡ w.err
unfolding mount_handlers
mount_handlers-err client [] w w' log e = ap (λ x. x.err) (sym (ok-inj e))
mount_handlers-err client (h ∷ hs) w w' log e =
    let m = mount_handler client h w log in
    let (w1, first, rest) = after-ok m (mount_handlers client hs) e in
    mount_handlers-err client hs w1 w' m.1 rest
    ∙ ap (λ x. x.err) (sym (mount_handler-ok client h w w1 log first).1)

All-at :
    (P : WorkerHandler → Type 0) (before : List WorkerHandler) (h : WorkerHandler)
    (behind : List WorkerHandler)
    → All P (before ++ h ∷ behind)
    → P h
All-at P [] h behind a = a.0
All-at P (x ∷ before) h behind a = All-at P before h behind a.1

-- How a message of an event identifier is settled that comes to a handler, if there is one.
abbrev SettledFor :
    Option WorkerHandler → Bytes → WorkerEngine → Outcome (Unit {0}) × List Event → Type 0
SettledFor found id w r =
    let held = is_held w (get_lock_key w id) id [] in
    Settled (if held then 0 else if_due (or_no_handler found).auto_ack) (if held then 0 else 1)
      (if held then 0 else if_due (has_id id)) [] r

frame-inj : {f g : Frame} → f ∷ [] ≡ g ∷ [] → f ≡ g
frame-inj e = cc

-- A frame of PublishMessage whose message comes to a worker that NewSTOMPWorker has returned, where
-- injecting the trace leaves the event identifier alone, and where the functions of the service's handler
-- for the frame's destination each end the same way whatever was done before. The worker finds that
-- handler. If the lock of the event identifier is free, its functions are called in order, up to the
-- first that panics, and there is an event context with the body that was published, the event identifier as key, and a header with all
-- that the publisher has put into the frame's, from which the trace is started too; the message is
-- acknowledged if and only if the handler has AutoACK, one trace ends, and the lock is given back. If
-- another worker holds the lock, none of this happens.
pub frame-received :
    (content_type : Option Bytes) (c : ℕ) (id : Bytes) (inject : Attributes → Attributes)
    (answer : List Event → Option Error) (args : PublisherArgument) (name : Bytes)
    (modules : List ServiceModule) (bk : Broker) (client : Client)
    (opts : List (Options Locker → Options Locker)) (default : Options Locker) (w : WorkerEngine)
    (before behind : List WorkerHandler) (h : WorkerHandler) (f : Frame) (msg : Message)
    (os : List (Outcome (Option Error)))
    → (new_stomp_worker name modules (some bk) client opts default []).0 ≡ ok w
    → module_handlers modules ≡ before ++ h ∷ behind
    → h.pattern ≡ args.topic
    → ((m : Attributes) → lookup stomp_event_id (inject m) ≡ lookup stomp_event_id m)
    → frames (publish_message content_type (c ∷ id) inject answer args []).1 ≡ f ∷ []
    → IsDelivered f msg
    → h.handler_funcs ≡ constant os
    → let r = process_message w msg [] in
      let held = w.opt.locker (is_locked (get_lock_key w (c ∷ id)) ∷ []) in
      let header = copy_header msg.header [] in
      (lookup msg.destination w.handlers ≡ some h)
      × (positions r.1 ≡ (if held then [] else calls 0 os []))
      × (inputs r.1 ≡ (
          if held
          then []
          else write (message_or_data args)
            ∷ set_key (c ∷ id)
            ∷ set_header header
            ∷ start_trace root (codes "STOMPWorker") header
            ∷ []))
      × ((key value : Bytes)
          → lookup key (inject (insert stomp_event_id (c ∷ id) [])) ≡ some value
          → lookup key header ≡ some value)
      × Settled
          (if held then 0 else if_due h.auto_ack)
          (if held then 0 else 1)
          (if held then 0 else 1)
          []
          r
unfolding publish_message new_stomp_worker empty_worker or_no_handler
frame-received content_type c id inject answer args name modules bk client opts default w before
      behind h f msg os made listed named keeps sent d ends =
    let runs : w.err ≡ none =
      mount_handlers-err client (module_handlers modules)
        (empty_worker name bk (apply_options opts default)) w [] made in
    let mounts = new_stomp_worker-Mounts name modules bk client opts default [] w made in
    let found : lookup h.pattern w.handlers ≡ some h =
      All-at (λ x. lookup x.pattern w.handlers ≡ some x) before h behind
        (subst (All (λ x. lookup x.pattern w.handlers ≡ some x)) listed mounts.found) in
    let header = inject (insert stomp_event_id (c ∷ id) []) in
    let is = frame-inj sent in
    let there : msg.destination ≡ h.pattern =
      d.destination_same ∙ ap (λ (x : Frame). x.destination) (sym is) ∙ sym named in
    let chosen : lookup msg.destination w.handlers ≡ some h =
      ap (λ t. lookup t w.handlers) there ∙ found in
    let body : msg.body ≡ message_or_data args =
      d.body_same ∙ ap (λ (x : Frame). x.body) (sym is) in
    let carries : f.header ≡ header = ap (λ (x : Frame). x.header) (sym is) in
    let identified : lookup stomp_event_id header ≡ some (c ∷ id) =
      keeps (insert stomp_event_id (c ∷ id) []) ∙ found_inserted stomp_event_id (c ∷ id) in
    let known : msg.event_id ≡ c ∷ id =
      d.event_id_kept (c ∷ id) (ap (lookup stomp_event_id) carries ∙ identified) in
    let hdr = copy_header msg.header [] in
    let held = w.opt.locker (is_locked (get_lock_key w (c ∷ id)) ∷ []) in
    let r = process_message w msg [] in
    (
      chosen,
      process_message-handles w msg c id h os runs known chosen ends,
      process_message-inputs w msg c id runs known
          ∙ ap (λ l. if held then [] else l)
              (ap₂
                (λ b k.
                  write b
                  ∷ set_key k
                  ∷ set_header hdr
                  ∷ start_trace root (codes "STOMPWorker") hdr
                  ∷ [])
                body known),
      λ key value e.
          copy_header-nil msg.header key ∙ d.entries_kept key value (ap (lookup key) carries ∙ e),
      subst (λ x. SettledFor x (c ∷ id) w r) chosen
          (subst (λ k. SettledFor (lookup msg.destination w.handlers) k w r) known
            (process_message-Settled w msg [] runs)),
    )
