-- ===== src/Notification/NotificationState.antt =====
-- The state of notification/state.rs. A reply link is a number; what was pushed to the shell,
-- answered and signalled so far is kept in order.
use Prim.Native.String.{String}
use veshell.Base.{ℕ, Bool, false, List, [], ◌∷◌, ◌++◌, Option, none, some, ◌==◌, if◌then◌else◌}

-- The fields of a notification, which the loop passes on unread: the hints as their JSON text,
-- signed numbers as bit patterns.
pub record Notification : Type 0 where
  pub pid : Option ℕ
  pub app_name : String
  pub replaces_id : ℕ
  pub app_icon : String
  pub summary : String
  pub body : String
  pub actions : List String
  pub hints : String
  pub expire_timeout : ℕ

pub data Payload : Type 0 where
  -- the call token and the notification
  received : ℕ → Notification → Payload
  close : ℕ → Payload

pub record QueuedOutgoing : Type 0 where
  pub method : String
  pub payload : Payload

pub data Signal : Type 0 where
  action_invoked : ℕ → String → Signal
  notification_closed : ℕ → ℕ → Signal
  -- the token and its destination, everyone without one
  activation_token : ℕ → String → Option String → Signal

pub record NotificationState : Type 0 where
  pub runtime : Bool
  pub shell_ready : Bool
  pub pending_notify : List (ℕ × (ℕ × Option String))
  pub notification_senders : List (ℕ × String)
  pub queued_outgoing : List QueuedOutgoing
  pub pushed : List QueuedOutgoing
  pub replies : List (ℕ × ℕ)
  pub signals : List Signal

module _ {A : Type 0} where
  -- A hash map as a list of its entries, one for each key.
  unfoldable pub remove : ℕ → List (ℕ × A) → List (ℕ × A)
  remove key [] = []
  remove key ((k, a) ∷ es) = let rest = remove key es in if k == key then rest else (k, a) ∷ rest

  unfoldable pub get : ℕ → List (ℕ × A) → Option A
  get key [] = none
  get key ((k, a) ∷ es) = let rest = get key es in if k == key then some a else rest

  unfoldable pub insert : ℕ → A → List (ℕ × A) → List (ℕ × A)
  unfolding remove
  insert key a es = (key, a) ∷ remove key es

unfoldable pub new : Bool → NotificationState
new runtime = record {
  runtime = runtime;
  shell_ready = false;
  pending_notify = [];
  notification_senders = [];
  queued_outgoing = [];
  pushed = [];
  replies = [];
  signals = [];
}

abbrev pub insert_sender : ℕ → Option String → List (ℕ × String) → List (ℕ × String)
insert_sender id none senders = senders
insert_sender id (some sender) senders = insert id sender senders

abbrev pub complete_with :
    Option (ℕ × Option String) → NotificationState → ℕ → ℕ → NotificationState
complete_with none s call_token id = s
complete_with (some (reply, sender)) s call_token id = record s {
  pending_notify = remove call_token s.pending_notify;
  notification_senders = insert_sender id sender s.notification_senders;
  replies = s.replies ++ ((reply, id) ∷ []);
}

unfoldable pub complete_notify : NotificationState → ℕ → ℕ → NotificationState
unfolding get remove insert
complete_notify s call_token id = complete_with (get call_token s.pending_notify) s call_token id

abbrev signal : NotificationState → Signal → NotificationState
signal s x = record s { signals = s.signals ++ (if s.runtime then x ∷ [] else []) }

unfoldable pub emit_action_invoked : NotificationState → ℕ → String → NotificationState
emit_action_invoked s id action_key = signal s (action_invoked id action_key)

unfoldable pub emit_notification_closed : NotificationState → ℕ → ℕ → NotificationState
emit_notification_closed s id reason = signal s (notification_closed id reason)

unfoldable pub emit_activation_token : NotificationState → ℕ → String → NotificationState
unfolding get
emit_activation_token s id token =
    signal s (activation_token id token (get id s.notification_senders))

unfoldable pub forget_notification : NotificationState → ℕ → NotificationState
unfolding remove
forget_notification s id = record s { notification_senders = remove id s.notification_senders }
