-- ===== src/Notification/Service.antt =====
-- The calls of notification/service.rs, one after another.
use Prim.Native.String.{String}
use veshell.Base.{ℕ, true, List, [], ◌∷◌, ◌++◌, Option, if◌then◌else◌}
use veshell.Notification.NotificationState.{
  Notification, received, close, QueuedOutgoing, NotificationState, insert, complete_notify,
  emit_action_invoked, emit_notification_closed, emit_activation_token, forget_notification,
}

pub data NotificationCall : Type 0 where
  -- the call token, the reply link, the sender and the notification
  notify : ℕ → ℕ → Option String → Notification → NotificationCall
  close_notification : ℕ → NotificationCall

unfoldable pub deliver : NotificationState → QueuedOutgoing → NotificationState
deliver s outgoing = record s {
  pushed = s.pushed ++ (if s.shell_ready then outgoing ∷ [] else []);
  queued_outgoing = s.queued_outgoing ++ (if s.shell_ready then [] else outgoing ∷ []);
}

abbrev pub outgoing_of : NotificationCall → QueuedOutgoing
outgoing_of (notify call_token reply sender notification) = record {
  method = "notification_received";
  payload = received call_token notification;
}
outgoing_of (close_notification id) = record {
  method = "notification_close_requested";
  payload = close id;
}

unfoldable pub handle_notification_call : NotificationState → NotificationCall → NotificationState
unfolding deliver insert
handle_notification_call s (notify call_token reply sender notification) =
    deliver (record s { pending_notify = insert call_token (reply, sender) s.pending_notify })
      (outgoing_of (notify call_token reply sender notification))
handle_notification_call s (close_notification id) = deliver s (outgoing_of (close_notification id))

unfoldable pub mark_shell_ready : NotificationState → NotificationState
mark_shell_ready s = record s {
  shell_ready = true;
  queued_outgoing = [];
  pushed = s.pushed ++ s.queued_outgoing;
}

-- What happens to the notifications: a call, the shell's readiness, and the shell's messages.
pub data Event : Type 0 where
  call : NotificationCall → Event
  ready : Event
  result : ℕ → ℕ → Event
  action : ℕ → String → Event
  closed : ℕ → ℕ → Event
  activation : ℕ → String → Event

unfoldable pub step : NotificationState → Event → NotificationState
unfolding handle_notification_call mark_shell_ready complete_notify emit_action_invoked
    emit_notification_closed emit_activation_token forget_notification
step s (call c) = handle_notification_call s c
step s ready = mark_shell_ready s
step s (result call_token id) = complete_notify s call_token id
step s (action id action_key) = emit_action_invoked s id action_key
step s (closed id reason) = forget_notification (emit_notification_closed s id reason) id
step s (activation id token) = emit_activation_token s id token

unfoldable pub run : NotificationState → List Event → NotificationState
unfolding step
run s [] = s
run s (e ∷ es) = run (step s e) es
