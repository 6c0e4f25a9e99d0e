-- ===== src/Notification/Examples.antt =====
-- A call before the shell is ready, its answer, and a call after.
use veshell.Base.{◌≡◌, ◌⊎◌, refl, true, false, List, [], ◌∷◌, ◌++◌, none, some}
use veshell.Notification.NotificationState.{
  Notification, NotificationState, new, get, complete_notify,
}
use veshell.Notification.Service.{notify, close_notification, Event, call, ready, result, step, run}
use veshell.Notification.Order.{outgoing, accepted, run-outgoing}
use veshell.Notification.Replies.{answered, complete_notify-once, result-notify}

abbrev mail : Notification
mail = record {
  pid = some 42;
  app_name = "mail";
  replaces_id = 0;
  app_icon = "";
  summary = "New mail";
  body = "";
  actions = [];
  hints = "{}";
  expire_timeout = 5000;
}

abbrev early_and_late : List Event
early_and_late =
    call (notify 1 100 (some ":1.7") mail) ∷ ready ∷ result 1 9 ∷ call (close_notification 9) ∷ []

run-outgoing_example :
    (outgoing (run (new true) early_and_late) ≡ outgoing (new true) ++ accepted early_and_late)
    × (((run (new true) early_and_late).shell_ready ≡ false)
        ⊎ ((run (new true) early_and_late).queued_outgoing ≡ []))
unfolding new
run-outgoing_example = run-outgoing (new true) early_and_late (λ _. refl)

abbrev asked : NotificationState
asked = step (new true) (call (notify 1 100 (some ":1.7") mail))

asked-once : complete_notify (complete_notify asked 1 9) 1 10 ≡ complete_notify asked 1 9
asked-once = complete_notify-once asked 1 9 10

result-notify_example :
    ((answered (new true) 1 100 9 ":1.7" mail).replies ≡ (new true).replies ++ ((100, 9) ∷ []))
    × (get 9 (answered (new true) 1 100 9 ":1.7" mail).notification_senders ≡ some ":1.7")
    × (get 1 (answered (new true) 1 100 9 ":1.7" mail).pending_notify ≡ none)
result-notify_example = result-notify (new true) 1 100 9 ":1.7" mail
