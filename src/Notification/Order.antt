-- ===== src/Notification/Order.antt =====
-- The messages to the shell and their order (notification/service.rs).
use Prim.Native.String.{String}
use veshell.Base.{
  ℕ, ◌≡◌, ◌⊎◌, refl, sym, ap, ap₂, ◌∙◌, true, false, List, [], ◌∷◌, ◌++◌, Option, none, some,
  append-nil, append_assoc, Bool-cases, inl, inr,
}
use veshell.Notification.NotificationState.{
  QueuedOutgoing, NotificationState, get, complete_notify, complete_with, emit_action_invoked,
  emit_notification_closed, emit_activation_token, forget_notification, insert,
}
use veshell.Notification.Service.{
  NotificationCall, notify, close_notification, outgoing_of, deliver, handle_notification_call,
  mark_shell_ready, Event, call, ready, result, action, closed, activation, step, run,
}

-- What the shell got and will get.
abbrev pub outgoing : NotificationState → List QueuedOutgoing
outgoing s = s.pushed ++ s.queued_outgoing

-- The messages of the calls among some events.
abbrev pub accepted : List Event → List QueuedOutgoing
accepted [] = []
accepted (call c ∷ es) = outgoing_of c ∷ accepted es
accepted (ready ∷ es) = accepted es
accepted (result call_token id ∷ es) = accepted es
accepted (action id action_key ∷ es) = accepted es
accepted (closed id reason ∷ es) = accepted es
accepted (activation id token ∷ es) = accepted es

-- Once the shell is ready nothing is queued.
abbrev pub NothingWaits : NotificationState → Type 0
NothingWaits s = s.shell_ready ≡ true → s.queued_outgoing ≡ []

-- The accepted messages grow by some at the end.
abbrev Grows : NotificationState → NotificationState → List QueuedOutgoing → Type 0
Grows s t ms = NothingWaits t × (outgoing t ≡ outgoing s ++ ms)

deliver-Grows :
    (s : NotificationState) (m : QueuedOutgoing) → NothingWaits s → Grows s (deliver s m) (m ∷ [])
unfolding deliver
deliver-Grows s m v = elim (Bool-cases s.shell_ready) [
  | inl e ↦
      rw (e, v e) (λ _. refl, append-nil _ ∙ sym (ap (λ xs. xs ++ (m ∷ [])) (append-nil s.pushed)))
  | inr e ↦
      rw e
        (λ h. cc, ap₂ (λ u w. u ++ w) (append-nil s.pushed) refl ∙ sym (append_assoc s.pushed _ _))
]

call-Grows :
    (s : NotificationState) (c : NotificationCall)
    → NothingWaits s
    → Grows s (handle_notification_call s c) (outgoing_of c ∷ [])
unfolding handle_notification_call
call-Grows s (notify call_token reply sender notification) v =
    deliver-Grows (record s { pending_notify = insert call_token (reply, sender) s.pending_notify })
      _ v
call-Grows s (close_notification id) v = deliver-Grows s _ v

complete-Grows :
    (found : Option (ℕ × Option String)) (s : NotificationState) (call_token id : ℕ)
    → NothingWaits s
    → Grows s (complete_with found s call_token id) []
complete-Grows none s call_token id v = (v, sym (append-nil (outgoing s)))
complete-Grows (some (reply, sender)) s call_token id v = (v, sym (append-nil (outgoing s)))

step-Grows :
    (s : NotificationState) (e : Event) → NothingWaits s → Grows s (step s e) (accepted (e ∷ []))
unfolding step mark_shell_ready complete_notify emit_action_invoked emit_notification_closed
    emit_activation_token forget_notification
step-Grows s (call c) v = call-Grows s c v
step-Grows s ready v = (λ _. refl, refl)
step-Grows s (result call_token id) v =
    complete-Grows (get call_token s.pending_notify) s call_token id v
step-Grows s (action id action_key) v = (v, sym (append-nil (outgoing s)))
step-Grows s (closed id reason) v = (v, sym (append-nil (outgoing s)))
step-Grows s (activation id token) v = (v, sym (append-nil (outgoing s)))

accepted-cons : (e : Event) (es : List Event) → accepted (e ∷ []) ++ accepted es ≡ accepted (e ∷ es)
accepted-cons (call c) es = refl
accepted-cons ready es = refl
accepted-cons (result call_token id) es = refl
accepted-cons (action id action_key) es = refl
accepted-cons (closed id reason) es = refl
accepted-cons (activation id token) es = refl

-- However calls, readiness and the shell's messages come one after another, from a state in which
-- a ready shell has nothing queued: what was pushed to the shell followed by what is queued for
-- it grows by exactly the messages of the calls, in their order, none lost, doubled or swapped;
-- and a ready shell again has nothing queued.
pub run-outgoing :
    (s : NotificationState) (es : List Event)
    → (s.shell_ready ≡ true → s.queued_outgoing ≡ [])
    → (outgoing (run s es) ≡ outgoing s ++ accepted es)
      × (((run s es).shell_ready ≡ false) ⊎ ((run s es).queued_outgoing ≡ []))
unfolding run
run-outgoing s [] v = (sym (append-nil (outgoing s)), waits)
  where
    waits : (s.shell_ready ≡ false) ⊎ (s.queued_outgoing ≡ [])
    waits = elim (Bool-cases s.shell_ready) [ inl e ↦ inr (v e) | inr e ↦ inl e ]
run-outgoing s (e ∷ es) v =
    let (w, p) = step-Grows s e v in
    let (q, r) = run-outgoing (step s e) es w in
    (
      q
          ∙ ap (λ ms. ms ++ accepted es) p
          ∙ append_assoc (outgoing s) _ _
          ∙ ap (λ ms. outgoing s ++ ms) (accepted-cons e es),
      r,
    )
