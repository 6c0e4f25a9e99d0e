-- ===== src/Notification/Replies.antt =====
-- The answers to forwarded calls, and their senders (notification/state.rs).
use Prim.Native.String.{String}
use veshell.Base.{
  ℕ, ◌≡◌, refl, List, [], ◌∷◌, ◌++◌, Option, none, some, ◌==◌, ==_iff, Bool-cases, inl, inr,
}
use veshell.Notification.NotificationState.{
  Notification, NotificationState, get, remove, insert, complete_notify, complete_with,
}
use veshell.Notification.Service.{notify, deliver, handle_notification_call, call, result, step}

module _ {A : Type 0} where
  get-remove : (key : ℕ) (es : List (ℕ × A)) → get key (remove key es) ≡ none
  unfolding get remove
  get-remove key [] = refl
  get-remove key ((k, a) ∷ es) =
      let rest = get-remove key es in
      elim (Bool-cases (k == key)) [ inl e ↦ rw e rest | inr e ↦ rw (e, e) rest ]

  get-insert : (key : ℕ) (a : A) (es : List (ℕ × A)) → get key (insert key a es) ≡ some a
  unfolding get insert
  get-insert key a es = rw ((==_iff key key).1 refl) refl

complete_twice :
    (found : Option (ℕ × Option String)) (s : NotificationState) (call_token id other : ℕ)
    → get call_token s.pending_notify ≡ found
    → complete_notify (complete_with found s call_token id) call_token other
      ≡ complete_with found s call_token id
unfolding complete_notify
complete_twice none s call_token id other h = rw h refl
complete_twice (some (reply, sender)) s call_token id other h =
    rw (get-remove call_token s.pending_notify) refl

-- A second answer for a call token changes nothing, whatever id it carries: each `Notify` call
-- is answered at most once.
pub complete_notify-once :
    (s : NotificationState) (call_token id other : ℕ)
    → complete_notify (complete_notify s call_token id) call_token other
      ≡ complete_notify s call_token id
unfolding complete_notify
complete_notify-once s call_token id other =
    complete_twice (get call_token s.pending_notify) s call_token id other refl

-- A call of a sender, and the shell's answer to it.
abbrev pub answered : NotificationState → ℕ → ℕ → ℕ → String → Notification → NotificationState
answered s call_token reply id sender notification =
    step (step s (call (notify call_token reply (some sender) notification))) (result call_token id)

-- After a `Notify` call of a sender, the shell's answer sends the id as the last reply to that
-- very call, remembers the sender for the id, and leaves no reply waiting under its token.
pub result-notify :
    (s : NotificationState) (call_token reply id : ℕ) (sender : String)
    (notification : Notification)
    → ((answered s call_token reply id sender notification).replies
        ≡ s.replies ++ ((reply, id) ∷ []))
      × (get id (answered s call_token reply id sender notification).notification_senders
          ≡ some sender)
      × (get call_token (answered s call_token reply id sender notification).pending_notify ≡ none)
unfolding step handle_notification_call complete_notify deliver
result-notify s call_token reply id sender notification =
    rw (get-insert call_token (reply, some sender) s.pending_notify) (
      refl,
      get-insert id sender s.notification_senders,
      get-remove call_token (insert call_token (reply, some sender) s.pending_notify),
    )
