-- ===== src/Portal/Replies.antt =====
-- That reply links are answered (portal/service.rs).
use Prim.Native.String.{String}
use veshell.Base.{
  ℕ, ◌+◌, ◌≤◌, ◌≡◌, refl, arith, Bool, false, not, List, [], ◌∷◌, Option, none, some, Bool-cases,
  inl, inr,
}
use veshell.Portal.Types.{
  is_some, PortalCall, MethodCall, From, method, frontend_owner_changed, create_session,
  select_sources, start, request_close, screenshot, pick_color, file_chooser, unauthorized,
  caller_is_frontend,
}
use veshell.Portal.Ledger.{PortalLedger, PendingRequest, ConsentRequest, screen, color, get}
use veshell.Portal.Calls.{handle_method, apply_portal_call}
use veshell.Portal.Streams.{
  PortalState, close_sessions_of, close_shared_session, close_source_share_sessions,
  source_share_handles, on_ledger,
}
use veshell.Portal.Closing.{on_frontend_owner_changed}
use veshell.Portal.Balance.{
  is_link, total, weigh, of_request, of_consent, tally, held, answered, balance,
}
use veshell.Portal.Links.{balance-send}
use veshell.Portal.Kept.{
  Takes, on_create_session-Takes, on_select_sources-Takes, open_screenshot_request-Takes,
  open_file_chooser_request-Takes,
}
use veshell.Portal.Starting.{on_start-le, on_start-Takes}
use veshell.Portal.Ending.{on_request_close-Takes}
use veshell.Portal.Frontend.{on_frontend_owner_changed-balance}
use veshell.Portal.Answered.{
  resolve_screenshot_consent-balance, handle_portal_capture_outcome-balance,
  handle_file_chooser_decision-balance,
}
use veshell.Portal.Shared.{NoMore, close_shared_session-NoMore, handle_consent_decision-NoMore}
use veshell.Portal.Producer.{queue_nothing}
use veshell.Portal.Dispatched.{unqueued, handle_portal_call-le, handle_producer_event-NoMore}
use veshell.Portal.Run.{
  Event, portal_call, consent_decision, screenshot_decision, file_chooser_decision, captured,
  producer_event, stop_sharing, source_gone, owner_change, new_portal, stream_handles,
  handle_frontend_owner_change, step, run,
}

abbrev pub has_picker : Option PendingRequest → Bool
has_picker none = false
has_picker (some request) = is_some request.consent

-- A Start whose own request has a picker open would put its link in that picker's place.
abbrev pub replaces_picker : MethodCall → PortalLedger → Bool
replaces_picker (create_session handle session app_id) s = false
replaces_picker (select_sources handle session app_id constraints) s = false
replaces_picker (start handle session app_id parent_window constraints options) s =
    has_picker (get handle s.requests)
replaces_picker (request_close handle) s = false
replaces_picker (screenshot handle app_id parent_window options) s = false
replaces_picker (pick_color handle app_id parent_window options) s = false
replaces_picker (file_chooser kind handle app_id parent_window title options) s = false

module _ (link : ℕ) where
  no_consent : (c : Option ConsentRequest) → is_some c ≡ false → of_consent link c ≡ 0
  no_consent none h = refl
  no_consent (some c) h = cc

  no_picker :
      (found : Option PendingRequest) → has_picker found ≡ false → weigh (of_request link) found ≡ 0
  no_picker none h = refl
  no_picker (some request) h = no_consent request.consent h

  handle_method-Takes :
      (s : PortalLedger) (reply : ℕ) (c : MethodCall)
      → replaces_picker c s ≡ false
      → Takes link reply s (handle_method s reply c)
  unfolding handle_method
  handle_method-Takes s reply (create_session handle session app_id) h =
      on_create_session-Takes link s reply session
  handle_method-Takes s reply (select_sources handle session app_id constraints) h =
      on_select_sources-Takes link s reply handle session constraints
  handle_method-Takes s reply (start handle session app_id parent_window constraints options) h =
      on_start-Takes link s reply handle session app_id constraints options
        (no_picker (get handle s.requests) h)
  handle_method-Takes s reply (request_close handle) h = on_request_close-Takes link s reply handle
  handle_method-Takes s reply (screenshot handle app_id parent_window options) h =
      open_screenshot_request-Takes link s reply handle app_id screen
  handle_method-Takes s reply (pick_color handle app_id parent_window options) h =
      open_screenshot_request-Takes link s reply handle app_id color
  handle_method-Takes s reply (file_chooser kind handle app_id parent_window title options) h =
      open_file_chooser_request-Takes link s reply kind handle app_id parent_window title options

  handle_method-le :
      (s : PortalLedger) (reply : ℕ) (c : MethodCall)
      → balance link (handle_method s reply c) ≤ is_link link reply + balance link s
  unfolding handle_method
  handle_method-le s reply (create_session handle session app_id) =
      omega (arith, on_create_session-Takes link s reply session)
  handle_method-le s reply (select_sources handle session app_id constraints) =
      omega (arith, on_select_sources-Takes link s reply handle session constraints)
  handle_method-le s reply (start handle session app_id parent_window constraints options) =
      on_start-le link s reply handle session app_id constraints options
  handle_method-le s reply (request_close handle) =
      omega (arith, on_request_close-Takes link s reply handle)
  handle_method-le s reply (screenshot handle app_id parent_window options) =
      omega (arith, open_screenshot_request-Takes link s reply handle app_id screen)
  handle_method-le s reply (pick_color handle app_id parent_window options) =
      omega (arith, open_screenshot_request-Takes link s reply handle app_id color)
  handle_method-le s reply (file_chooser kind handle app_id parent_window title options) = omega (
    arith,
    open_file_chooser_request-Takes link s reply kind handle app_id parent_window title options,
  )

  -- A method call is answered once or its reply link is held, and what was answered or held
  -- before still is: counted together, the answers to each link and its places in the ledger
  -- grow by one for the call's own link and stay for every other, unless the call is a Start
  -- whose request has a picker open.
  pub apply_portal_call-balance :
      (s : PortalLedger) (from : From) (c : MethodCall)
      → replaces_picker c s ≡ false
      → balance link (apply_portal_call s (method from c))
        ≡ is_link link from.reply + balance link s
  unfolding apply_portal_call
  apply_portal_call-balance s from c h =
      elim (Bool-cases (not (caller_is_frontend from.caller s.frontend))) [
        | inl e ↦ rw e (balance-send link from.reply unauthorized s)
        | inr e ↦ rw e (handle_method-Takes s from.reply c h)
      ]

  -- How often a call comes with a link.
  abbrev pub issued_by : PortalCall → ℕ
  issued_by (method from c) = is_link link from.reply
  issued_by (frontend_owner_changed next) = 0

  apply_portal_call-le :
      (s : PortalLedger) (c : PortalCall)
      → balance link (apply_portal_call s c) ≤ issued_by c + balance link s
  unfolding apply_portal_call
  apply_portal_call-le s (frontend_owner_changed next) =
      omega (arith, on_frontend_owner_changed-balance link s next)
  apply_portal_call-le s (method from c) =
      elim (Bool-cases (not (caller_is_frontend from.caller s.frontend))) [
        | inl e ↦ rw e omega (arith, balance-send link from.reply unauthorized s)
        | inr e ↦ rw e (handle_method-le s from.reply c)
      ]

  abbrev pub issued : Event → ℕ
  issued (portal_call d c) = issued_by c
  issued (consent_decision d session token outcome source) = 0
  issued (screenshot_decision token outcome) = 0
  issued (file_chooser_decision token outcome uris) = 0
  issued (captured handle token outcome) = 0
  issued (producer_event d event) = 0
  issued (stop_sharing session) = 0
  issued (source_gone source) = 0
  issued (owner_change next) = 0

  -- How often the calls of a run come with a link.
  unfoldable pub issued_in : List Event → ℕ
  issued_in [] = 0
  issued_in (e ∷ es) = issued e + issued_in es

  close_sessions_of-NoMore :
      (handles : List String) (p : PortalState)
      → NoMore link p.ledger (close_sessions_of handles p).ledger
  unfolding close_sessions_of
  close_sessions_of-NoMore [] p = omega arith
  close_sessions_of-NoMore (handle ∷ handles) p = omega (
    arith,
    close_sessions_of-NoMore handles (close_shared_session p handle),
    close_shared_session-NoMore link p handle,
  )

  step-le :
      (p : PortalState) (e : Event)
      → balance link (step p e).ledger ≤ issued e + balance link p.ledger
  unfolding step close_source_share_sessions handle_frontend_owner_change
  step-le p (portal_call d c) = omega (
    arith,
    handle_portal_call-le link d p c,
    apply_portal_call-le (queue_nothing p.ledger) c,
    unqueued link p.ledger,
  )
  step-le p (consent_decision d session token outcome source) =
      omega (arith, handle_consent_decision-NoMore link d p session token outcome source)
  step-le p (screenshot_decision token outcome) =
      omega (arith, resolve_screenshot_consent-balance link p.ledger token outcome)
  step-le p (file_chooser_decision token outcome uris) =
      omega (arith, handle_file_chooser_decision-balance link p.ledger token outcome uris)
  step-le p (captured handle token outcome) =
      omega (arith, handle_portal_capture_outcome-balance link p.ledger handle token outcome)
  step-le p (producer_event d event) = omega (arith, handle_producer_event-NoMore link d p event)
  step-le p (stop_sharing session) = omega (arith, close_shared_session-NoMore link p session)
  step-le p (source_gone source) =
      omega (arith, close_sessions_of-NoMore (source_share_handles p.active_streams source) p)
  step-le p (owner_change next) =
      let bound = on_ledger (λ s. on_frontend_owner_changed s next) p in
      omega (
        arith,
        close_sessions_of-NoMore (stream_handles p.active_streams) bound,
        on_frontend_owner_changed-balance link p.ledger next,
      )

  run-le :
      (p : PortalState) (es : List Event)
      → balance link (run p es).ledger ≤ issued_in es + balance link p.ledger
  unfolding run issued_in
  run-le p [] = omega arith
  run-le p (e ∷ es) = omega (arith, run-le (step p e) es, step-le p e)

  -- In every run of the portal from its start, a reply link that the calls bring at most once
  -- is answered at most once, whatever the calls, the decisions and the producer's events are.
  pub run-answered-le :
      (es : List Event) → issued_in es ≤ 1 → answered link (run new_portal es).ledger ≤ 1
  unfolding balance held total tally answered
  run-answered-le es h = omega (arith, run-le new_portal es, h)
