-- ===== src/Portal/Examples.antt =====
-- Tests of the portal and its theorems at concrete inputs.
use Prim.Native.String.{String}
use veshell.Base.{
  ℕ, ◌+◌, ◌≤◌, ◌<◌, ◌≡◌, refl, arith, true, false, List, [], ◌∷◌, none, some, length,
}
use text.Mathlib.TextPositions.{eq_refl}
use veshell.Portal.Types.{
  PortalCall, From, ScreenCastConstraints, method, create_session, start, screenshot, is_some,
}
use veshell.Portal.Ledger.{
  no_ledger, PortalLedger, CaptureSource, monitor_source, get, insert, export_request,
}
use veshell.Portal.Closing.{on_frontend_owner_changed}
use veshell.Portal.Calls.{apply_portal_call}
use veshell.Portal.Constraints.{parse_screen_cast_constraints, parsed}
use veshell.Portal.Decisions.{approved, cancelled_flow}
use veshell.Portal.Grants.{Grants, mint_restore_token, mint_restore_token-le, restore_grant_limit}
use veshell.Portal.Balance.{answered, balance, held, is_link}
use veshell.Portal.Frontend.{fresh_maps}
use veshell.Portal.Sweeps.{maps}
use veshell.Portal.Loss.{apply_all, brought, frontend_loss-refuses}
use veshell.Portal.Live.{live}
use veshell.Portal.LiveDispatch.{handle_portal_call-live}
use veshell.Portal.Streams.{Desktop, PortalState, ActiveStream}
use veshell.Portal.Producer.{handle_portal_call, node_ready, stream_reply}
use veshell.Portal.Run.{
  Event, portal_call, consent_decision, screenshot_decision, producer_event, owner_change,
  new_portal, run,
}
use veshell.Portal.Replies.{issued_in, run-answered-le, apply_portal_call-balance}
use veshell.Portal.Restored.{granted, parse-stream_reply}

abbrev session_path : String
session_path = "/org/freedesktop/portal/desktop/session/1_7/a"

abbrev request_path : String
request_path = "/org/freedesktop/portal/desktop/request/1_7/b"

abbrev from_frontend : ℕ → From
from_frontend reply = record { caller = some ":1.7"; reply = reply }

abbrev both_kinds : ScreenCastConstraints
both_kinds = record {
  types = 3;
  cursor_mode = 1;
  multiple = false;
  persist_mode = 1;
  restore_token = none;
}

abbrev bound : PortalLedger
bound = record no_ledger { frontend = some ":1.7" }

abbrev creating : PortalCall
creating = method (from_frontend 10) (create_session "c" session_path "app")

abbrev starting_call : PortalCall
starting_call = method (from_frontend 11) (start request_path session_path "app" "" both_kinds [])

abbrev screen_1 : CaptureSource
screen_1 = record { id = "DP-1"; label = "DP-1"; kind = monitor_source }

abbrev first_key : Grants → String
first_key [] = ""
first_key ((key, grant) ∷ grants) = key

abbrev desktop : Desktop
desktop = record {
  outputs = screen_1 ∷ [];
  windows = [];
  target_of = λ source. some ((0, 0), (1920, 1080));
  producer = true;
  encodes = true;
  uuid = "token";
  next_key = first_key;
}

-- A whole flow: session, picker, approval, and the node that answers the Start.
abbrev flow : List Event
flow =
    owner_change (some ":1.7")
    ∷ portal_call desktop creating
    ∷ portal_call desktop starting_call
    ∷ consent_decision desktop session_path 1 approved (some "DP-1")
    ∷ producer_event desktop (node_ready session_path 42)
    ∷ []

flow-answers : answered 11 (run new_portal flow).ledger ≡ 1
unfolding answered run is_link
flow-answers = refl

flow-live : live (run new_portal flow).ledger ≡ 1
unfolding live run
flow-live = refl

flow-token : is_some (get "token" (run new_portal flow).ledger.restores) ≡ true
unfolding get run
flow-token = refl

-- The picker is open, and its source is gone when the user approves it.
abbrev vanished : List Event
vanished =
    owner_change (some ":1.7")
    ∷ portal_call desktop creating
    ∷ portal_call desktop starting_call
    ∷ consent_decision desktop session_path 1 approved (some "DP-2")
    ∷ []

-- The Start is never answered.
vanished-unanswered :
    (answered 11 (run new_portal vanished).ledger ≡ 0)
    × (held 11 (run new_portal vanished).ledger ≡ 0)
unfolding answered held run is_link
vanished-unanswered = (refl, refl)

-- A screenshot prompt that the user denies leaves its request object exported.
abbrev denied : PortalState
denied = run new_portal (
    owner_change (some ":1.7")
    ∷ portal_call desktop (method (from_frontend 12) (screenshot request_path "app" "" []))
    ∷ screenshot_decision 1 cancelled_flow
    ∷ [])

denied-exported : denied.ledger.actions ≡ export_request request_path ∷ []
unfolding run
denied-exported = refl

-- A Start that takes a request whose picker is open loses the first Start's link.
abbrev second_session : String
second_session = "/org/freedesktop/portal/desktop/session/1_7/z"

abbrev taken_over : PortalState
taken_over = run new_portal (
    owner_change (some ":1.7")
    ∷ portal_call desktop creating
    ∷ portal_call desktop (method (from_frontend 13) (create_session "d" second_session "app"))
    ∷ portal_call desktop starting_call
    ∷ portal_call desktop
        (method (from_frontend 14) (start request_path second_session "app" "" both_kinds []))
    ∷ [])

taken_over-lost : (answered 11 taken_over.ledger ≡ 0) × (held 11 taken_over.ledger ≡ 0)
unfolding answered held run is_link
taken_over-lost = (refl, refl)

run-answered-le_example : answered 11 (run new_portal flow).ledger ≤ 1
unfolding issued_in is_link
run-answered-le_example = run-answered-le 11 flow (omega arith)

abbrev configured_ledger : PortalLedger
configured_ledger = apply_portal_call bound creating

apply_portal_call-balance_example :
    balance 11 (apply_portal_call configured_ledger starting_call)
    ≡ is_link 11 11 + balance 11 configured_ledger
unfolding apply_portal_call
apply_portal_call-balance_example =
    apply_portal_call-balance 11 configured_ledger (from_frontend 11)
      (start request_path session_path "app" "" both_kinds []) refl

frontend_loss-refuses_example :
    (maps (
        apply_all
          (on_frontend_owner_changed configured_ledger none)
          ((from_frontend 15, create_session "e" session_path "app") ∷ []))
      ≡ fresh_maps 0 none)
    × (answered 15 (
          apply_all
            (on_frontend_owner_changed configured_ledger none)
            ((from_frontend 15, create_session "e" session_path "app") ∷ []))
        ≡ brought 15 ((from_frontend 15, create_session "e" session_path "app") ∷ [])
          + balance 15 configured_ledger)
frontend_loss-refuses_example =
    frontend_loss-refuses 15 configured_ledger
      ((from_frontend 15, create_session "e" session_path "app") ∷ [])

abbrev configured_portal : PortalState
configured_portal = record new_portal { ledger = configured_ledger }

-- The picker that a first Start opens preselects nothing.
handle_portal_call-live_example :
    live (handle_portal_call desktop configured_portal starting_call).ledger
    ≤ live configured_ledger
unfolding apply_portal_call insert
handle_portal_call-live_example =
    handle_portal_call-live desktop configured_portal starting_call refl

-- A Start with the token of the first flow shares at once.
abbrev restoring : PortalCall
restoring = method (from_frontend 17) (
    start "/org/freedesktop/portal/desktop/request/1_7/r" second_session "app" ""
      (record both_kinds { restore_token = some "token" }) [])

abbrev second_flow : List Event
second_flow =
    portal_call desktop (method (from_frontend 16) (create_session "d" second_session "app"))
    ∷ portal_call desktop restoring
    ∷ []

restoring-live : live (run (run new_portal flow) second_flow).ledger ≡ 2
unfolding live run
restoring-live = refl

first_key-present :
    (grants : Grants) → 0 < length grants → is_some (get (first_key grants) grants) ≡ true
unfolding get
first_key-present [] h = absurd (omega arith)
first_key-present ((key, grant) ∷ grants) h = rw (eq_refl key) refl

mint_restore_token-le_example :
    length (mint_restore_token first_key bound "token" ":1.7" screen_1).restores
    ≤ restore_grant_limit
mint_restore_token-le_example =
    mint_restore_token-le first_key first_key-present bound "token" ":1.7" screen_1

abbrev stream_1 : ActiveStream
stream_1 = record {
  node_id = 42;
  source_id = "DP-1";
  source_kind = monitor_source;
  cursor_mode = 1;
  position = (0, 0);
  size = (1920, 1080);
  label = "DP-1";
  app_id = "app";
  consumer_pid = none;
  consumer_app_id = none;
  active = false;
  restore_token = some "token";
}

parse-stream_reply_example :
    parse_screen_cast_constraints (stream_reply 42 stream_1).results 3 ≡ parsed (granted "token")
parse-stream_reply_example = parse-stream_reply 42 3 stream_1 "token" refl
