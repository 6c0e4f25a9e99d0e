-- ===== src/Portal/Sharing.antt =====
-- Approvals and producer events of portal/service.rs, and what a call does beyond the ledger.
use Prim.Native.String.{String}
use veshell.Base.{
  ℕ, Bool, true, false, List, [], ◌∷◌, ◌++◌, Option, none, some, ◌&&◌, ◌==◌, not, if◌then◌else◌,
}
use veshell.Portal.Types.{text_eq, contains_bits, hidden, ScreenCastConstraints}
use veshell.Portal.Ledger.{
  PortalSession, ConsentRequest, PendingRequest, CaptureSource, SourceKind, PortalLedger, get,
  insert,
}
use veshell.Portal.Sessions.{kind_to_types}
use veshell.Portal.Decisions.{
  ConsentOutcome, approved, cancelled_flow, ConsentResolution, applied, dead_end, not_matched,
  is_picker, resolve_consent,
}
use veshell.Portal.Grants.{mint_restore_token}
use veshell.Portal.Streams.{
  ActiveStream, PortalState, Desktop, on_ledger, put_stream, close_shared_session,
}

abbrev pub with_node : ℕ → ActiveStream → ActiveStream
with_node node stream = record stream { node_id = node }

abbrev pub new_stream :
    CaptureSource → ℕ → String → Option String → (ℕ × ℕ) × (ℕ × ℕ) → ActiveStream
new_stream source cursor_mode app_id restore_token (position, size) = record {
  node_id = 0;
  source_id = source.id;
  source_kind = source.kind;
  cursor_mode = cursor_mode;
  position = position;
  size = size;
  label = source.label;
  app_id = app_id;
  consumer_pid = none;
  consumer_app_id = none;
  active = false;
  restore_token = restore_token;
}

abbrev pub begin_at :
    Option ((ℕ × ℕ) × (ℕ × ℕ))
    → Bool
    → PortalState
    → String
    → CaptureSource
    → Option String
    → String
    → ℕ
    → PortalState
begin_at none producer p session source restore_token app_id cursor_mode =
    close_shared_session p session
begin_at (some target) producer p session source restore_token app_id cursor_mode =
    if producer
    then put_stream session (new_stream source cursor_mode app_id restore_token target) p
    else close_shared_session p session

unfoldable pub begin_shared_stream :
    Desktop → PortalState → String → CaptureSource → Option String → String → ℕ → PortalState
unfolding close_shared_session insert
begin_shared_stream d p session source restore_token app_id cursor_mode =
    begin_at (d.target_of source) d.producer p session source restore_token app_id cursor_mode

abbrev pub types_of : Option PortalSession → Option ℕ
types_of none = none
types_of (some session) = of_constraints session.constraints
  where
    of_constraints : Option ScreenCastConstraints → Option ℕ
    of_constraints none = none
    of_constraints (some constraints) = some constraints.types

abbrev pub cursor_of : Option PortalSession → ℕ
cursor_of none = hidden
cursor_of (some session) = of_constraints session.constraints
  where
    of_constraints : Option ScreenCastConstraints → ℕ
    of_constraints none = hidden
    of_constraints (some constraints) = constraints.cursor_mode

abbrev pub wants_grant : Option PortalSession → Bool
wants_grant none = false
wants_grant (some session) = of_constraints session.constraints
  where
    of_constraints : Option ScreenCastConstraints → Bool
    of_constraints none = false
    of_constraints (some constraints) = not (constraints.persist_mode == 0)

abbrev pub allows : Option ℕ → SourceKind → Bool
allows none kind = false
allows (some types) kind = contains_bits types (kind_to_types kind)

-- The chosen source among the live ones, of a kind that the session asked for.
unfoldable pub find_source : Option ℕ → String → List CaptureSource → Option CaptureSource
unfolding kind_to_types
find_source types id [] = none
find_source types id (source ∷ sources) =
    let rest = find_source types id sources in
    if text_eq source.id id && allows types source.kind then some source else rest

abbrev pub shareable : Desktop → Option ℕ → Option String → Option CaptureSource
shareable d types none = none
shareable d types (some id) = find_source types id (d.outputs ++ d.windows)

unfoldable pub consent_app_id : List (String × PendingRequest) → String → ℕ → String
consent_app_id [] session token = ""
consent_app_id ((handle, request) ∷ es) session token =
    let rest = consent_app_id es session token in
    if is_picker session token request then name request.consent else rest
  where
    name : Option ConsentRequest → String
    name none = ""
    name (some consent) = consent.app_name

abbrev pub grant_for :
    Bool → Option String → Desktop → PortalLedger → CaptureSource → Option String × PortalLedger
grant_for false owner d s source = (none, s)
grant_for true none d s source = (none, s)
grant_for true (some owner) d s source =
    (some d.uuid, mint_restore_token d.next_key s d.uuid owner source)

abbrev pub share :
    Option String × PortalLedger
    → Desktop
    → PortalState
    → String
    → CaptureSource
    → String
    → ℕ
    → PortalState
share (restore_token, s) d p session source app_id cursor_mode =
    begin_shared_stream d (record p { ledger = s }) session source restore_token app_id cursor_mode

-- Only a decision that a live picker and a live session took goes on to a stream.
abbrev pub after_approval :
    ConsentResolution × PortalLedger
    → Desktop
    → PortalState
    → String
    → CaptureSource
    → String
    → ℕ
    → PortalState
after_approval (applied, s) d p session source app_id cursor_mode =
    share (grant_for (wants_grant (get session s.sessions)) s.frontend d s source) d p session
      source app_id cursor_mode
after_approval (dead_end, s) d p session source app_id cursor_mode = record p { ledger = s }
after_approval (not_matched, s) d p session source app_id cursor_mode = record p { ledger = s }

abbrev pub approve_source : Option CaptureSource → Desktop → PortalState → String → ℕ → PortalState
approve_source none d p session token = close_shared_session p session
approve_source (some source) d p session token =
    after_approval (resolve_consent p.ledger session token approved) d p session source
      (consent_app_id p.ledger.requests session token) (cursor_of (get session p.ledger.sessions))

unfoldable pub handle_consent_decision :
    Desktop → PortalState → String → ℕ → ConsentOutcome → Option String → PortalState
unfolding get close_shared_session resolve_consent consent_app_id find_source mint_restore_token
    begin_shared_stream
handle_consent_decision d p session token approved source =
    approve_source (shareable d (types_of (get session p.ledger.sessions)) source) d p session token
handle_consent_decision d p session token cancelled_flow source =
    on_ledger (λ s. (resolve_consent s session token cancelled_flow).1) p
