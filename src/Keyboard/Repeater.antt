-- ===== src/Keyboard/Repeater.antt =====
-- KeyRepeater of keyboard/key_repeater.rs, with the timers that the event loop holds for it.
use veshell.Base.{
  ℕ, suc, ◌≡◌, refl, ap, List, [], ◌∷◌, Option, none, some, ◌==◌, ==_iff, if◌then◌else◌, Bool-cases,
  inl, inr,
}
use veshell.Keyboard.SuperKeys.{VeshellKeyEvent}

-- A timer with its token, its event, and the milliseconds until it fires and between two times.
pub record RepeatTimer : Type 0 where
  pub token : ℕ
  pub event : VeshellKeyEvent
  pub delay : ℕ
  pub interval : ℕ

pub record KeyRepeater : Type 0 where
  pub timer_token : Option ℕ
  pub repeating_event : Option VeshellKeyEvent
  -- the event loop's: its timers and the next token
  pub timers : List RepeatTimer
  pub next_token : ℕ

abbrev pub new_repeater : KeyRepeater
new_repeater = record { timer_token = none; repeating_event = none; timers = []; next_token = 0 }

unfoldable pub remove_timer : ℕ → List RepeatTimer → List RepeatTimer
remove_timer token [] = []
remove_timer token (t ∷ ts) =
    let rest = remove_timer token ts in if t.token == token then rest else t ∷ rest

abbrev pub without_timer : Option ℕ → List RepeatTimer → List RepeatTimer
without_timer none timers = timers
without_timer (some token) timers = remove_timer token timers

unfoldable pub cancel : KeyRepeater → KeyRepeater
unfolding remove_timer
cancel r = record r {
  timer_token = none;
  repeating_event = none;
  timers = without_timer r.timer_token r.timers;
}

-- A new timer in place of any other.
unfoldable pub down : KeyRepeater → VeshellKeyEvent → ℕ → ℕ → KeyRepeater
unfolding cancel
down r event delay interval =
    let idle = cancel r in
    record idle {
      timer_token = some idle.next_token;
      repeating_event = some event;
      timers =
          (record { token = idle.next_token; event = event; delay = delay; interval = interval })
          ∷ idle.timers;
      next_token = suc idle.next_token;
    }

abbrev pub up_with : Option VeshellKeyEvent → KeyRepeater → VeshellKeyEvent → KeyRepeater
up_with none r event = r
up_with (some repeating) r event = if repeating.key_code == event.key_code then cancel r else r

unfoldable pub up : KeyRepeater → VeshellKeyEvent → KeyRepeater
unfolding cancel
up r event = up_with r.repeating_event r event

unfoldable pub stop : KeyRepeater → KeyRepeater
unfolding cancel
stop r = record (cancel r) { repeating_event = none }

-- The event loop holds exactly the timer of the key that repeats, or none.
abbrev pub OneTimer : Option ℕ → Option VeshellKeyEvent → List RepeatTimer → Type 0
OneTimer none none timers = timers ≡ []
OneTimer none (some event) timers = ⊥
OneTimer (some token) none timers = ⊥
OneTimer (some token) (some event) timers =
    (delay : ℕ) × (interval : ℕ) × (timers
      ≡ (record { token = token; event = event; delay = delay; interval = interval }) ∷ [])

abbrev pub Repeating : KeyRepeater → Type 0
Repeating r = OneTimer r.timer_token r.repeating_event r.timers

remove_timer-own :
    (token : ℕ) (event : VeshellKeyEvent) (delay interval : ℕ)
    → remove_timer token
        ((record { token = token; event = event; delay = delay; interval = interval }) ∷ [])
      ≡ []
unfolding remove_timer
remove_timer-own token event delay interval = rw ((==_iff token token).1 refl) refl

without_timer-empty :
    (token : Option ℕ) (event : Option VeshellKeyEvent) (timers : List RepeatTimer)
    → OneTimer token event timers
    → without_timer token timers ≡ []
without_timer-empty none none timers h = h
without_timer-empty none (some event) timers h = absurd h
without_timer-empty (some token) none timers h = absurd h
without_timer-empty (some token) (some event) timers (delay, interval, h) =
    rw h (remove_timer-own token event delay interval)

pub cancel-Repeating : (r : KeyRepeater) → Repeating r → Repeating (cancel r)
unfolding cancel
cancel-Repeating r h = without_timer-empty r.timer_token r.repeating_event r.timers h

pub down-Repeating :
    (r : KeyRepeater) (event : VeshellKeyEvent) (delay interval : ℕ)
    → Repeating r
    → Repeating (down r event delay interval)
unfolding down cancel
down-Repeating r event delay interval h = (
  delay,
  interval,
  ap
      (λ ts.
        (record { token = r.next_token; event = event; delay = delay; interval = interval }) ∷ ts)
      (without_timer-empty r.timer_token r.repeating_event r.timers h),
)

up_with-Repeating :
    (repeating : Option VeshellKeyEvent) (r : KeyRepeater) (event : VeshellKeyEvent)
    → Repeating r
    → Repeating (up_with repeating r event)
up_with-Repeating none r event h = h
up_with-Repeating (some repeating) r event h =
    elim (Bool-cases (repeating.key_code == event.key_code)) [
      | inl e ↦ rw e (cancel-Repeating r h)
      | inr e ↦ rw e h
    ]

pub up-Repeating :
    (r : KeyRepeater) (event : VeshellKeyEvent) → Repeating r → Repeating (up r event)
unfolding up
up-Repeating r event h = up_with-Repeating r.repeating_event r event h

pub stop-Repeating : (r : KeyRepeater) → Repeating r → Repeating (stop r)
unfolding stop cancel
stop-Repeating r h = without_timer-empty r.timer_token r.repeating_event r.timers h
