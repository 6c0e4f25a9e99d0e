-- ===== src/Lib.antt =====
-- Verification library of veshell, a Wayland compositor in Rust whose desktop is a Flutter
-- program, the shell. The compositor (src/embedder) embeds the Flutter engine, talks to the shell
-- over platform channels, and keeps the state of the session on one thread: input, timers, D-Bus
-- threads and PAM workers reach it as events of one event loop, one after another.
--
-- The parts modelled, and how they meet in the program:
--   * TextInput: flutter_engine/text_input.rs and platform_channels/text_input_model.rs and
--     text_range.rs below src/embedder/flutter_engine. The active text field of the shell: keys
--     that the keyboard part hands over edit it, and each new state is sent to the shell.
--     Model, Editing, Cursor and Surroundings have the methods of TextInputModel; Field has
--     TextInput and the channel's handler; Zipper is the text as characters before and behind
--     a cursor, against which Refines and Typing compare the methods.
--   * Codec: standard_codec_serializer.rs, standard_method_codec.rs, byte_buffer_streams.rs,
--     byte_streams.rs and encodable_value.rs of src/embedder/flutter_engine/platform_channels, the
--     binary form of the values that the shell and the compositor exchange. Stream has the
--     streams, Writer write_value and its helpers, Reader read_value and its helpers, Method the
--     calls and envelopes.
--   * Lock: src/embedder/lock/mod.rs, with the messages of lock/pam.rs and lock/dbus.rs. LockState
--     has the state, Session lock and unlock, Auth the shell's answers and the PAM messages,
--     Sleep logind's suspend and resume; Step puts them together as one machine. The focus and
--     gaming mode are parts of the compositor's state that locking touches.
--   * Idle: src/embedder/idle/mod.rs, the screensaver. IdleState has the state, Timers the
--     arming and cancelling, Stages the handlers, Step the machine.
--   * Notification: src/embedder/notification/state.rs and service.rs, the loop side of the
--     notification server. NotificationState has the state and its methods, Service the calls.
--   * Keyboard: src/embedder/keyboard/mod.rs and key_repeater.rs, from a key event of the seat to
--     the compositor's own keys, the client of gaming mode, the shell, and the focused client
--     once the shell has answered. SuperKeys has SuperKeyForwarding, which withholds events while
--     the shell decides whether they are a shortcut; Repeater the repeater with the timers of
--     the event loop; Routing the state, the effects and the helpers; Hotkeys the compositor's
--     keys; Handling handle_keyboard_event and post_flutter_handle_key_event. Locking, gaming
--     mode, captures and the text field are read as flags, and what the handlers ask of other
--     parts are effects; press_key of the text field is modelled in TextInput.
--   * Portal: src/embedder/portal/mod.rs, service.rs and state.rs, the backend of the desktop
--     portal. D-Bus threads turn method calls into messages with a reply link; the loop answers
--     them from its ledger of sessions, pickers, screenshot prompts and file choosers. Types has
--     the messages, Constraints the restore data and screen-cast options, Ledger the state,
--     Closing what ends requests and sessions, Sessions and Calls apply_portal_call, Decisions
--     and Answers the shell's decisions and the captures' outcomes, Grants the restore grants,
--     Streams and Sharing the active streams, Producer the PipeWire events and
--     handle_portal_call, Run all of it as one machine.
--   * Windows: src/embedder/meta_window_state/mod.rs, with sync_recording_meta_windows of
--     portal/service.rs, which runs when a stream or a window comes or goes. AppIds compares
--     names, MetaWindowState has the focus order and the window that an identity stands for,
--     Recording the marks of the recorded windows and what the shell is told of them; Marks,
--     Resolved and Layers have their laws.
-- Base has what the parts share: tests on numbers, lists measured by native numbers, options,
-- integers, and counting.
--
-- How Rust is rendered: a method that changes its receiver takes the state and returns the new
-- one; a panic is `none` or `panic`. Numbers are native. Indices and lengths that cannot wrap are
-- plain; subtractions of the source on usize are checked and panic below zero, as in the
-- development profile. Text is a list of UTF-16 code units, a buffer a list of bytes, a
-- fixed-width number of the codec its bit pattern in the little-endian order of the machines that
-- the program runs on; a string of the codec is its bytes, with the test that from_utf8 makes.
-- The alpha of the screensaver is an exact fraction in place of an f32, and a time is a number of
-- nanoseconds. The event loop is the list of the timers it holds, which may fire in any order
-- and at any time; whether it takes a new timer is a parameter. Calls into other parts are
-- effects, kept in order. A hash map or set is a list with one entry for each key, and its order
-- of iteration is that of the list. Portal strings are native texts, a reply link is a number,
-- a set of bit flags its bits; what the ledger answered, queued and showed is kept, newest first.
--
-- The loops are structural recursion, except that read_value takes fuel, one unit for each value
-- inside another: one more than the number of bytes left is enough, because every value starts with
-- a byte of its own. The memory that a large size asks for and the depth of the stack are not
-- modelled. A read past the end of a buffer returns zeros or leaves the target as it is, as in the
-- source.
--
-- Parameters: key_char of xkbcommon (Field), the installed PAM services and the targets that are
-- alive (Lock), the surfaces that are alive and the backend's ability to blank (Idle), what xkb
-- makes of a key, which keys the generated table of physical keys has and whether the engine takes
-- the event (Keyboard), the new UUID, the order of the grants' hash map, the live outputs and
-- windows, the place of a source, and whether a producer runs and a result can be encoded (Portal).
-- zvariant's conversions take a value of exactly their own kind, and build what they are given
-- unless that last parameter says no.
--
-- The eviction of restore grants takes fuel too, one unit for each grant: every round removes
-- one, because the key to evict is one of the map's.
--
-- Not modelled: rendering and the backends, the Wayland protocol handlers, the portal's D-Bus
-- objects, frame delivery and pending pixels, file chooser options, screen capture, settings,
-- brightness, the keyboard's tables and layouts, a window's other patches, popups and floating
-- geometry, the engine's C interface, the JSON channels, D-Bus and PAM threads. They are I/O, calls
-- of smithay and other libraries, or later work; third-party and generated code is never modelled.
-- JSON arguments are taken as read, the bridge to the portal's objects never breaks, a session
-- handle from the shell is an object path, key codes are at least 8, and a counter of 64 bits (the
-- lock's generation) never wraps; the portal's token counter does.
pub mod Base
pub mod TextInput
pub mod Codec
pub mod Lock
pub mod Idle
pub mod Notification
pub mod Keyboard
pub mod Portal
pub mod Windows
