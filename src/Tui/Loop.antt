-- ===== src/Tui/Loop.antt =====
-- client/src/tui.rs, `handle_key` and `run`: the keys, and the loop of the interface. Drawing is left
-- out; what is sent on the channel of commands is the output.
pub mod Quitting
use Prim.Native.Char.{Char}
use Prim.Native.String.{String}
use voicemcu.Base.{Bool, true, Option, none, some, List, [], ◌∷◌, ◌++◌, if◌then◌else◌, ◌&&◌, ◌==◌}
use Prim.Native.Char.{code}
use voicemcu.Protocol.{SignalMessage, leave}
use voicemcu.Tui.{AppState, add_event, handle_signal, red_bold, TuiEvent, signal, disconnected}
use voicemcu.Tui.Text.{append}
use voicemcu.Tui.Commands.{process_command}

pub data KeyCode : Type 0 where
  enter : KeyCode
  char : (c : Char) → KeyCode
  backspace : KeyCode
  esc : KeyCode
  another : KeyCode

-- `String::pop`.
pub without_last : String → String
without_last String.[] = String.[]
without_last (String.◌∷◌ c String.[]) = String.[]
without_last (String.◌∷◌ c (String.◌∷◌ d s)) = String.◌∷◌ c (without_last (String.◌∷◌ d s))

unfoldable pub quit : AppState → AppState × Option SignalMessage
quit state = (record state { should_quit = true }, some leave)

unfoldable pub handle_key : AppState → KeyCode → Bool → AppState × Option SignalMessage
handle_key state enter control = process_command state
handle_key state (char c) control =
    if control && code c == 99
    then quit state
    else (record state { input = append state.input (String.◌∷◌ c String.[]) }, none)
handle_key state backspace control = (record state { input = without_last state.input }, none)
handle_key state esc control = quit state
handle_key state another control = (state, none)

-- What `select!` takes: a key, which may be pressed or not; another event of the terminal; or what the
-- tasks send, where `none` is a closed channel.
pub data LoopEvent : Type 0 where
  key : (key_code : KeyCode) (control pressed : Bool) → LoopEvent
  no_key : LoopEvent
  received : (e : Option TuiEvent) → LoopEvent

pub lost : AppState → AppState
lost state =
    let told = add_event "disconnected from server" red_bold state in
    record told { should_quit = true }

unfoldable pub handle_event : AppState → LoopEvent → AppState × Option SignalMessage
handle_event state (key key_code control pressed) =
    if pressed then handle_key state key_code control else (state, none)
handle_event state no_key = (state, none)
handle_event state (received (some (signal msg))) = (handle_signal msg state, none)
handle_event state (received (some disconnected)) = (lost state, none)
handle_event state (received none) = (lost state, none)

abbrev pub sent_list : Option SignalMessage → List SignalMessage
sent_list none = []
sent_list (some msg) = msg ∷ []

-- The loop over some events, with the commands that it sends.
unfoldable pub run : AppState → List LoopEvent → AppState × List SignalMessage
run state [] = (state, [])
run state (e ∷ events) =
    let (next, sent) = handle_event state e in
    let (last, cmds) = run next events in
    if state.should_quit then (state, []) else (last, sent_list sent ++ cmds)
