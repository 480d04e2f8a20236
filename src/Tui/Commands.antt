-- ===== src/Tui/Commands.antt =====
-- client/src/tui.rs, `process_command`: what a typed line does and sends.
pub mod Sending
pub mod Settling
use Prim.Native.Char.{code}
use Prim.Native.String.{String}
use voicemcu.Base.{
  Bool, true, false, ◌&&◌, ◌||◌, not, Option, none, some, List, [], ◌∷◌, ◌==◌, if◌then◌else◌,
  Result, ok, err,
}
use voicemcu.Base.Assoc.{String_eq}
use voicemcu.Protocol.{
  ClientId, SignalMessage, mute, kick, server_mute, block_peer, unblock_peer, leave,
}
use voicemcu.Tui.{
  AppState, Style, green, red, yellow, white, dark_gray, add_event, find_peer, peer_name,
}
use voicemcu.Tui.Text.{append, trim, split_space}

abbrev pub is : String → String → Bool
is s t = String_eq.beq s t

abbrev pub is_blank : String → Bool
is_blank String.[] = true
is_blank (String.◌∷◌ c s) = false

-- What is sent to the peer that the argument names, with the log that goes with it.
pub with_peer :
    (ClientId → AppState → AppState)
    → (ClientId → SignalMessage)
    → String
    → AppState
    → AppState × Option SignalMessage
with_peer note message arg s = elim (find_peer s arg) [
  | ok target ↦ (note target s, some (message target))
  | err reason ↦ (add_event (append reason (append ": " arg)) red s, none)
]

-- `/kick`, `/forcemute` and `/forceunmute`.
pub host_command :
    String
    → String
    → (ClientId → SignalMessage)
    → String
    → AppState
    → AppState × Option SignalMessage
host_command usage refusal message arg s =
    if is_blank arg
    then (add_event usage dark_gray s, none)
    else if not s.is_host
    then (add_event refusal red s, none)
    else with_peer (λ target s'. s') message arg s

abbrev pub name_or_mark : ClientId → AppState → String
name_or_mark target s = elim (peer_name target s.peers) [ none ↦ "?" | some name ↦ name ]

-- `/block` and `/unblock`.
pub block_command :
    String
    → String
    → (ClientId → SignalMessage)
    → String
    → AppState
    → AppState × Option SignalMessage
block_command usage verb message arg s =
    if is_blank arg
    then (add_event usage dark_gray s, none)
    else with_peer (λ target s'. add_event (append verb (name_or_mark target s')) yellow s') message
        arg s

pub mute_command : AppState → AppState × Option SignalMessage
mute_command s =
    let toggled : AppState = record s { self_muted = not s.self_muted } in
    let verb : String = if toggled.self_muted then "muted" else "unmuted" in
    let told = add_event (append "you " (append verb " yourself")) yellow toggled in
    (
      if not told.self_muted && told.server_muted
          then add_event "note: still silenced by host" dark_gray told
          else told,
      some (mute toggled.self_muted),
    )

pub add_lines : List String → AppState → AppState
add_lines [] s = s
add_lines (l ∷ ls) s = add_lines ls (add_event l white s)

abbrev pub help_lines : List String
help_lines =
    "/mute              toggle self-mute" ∷ "/kick <peer>       remove peer from room (host)"
    ∷ "/forcemute <peer>  server-side mute (host)" ∷ "/forceunmute <peer> undo server-mute (host)"
    ∷ "/block <peer>      block peer from your mix" ∷ "/unblock <peer>    unblock peer"
    ∷ "/leave             disconnect and exit" ∷ "/help              show this message" ∷ ""
    ∷ "<peer> is a display name or client ID number" ∷ []

pub run_command : String → String → AppState → AppState × Option SignalMessage
run_command cmd arg s =
    if is cmd "mute"
    then mute_command s
    else if is cmd "kick"
    then host_command "usage: /kick <peer>" "only the host can kick" kick arg s
    else if is cmd "forcemute"
    then host_command "usage: /forcemute <peer>" "only the host can force-mute"
        (λ t. server_mute t true) arg s
    else if is cmd "forceunmute"
    then host_command "usage: /forceunmute <peer>" "only the host can force-unmute"
        (λ t. server_mute t false) arg s
    else if is cmd "block"
    then block_command "usage: /block <peer>" "blocked " block_peer arg s
    else if is cmd "unblock"
    then block_command "usage: /unblock <peer>" "unblocked " unblock_peer arg s
    else if is cmd "leave" || is cmd "quit" || is cmd "q"
    then (record s { should_quit = true }, some leave)
    else if is cmd "help" || is cmd "?"
    then (add_lines help_lines s, none)
    else (add_event (append "unknown command: /" (append cmd " -- type /help")) red s, none)

-- A line without its outer spaces.
pub process_line : String → AppState → AppState × Option SignalMessage
process_line String.[] s = (s, none)
process_line (String.◌∷◌ c line) s =
    if not (code c == 47)
    then (
      add_event (append "unknown input (commands start with /): " (String.◌∷◌ c line)) dark_gray s,
      none,
    )
    else (let (cmd, arg) = split_space line in run_command cmd (trim arg) s)

pub process_command : AppState → AppState × Option SignalMessage
process_command s = process_line (trim s.input) (record s { input = String.[] })
