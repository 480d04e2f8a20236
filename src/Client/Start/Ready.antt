-- ===== src/Client/Start/Ready.antt =====
-- The interface of a client that starts: its log is within its limit, and it does not quit.
use Prim.Native.String.{String}
use voicemcu.Base.{
  ℕ, ◌≡◌, refl, ap, ◌∙◌, subst, Bool, true, false, List, ok, map_err, bind_ok, map_err_ok,
  ok-injective, arith,
}
use voicemcu.Protocol.{ClientId, Postcard, write_signal, read_signal, join, ClientInfo}
use voicemcu.Tui
use voicemcu.Tui.{AppState, Style, add_event, set_peers_from_info, find_info}
use voicemcu.Tui.Laws.{IsBounded, set_peers-IsBounded}
use voicemcu.Tui.Commands.Settling.{add_event-Keeps}
use voicemcu.Tui.Loop.Quitting.{set_peers-should_quit}
use voicemcu.Devices.Opening.{DeviceInfo}
use voicemcu.Client.Messages.{not_written, not_read, handshake, greeted, client_id_of}
use voicemcu.Client.Start.{device_events}

-- An interface that is within its limit and does not quit.
abbrev pub IsReady : AppState → Type 0
IsReady app = IsBounded app × (app.should_quit ≡ false)

pub add_event-IsReady :
    (text : String) (style : Style) (app : AppState)
    → IsReady app
    → IsReady (add_event text style app)
add_event-IsReady text style app (bounded, goes_on) =
    let (kept, same) = add_event-Keeps text style app app (bounded, refl) in (kept, same ∙ goes_on)

pub device_events-IsReady :
    (info : DeviceInfo) (app : AppState) → IsReady app → IsReady (device_events info app)
unfolding device_events
device_events-IsReady info app h = add_event-IsReady _ _ _ (add_event-IsReady _ _ app h)

-- The interface that the handshake leaves, before the client is greeted.
roster-IsReady :
    (id : ClientId) (room name : String) (max_events : ℕ) (clients : List ClientInfo)
    → IsReady (set_peers_from_info clients (Tui.new id room name max_events))
unfolding Tui.new
roster-IsReady id room name max_events clients =
    let app = Tui.new id room name max_events in
    (set_peers-IsBounded app clients (omega arith), set_peers-should_quit clients app)

module _ (postcard : Postcard) where
  greeted-IsReady :
      (danger : Bool) (app : AppState) → IsReady app → IsReady (greeted postcard danger app)
  unfolding greeted
  greeted-IsReady true app h = add_event-IsReady _ _ _ (add_event-IsReady _ _ app h)
  greeted-IsReady false app h = add_event-IsReady _ _ app h

  -- A handshake that succeeds has written the join, and leaves an interface that is ready.
  pub handshake-IsReady :
      (room name : String) (max_events : ℕ) (danger : Bool) (stream written : List ℕ)
      (app : AppState)
      → handshake postcard room name max_events danger stream ≡ ok (written, app)
      → (write_signal postcard (join room name) ≡ ok written) × IsReady app
  unfolding handshake
  handshake-IsReady room name max_events danger stream written app h =
      let (bytes, wrote, h1) =
        bind_ok (map_err not_written (write_signal postcard (join room name))) _ (written, app) h in
      let (answer, got, h2) =
        bind_ok (map_err not_read (read_signal postcard stream)) _ (written, app) h1 in
      let (id, told, h3) = bind_ok (client_id_of answer.0) _ (written, app) h2 in
      let same = ok-injective _ (written, app) h3 in
      (
        map_err_ok not_written _ bytes wrote ∙ ap (λ (x : List ℕ × AppState). ok x.0) same,
        subst (λ (x : List ℕ × AppState). IsReady x.1) same
            (greeted-IsReady danger _ (roster-IsReady id room name max_events _)),
      )
