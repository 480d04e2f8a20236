-- ===== src/Server/Life/Served.antt =====
-- What a run of the server is, from its start to its end.
use Prim.Native.String.{String}
use mathlib.Core.List.{Memᴰ}
use voicemcu.Base.{ℕ, suc, ◌+◌, ◌≡◌, true, false, some, List, length, ok}
use voicemcu.Base.Assoc.{ℕ_eq, String_eq, lookup}
use voicemcu.Protocol.{ClientId}
use voicemcu.Config.{Cli, ServerConfig, load}
use voicemcu.Config.Load.{IsAcceptable}
use voicemcu.Server.{Server, Room, ClientState, new_server, Output}
use voicemcu.Server.Invariant.{ServerOk}
use voicemcu.Server.Invariant.Events.{Event, serve}
use voicemcu.Server.Life.{Farewell, sends, shut_down, Outside, Ending, dumped, failed, served}
use voicemcu.Server.Life.Notices.{notice}

module _ (outside : Outside) where
  open outside use {read_file, disk, crypto, seed}

  -- The server at its end, and what it was started with.
  pub record IsServed (cli : Cli) (events : List Event) (config : ServerConfig)
      (fingerprint : List ℕ) (s : Server) (end : List Farewell) : Type 0 where
    pub acceptable : IsAcceptable config
    pub loads : load read_file cli ≡ ok config
    pub ran : s ≡ serve (new_server config seed) events
    pub sound : ServerOk (suc seed + length events) s
    pub ends : end ≡ shut_down s
    pub told :
        (code : String) (r : Room) (id : ClientId) (c : ClientState)
        → lookup code s.rooms ≡ some r
        → lookup id r.clients ≡ some c
        → Memᴰ (sends (Output.push c.connection notice)) end

  -- How a run of the program may end.
  abbrev pub IsSoundEnd : Cli → List Event → Ending → Type 0
  IsSoundEnd cli events (dumped text) = cli.dump_config ≡ true
  IsSoundEnd cli events (failed message) = cli.dump_config ≡ false
  IsSoundEnd cli events (served config fingerprint s end) =
      (cli.dump_config ≡ false) × IsServed cli events config fingerprint s end
