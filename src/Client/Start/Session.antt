-- ===== src/Client/Start/Session.antt =====
-- What a session of the client is, from its start to its end.
use Prim.Native.String.{String}
use voicemcu.Base.{ℕ, ◌≡◌, some, List, ◌++◌, take, ok}
use voicemcu.Protocol.{SignalMessage, Postcard, write_signal, join}
use voicemcu.Config.Client.{load_client}
use voicemcu.Tui.{AppState}
use voicemcu.Tui.Loop.{LoopEvent, run}
use voicemcu.Tui.Loop.Quitting.{Finished}
use voicemcu.Client.Pinning.{CertMode, cert_mode}
use voicemcu.Client.Messages.{command_writer}
use voicemcu.Client.Start.Ready.{IsReady}
use voicemcu.Client.Start.{Arguments, Outside, Started}

module _ (postcard : Postcard) (outside : Outside) where
  -- What the start of a client has done: the join of its room under its name is written, a mode of
  -- checking certificates was chosen, and skipping only if the command line says so; the settings are
  -- those of the command line; and the interface is ready.
  pub record IsStarted (cli : Arguments) (started : Started postcard outside) : Type 0 where
    pub room : String
    pub name : String
    pub mode : CertMode
    pub room_given : cli.room ≡ some room
    pub name_given : cli.name ≡ some name
    pub mode_chosen : cert_mode cli.cert_hash cli.danger_skip_verify ≡ ok mode
    pub loaded : load_client outside.read_file cli.settings ≡ ok started.config
    pub joins : write_signal postcard (join room name) ≡ ok started.written
    pub ready : IsReady started.app

  -- A session: how it started, the commands that were given in it, and what they left.
  pub record IsSession (cli : Arguments) (taken : ℕ) (events : List LoopEvent) (app : AppState)
      (written : List ℕ) : Type 0 where
    pub started : Started postcard outside
    pub cmds : List SignalMessage
    pub starts : IsStarted cli started
    pub runs : run started.app events ≡ (app, cmds)
    pub finished : Finished events (app, cmds)
    pub writes : written ≡ started.written ++ command_writer postcard (take taken cmds)
