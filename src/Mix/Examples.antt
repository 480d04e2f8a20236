-- ===== src/Mix/Examples.antt =====
-- A room of two clients that hear each other, and the theorems at inputs.
use voicemcu.Base.{ℕ, refl, inl, true, false, none, some, List, [], ◌∷◌, arith}
use voicemcu.Config.{default_server_config}
use voicemcu.Audio.Examples.{counting}
use voicemcu.Codec.Examples.{toy_opus, toy_opus-IsLawful}
use voicemcu.Jitter.{JitterBuffer}
use voicemcu.Server.{new_client, Room, Server, add_client}
use voicemcu.Mix.{MixClientState, MixClients}
use voicemcu.Mix.Tick.{goes_on}
use voicemcu.Mix.Tick.Runs.{MixEvent, arrives, ticks, mix_run, mix_run-EndsWell}
use voicemcu.Mix.Tick.Numbering.{Stays}
use voicemcu.Mix.Tick.Delivery.{delivered, delivered-IsStream}
use voicemcu.Client.Sending.Stream.{IsStream}
use voicemcu.Mix.Tick.Invariant.{EndsWell}

abbrev waiting : ℕ → JitterBuffer (List ℕ)
waiting sample = record {
  slots = some (6, sample ∷ sample ∷ []) ∷ none ∷ [];
  depth = 2;
  read_seq = 6;
  initialized = true;
}

abbrev talking : ℕ → ℕ → MixClientState counting toy_opus
talking sample rx = record {
  jitter_buffer = waiting sample;
  decoder = 0;
  encoder = 12000;
  audio_rx = rx;
  out_sequence = 0;
  plc_streak = 0;
  had_rx_this_tick = true;
}

abbrev lab : Room
lab = record {
  clients = (1, new_client "ada" 10) ∷ (2, new_client "bob" 20) ∷ [];
  host = 1;
  mix_commands = [];
}

abbrev lab_server : Server
lab_server = record {
  rooms = ("lab", lab) ∷ [];
  config = default_server_config;
  next_client_id = 3;
}

abbrev pair : MixClients counting toy_opus
pair = (1, talking 5 1) ∷ (2, talking 7 2) ∷ []

-- Both join; a datagram of the second arrives; the room goes.
abbrev session : List MixEvent
session =
    ticks lab_server "lab" (add_client 1 1 ∷ add_client 2 2 ∷ []) false
    ∷ arrives 2 (0 ∷ 0 ∷ 0 ∷ 0 ∷ 0 ∷ 0 ∷ 0 ∷ 2 ∷ 0 ∷ 0 ∷ 0 ∷ 9 ∷ 0 ∷ 0 ∷ 0 ∷ 0 ∷ 255 ∷ [])
    ∷ ticks lab_server "lab" [] false
    ∷ ticks lab_server "lab" [] true
    ∷ []

mix_run-EndsWell_example :
    EndsWell counting toy_opus (mix_run counting toy_opus (goes_on [] [] []) session)
mix_run-EndsWell_example = mix_run-EndsWell counting toy_opus session (ground arith)

-- Three turns for the first client, which stays; then the room goes.
abbrev turns : List MixEvent
turns =
    ticks lab_server "lab" [] false
    ∷ arrives 2 (0 ∷ 0 ∷ 0 ∷ 0 ∷ 0 ∷ 0 ∷ 0 ∷ 2 ∷ 0 ∷ 0 ∷ 0 ∷ 7 ∷ 0 ∷ 0 ∷ 0 ∷ 0 ∷ 255 ∷ [])
    ∷ ticks lab_server "lab" (add_client 5 3 ∷ []) false
    ∷ ticks lab_server "lab" [] false
    ∷ ticks lab_server "lab" [] true
    ∷ []

stays : Stays 1 turns
stays = (tt, (((λ e. omega arith), tt), (tt, (tt, tt))))

delivered-IsStream_example :
    IsStream counting toy_opus 1 0 (delivered counting toy_opus 1 (goes_on pair [] []) turns)
delivered-IsStream_example =
    delivered-IsStream counting toy_opus 1 toy_opus-IsLawful (omega arith) turns 0 pair [] []
      (inl (refl, refl, ((λ e. omega arith), tt))) stays
