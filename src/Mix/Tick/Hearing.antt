-- ===== src/Mix/Tick/Hearing.antt =====
-- Who hears whom: what a tick of a room with several clients sends.
use voicemcu.Base.{ℕ, ◌≡◌, ◌≢◌, some, List, [], ok}
use voicemcu.Base.Assoc.{ℕ_eq, lookup}
use voicemcu.Protocol.{max_opus_packet_size, encode_audio_datagram}
use voicemcu.Config.{ServerConfig}
use voicemcu.Audio.{Float, PcmFrame, mix_frames, soft_clip_frame}
use voicemcu.Codec.{Opus, encode}
use voicemcu.Server.{ClientState, Room}
use voicemcu.Mix.Tick.{MixFrame, Sent, mix_header}
use voicemcu.Mix.Tick.Heard.{Heard}

module _ (f : Float) (opus : Opus f.Sample) where
  -- A datagram that a tick sends.
  pub record IsFair (config : ServerConfig) (room : Room) (frames : List (MixFrame f opus))
      (sent : Sent f opus) : Type 0 where
    pub listener : ClientState
    pub present : lookup sent.dest room.clients ≡ some listener
    pub addressed : sent.connection ≡ listener.connection
    pub heard : List (PcmFrame f)
    pub audible : Heard f opus config room sent.dest listener frames heard
    pub not_silent : heard ≢ []
    pub seq : ℕ
    pub packet : List ℕ
    pub encoder : opus.Encoder
    pub encoded :
        (encode opus (soft_clip_frame f (mix_frames f heard)) max_opus_packet_size encoder).1
        ≡ ok packet
    pub datagram : sent.datagram ≡ encode_audio_datagram (mix_header f opus sent.dest seq) packet
