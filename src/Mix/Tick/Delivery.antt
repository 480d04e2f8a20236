-- ===== src/Mix/Tick/Delivery.antt =====
-- What a client of a room is sent over a run of its mix task.
use voicemcu.Base.{ℕ, suc, ◌<◌, ◌≡◌, refl, List, [], ◌∷◌, ◌++◌}
use voicemcu.Base.Bytes.{bytes_bound}
use voicemcu.Protocol.{ClientId}
use voicemcu.Audio.{Float}
use voicemcu.Codec.{Opus}
use voicemcu.Codec.Encoding.{IsLawful}
use voicemcu.Client.Sending.Stream.{IsStream}
use voicemcu.Mix.{Channels, MixClients, recv_datagram}
use voicemcu.Mix.Tick.{Sent, TickEnd, goes_on, ends, mix_tick}
use voicemcu.Mix.Tick.Runs.{MixEvent, arrives, ticks, mix_step}
use voicemcu.Mix.Tick.Numbering.{Stays, IsNext, sent_to}
use voicemcu.Mix.Tick.Streams.{Sends, TickSends, mix_tick-TickSends}

module _ (f : Float) (opus : Opus f.Sample) (dest : ClientId) where
  abbrev pub tick_sent : TickEnd f opus → List (List ℕ)
  tick_sent ends = []
  tick_sent (goes_on clients channels sent) = sent_to f opus dest sent

  -- The datagrams to the client, tick by tick.
  pub delivered : TickEnd f opus → List MixEvent → List (List ℕ)
  delivered t [] = []
  delivered t (arrives connection bytes ∷ events) =
      delivered (mix_step f opus t (arrives connection bytes)) events
  delivered t (ticks server code commands closed ∷ events) =
      let t' = mix_step f opus t (ticks server code commands closed) in
      tick_sent t' ++ delivered t' events

  delivered-ends : (events : List MixEvent) → delivered ends events ≡ []
  unfolding delivered mix_step
  delivered-ends [] = refl
  delivered-ends (arrives connection bytes ∷ events) = delivered-ends events
  delivered-ends (ticks server code commands closed ∷ events) = delivered-ends events

  module _ (law : IsLawful opus) (small : dest < bytes_bound 8) where
    after_tick :
        (k : ℕ) (t : TickEnd f opus) (events : List MixEvent)
        → TickSends f opus dest law small k t
        → ((j : ℕ) (clients : MixClients f opus) (channels : Channels) (sent : List (Sent f opus))
            → IsNext f opus dest j clients
            → IsStream f opus dest j (delivered (goes_on clients channels sent) events))
        → IsStream f opus dest k (tick_sent t ++ delivered t events)
    after_tick k ends events sends rest = rw (delivered-ends events) tt
    after_tick k (goes_on clients channels sent) events sends rest =
        sent_first (sent_to f opus dest sent) sends
      where
        sent_first :
            (datagrams : List (List ℕ))
            → Sends f opus dest k clients datagrams
            → IsStream f opus dest k (datagrams ++ delivered (goes_on clients channels sent) events)
        sent_first [] s = rest k clients channels sent s
        sent_first (d ∷ []) s = (s.0, rest (suc k) clients channels sent s.1)
        sent_first (d ∷ e ∷ ds) s = absurd s

    -- With a codec that keeps its promises and a client id that is a u64: from any state of a room's
    -- mix task in which the client is there once, with k as its next number, over any datagrams that
    -- arrive and any ticks whose commands are about other clients, the datagrams that are sent to the
    -- client carry its id and the numbers k, k + 1 and so on without a gap, as u32, with the time in
    -- samples that goes with them, and none is longer than a header and the largest payload.
    pub delivered-IsStream :
        (events : List MixEvent) (k : ℕ) (clients : MixClients f opus) (channels : Channels)
        (sent : List (Sent f opus))
        → IsNext f opus dest k clients
        → Stays dest events
        → IsStream f opus dest k (delivered (goes_on clients channels sent) events)
    unfolding delivered mix_step
    delivered-IsStream [] k clients channels sent n stays = tt
    delivered-IsStream (arrives connection bytes ∷ events) k clients channels sent n stays =
        delivered-IsStream events k clients (recv_datagram channels connection bytes) sent n stays
    delivered-IsStream (ticks server code commands closed ∷ events) k clients channels sent n
          stays =
        after_tick k (mix_tick f opus server code commands closed clients channels) events
          (mix_tick-TickSends f opus dest law small k server code commands closed clients channels
            stays.0 n)
          (λ j clients' channels' sent' n'.
            delivered-IsStream events j clients' channels' sent' n' stays.1)
