-- ===== src/Mix/Tick/Runs.antt =====
-- Runs of a room's audio: datagrams arrive, and ticks go by.
use Prim.Native.String.{String}
use voicemcu.Base.{
  ℕ, ◌/◌, ◌≤◌, ◌<◌, inl, inr, Bool, List, [], ◌∷◌, ◌++◌, length, ltb, ltb→lt, All, arith,
  length-append, Result-cases, if_split,
}
use voicemcu.Base.Words.{u32_mod}
use voicemcu.Base.Bytes.{IsBytes}
use voicemcu.Base.Assoc.{ℕ_eq, lookup, Each, insert-Each}
use voicemcu.Protocol.{decode_audio_datagram}
use voicemcu.Protocol.Datagram.{sequence-lt}
use voicemcu.Audio.{Float}
use voicemcu.Codec.{Opus}
use voicemcu.Server.{MixCommand, Server}
use voicemcu.Mix.{AudioPacket, Channels, queued, push_packet, recv_datagram, audio_capacity}
use voicemcu.Mix.Tick.{TickEnd, goes_on, ends, mix_tick}
use voicemcu.Mix.Invariant.{InRange, IsQueued, queued-IsQueued}
use voicemcu.Mix.Tick.Invariant.{EndsWell, mix_tick-EndsWell}

InRange-append :
    (ps : List AudioPacket) (p : AudioPacket)
    → InRange ps
    → p.sequence < u32_mod
    → InRange (ps ++ p ∷ [])
InRange-append [] p h k = (k, tt)
InRange-append (x ∷ ps) p h k = (h.0, InRange-append ps p h.1 k)

push_packet-IsQueued :
    (channels : Channels) (connection : ℕ) (p : AudioPacket)
    → p.sequence < u32_mod
    → Each IsQueued channels
    → Each IsQueued (push_packet channels connection p)
unfolding push_packet
push_packet-IsQueued channels connection p k q =
    let packets = queued connection channels in
    let held = queued-IsQueued channels connection q in
    if_split (λ (m : Channels). Each IsQueued m) (ltb (length packets) audio_capacity) _ channels
      (λ space.
        insert-Each IsQueued connection (packets ++ p ∷ []) channels
          (
            InRange-append packets p held.0 k,
            omega (arith, length-append packets (p ∷ []), ltb→lt _ _ space),
          )
          q)
      (λ full. q)

recv_datagram-IsQueued :
    (channels : Channels) (connection : ℕ) (bytes : List ℕ)
    → IsBytes bytes
    → Each IsQueued channels
    → Each IsQueued (recv_datagram channels connection bytes)
unfolding recv_datagram
recv_datagram-IsQueued channels connection bytes b q =
    elim (Result-cases (decode_audio_datagram bytes)) [
      | inl (e, k) ↦ rw (k, recv_datagram) q
      | inr ((h, payload), k) ↦
          rw (k, recv_datagram)
            (push_packet-IsQueued channels connection _ (sequence-lt bytes h payload b k) q)
    ]

pub data MixEvent : Type 0 where
  arrives : (connection : ℕ) (bytes : List ℕ) → MixEvent
  ticks :
      (server : Server) (room_code : String) (commands : List MixCommand) (closed : Bool) → MixEvent

-- Datagrams are lists of bytes, and the depth is one that a valid configuration can have.
abbrev pub IsPossible : MixEvent → Type 0
IsPossible (arrives connection bytes) = IsBytes bytes
IsPossible (ticks server room_code commands closed) = server.config.jitter_depth ≤ u32_mod / 2

module _ (f : Float) (opus : Opus f.Sample) where
  unfoldable pub mix_step : TickEnd f opus → MixEvent → TickEnd f opus
  mix_step ends e = ends
  mix_step (goes_on clients channels sent) (arrives connection bytes) =
      goes_on clients (recv_datagram channels connection bytes) sent
  mix_step (goes_on clients channels sent) (ticks server room_code commands closed) =
      mix_tick f opus server room_code commands closed clients channels

  pub mix_run : TickEnd f opus → List MixEvent → TickEnd f opus
  mix_run t [] = t
  mix_run t (e ∷ events) = mix_run (mix_step t e) events

  mix_step-EndsWell :
      (t : TickEnd f opus) (e : MixEvent)
      → IsPossible e
      → EndsWell f opus t
      → EndsWell f opus (mix_step t e)
  unfolding mix_step
  mix_step-EndsWell ends e h w = tt
  mix_step-EndsWell (goes_on clients channels sent) (arrives connection bytes) h w =
      (w.0, recv_datagram-IsQueued channels connection bytes h w.1)
  mix_step-EndsWell (goes_on clients channels sent) (ticks server room_code commands closed) h w =
      mix_tick-EndsWell f opus server room_code commands closed clients channels h w.0 w.1

  mix_run_from :
      (t : TickEnd f opus) (events : List MixEvent)
      → All IsPossible events
      → EndsWell f opus t
      → EndsWell f opus (mix_run t events)
  unfolding mix_run
  mix_run_from t [] h w = w
  mix_run_from t (e ∷ events) h w =
      mix_run_from (mix_step t e) events h.1 (mix_step-EndsWell t e h.0 w)

  -- From the start of a room's mix task, whatever datagrams arrive and whatever the ticks find on the
  -- server, with a jitter depth of at most 2^31: each client's jitter buffer is valid, its streak of
  -- concealed frames is below the one that resets it, its next sequence number is a u32, and no
  -- channel holds more than its capacity.
  pub mix_run-EndsWell :
      (events : List MixEvent)
      → All IsPossible events
      → EndsWell f opus (mix_run (goes_on [] [] []) events)
  unfolding lookup
  mix_run-EndsWell events h = mix_run_from (goes_on [] [] []) events h (tt, λ j x e. absurd cc)
