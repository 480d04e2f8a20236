-- ===== src/Mix/Invariant.antt =====
-- What holds of the mix state of a room: what comes in keeps it.
use voicemcu.Base.{
  ℕ, ◌/◌, ◌≤◌, ◌<◌, ◌≡◌, refl, inl, inr, Option, none, some, List, [], ◌∷◌, length, All, arith,
  Option-cases, Result-cases,
}
use voicemcu.Base.Words.{u32_mod}
use voicemcu.Base.Assoc.{ℕ_eq, String_eq, lookup, insert, remove, Each, insert-Each}
use voicemcu.Protocol.{ClientId}
use voicemcu.Config.{ServerConfig}
use voicemcu.Audio.{Float, PcmFrame}
use voicemcu.Codec.{Opus, new_encoder, new_decoder}
use voicemcu.Jitter
use voicemcu.Jitter.{JitterBuffer, pop, advance_expected, reset}
use voicemcu.Jitter.Invariant.{IsValid, new-IsValid, insert-IsValid}
use voicemcu.Server.{MixCommand, add_client, remove_client}
use voicemcu.Mix.{
  AudioPacket, Channels, queued, MixClientState, MixClients, new_mix_client, or_same, apply_command,
  apply_commands, take_packet, take_packets, drain_client, drain_all, emptied, drain_jitter, solo,
  audio_capacity,
}
use voicemcu.Mix.Tick.{plc_reset_streak}
use voicemcu.Mix.Drain.{drain_jitter_ends}

-- Sequence numbers of packets are those of four bytes.
abbrev pub InRange : List AudioPacket → Type 0
InRange = All (λ (p : AudioPacket). p.sequence < u32_mod)

-- Each channel holds packets in range, and not too many of them.
abbrev pub IsQueued : List AudioPacket → Type 0
IsQueued packets = InRange packets × (length packets ≤ audio_capacity)

pub queued-IsQueued :
    (channels : Channels) (rx : ℕ) → Each IsQueued channels → IsQueued (queued rx channels)
queued-IsQueued channels rx q = elim (Option-cases (lookup rx channels)) [
  | inl e ↦ rw (e, queued) (tt, omega arith)
  | inr (packets, e) ↦ rw (e, queued) (q rx packets e)
]

module _ (f : Float) (opus : Opus f.Sample) where
  -- The buffer of a client is valid, its streak is below the one that resets, and its next number is
  -- a u32.
  pub record IsMixable (ms : MixClientState f opus) : Type 0 where
    pub buffer : IsValid ms.jitter_buffer
    pub streak : ms.plc_streak < plc_reset_streak
    pub next : ms.out_sequence < u32_mod

  abbrev pub AllMixable : MixClients f opus → Type 0
  AllMixable = All (λ (p : ClientId × MixClientState f opus). IsMixable p.1)

  insert-AllMixable :
      (id : ClientId) (ms : MixClientState f opus) (clients : MixClients f opus)
      → IsMixable ms
      → AllMixable clients
      → AllMixable (insert id ms clients)
  unfolding insert
  insert-AllMixable id ms [] h all = (h, tt)
  insert-AllMixable id ms ((j, x) ∷ clients) h all =
      ground (arith, insert-AllMixable id ms clients h all.1)

  remove-AllMixable :
      (id : ClientId) (clients : MixClients f opus)
      → AllMixable clients
      → AllMixable (remove id clients)
  unfolding remove
  remove-AllMixable id [] all = tt
  remove-AllMixable id ((j, x) ∷ clients) all = ground (arith, remove-AllMixable id clients all.1)

  new_mix_client-IsMixable :
      (depth : ℕ) (decoder : opus.Decoder) (encoder : opus.Encoder) (rx : ℕ)
      (ms : MixClientState f opus)
      → depth ≤ u32_mod / 2
      → new_mix_client f opus depth decoder encoder rx ≡ some ms
      → IsMixable ms
  unfolding new_mix_client
  new_mix_client-IsMixable depth decoder encoder rx ms small e =
      elim (Option-cases (Jitter.new {A = PcmFrame f} depth)) [
        | inl k ↦ absurd (ground (arith, e, k))
        | inr (b, k) ↦ let v = new-IsValid depth small k in ground (arith, e, k, v)
      ]

  take_packet-IsMixable :
      (ms : MixClientState f opus) (p : AudioPacket)
      → p.sequence < u32_mod
      → IsMixable ms
      → IsMixable (take_packet f opus ms p)
  unfolding take_packet
  take_packet-IsMixable ms p h m = record {
    buffer = insert-IsValid p.sequence _ h m.buffer;
    streak = m.streak;
    next = m.next;
  }

  take_packets-IsMixable :
      (ms : MixClientState f opus) (ps : List AudioPacket)
      → InRange ps
      → IsMixable ms
      → IsMixable (take_packets f opus ms ps)
  unfolding take_packets
  take_packets-IsMixable ms [] h m = m
  take_packets-IsMixable ms (p ∷ ps) h m =
      take_packets-IsMixable (take_packet f opus ms p) ps h.1 (take_packet-IsMixable ms p h.0 m)

  pub solo-AllMixable :
      (clients : MixClients f opus) → AllMixable clients → AllMixable (solo f opus clients)
  unfolding solo drain_jitter
  solo-AllMixable [] all = tt
  solo-AllMixable ((id, ms) ∷ clients) all = (
    record {
      buffer = (drain_jitter_ends f opus ms).1 all.0.buffer;
      streak = all.0.streak;
      next = all.0.next;
    },
    solo-AllMixable clients all.1,
  )

  pub drain_all-AllMixable :
      (channels : Channels) (clients : MixClients f opus)
      → Each IsQueued channels
      → AllMixable clients
      → AllMixable (drain_all f opus channels clients)
  unfolding drain_all drain_client
  drain_all-AllMixable channels [] q all = tt
  drain_all-AllMixable channels ((id, ms) ∷ clients) q all = (
    take_packets-IsMixable _ (queued ms.audio_rx channels)
        (queued-IsQueued channels ms.audio_rx q).0
        (record { buffer = all.0.buffer; streak = all.0.streak; next = all.0.next }),
    drain_all-AllMixable channels clients q all.1,
  )

  pub emptied-IsQueued :
      (clients : MixClients f opus) (channels : Channels)
      → Each IsQueued channels
      → Each IsQueued (emptied f opus clients channels)
  unfolding emptied
  emptied-IsQueued [] channels q = q
  emptied-IsQueued ((id, ms) ∷ clients) channels q =
      emptied-IsQueued clients (insert ms.audio_rx [] channels)
        (insert-Each IsQueued ms.audio_rx [] channels (tt, omega arith) q)

  apply_command-AllMixable :
      (config : ServerConfig) (clients : MixClients f opus) (c : MixCommand)
      → config.jitter_depth ≤ u32_mod / 2
      → AllMixable clients
      → AllMixable (apply_command f opus config clients c)
  unfolding apply_command
  apply_command-AllMixable config clients (remove_client id) small all =
      remove-AllMixable id clients all
  apply_command-AllMixable config clients (add_client id rx) small all =
      elim (Result-cases (new_decoder opus id)) [
        | inl (e, k) ↦ rw (k, apply_command) all
        | inr (decoder, k) ↦ elim (Result-cases (new_encoder opus id config.bitrate)) [
          | inl (e, l) ↦ rw (k, l, apply_command) all
          | inr (encoder, l) ↦
              rw (k, l, apply_command)
                (added (new_mix_client f opus config.jitter_depth decoder encoder rx) (λ ms e.
                  new_mix_client-IsMixable config.jitter_depth decoder encoder rx ms small e))
        ]
      ]
    where
      added :
          (o : Option (MixClientState f opus))
          → ((ms : MixClientState f opus) → o ≡ some ms → IsMixable ms)
          → AllMixable (or_same f opus clients id o)
      added none h = all
      added (some ms) h = insert-AllMixable id ms clients (h ms refl) all

  pub apply_commands-AllMixable :
      (config : ServerConfig) (clients : MixClients f opus) (commands : List MixCommand)
      → config.jitter_depth ≤ u32_mod / 2
      → AllMixable clients
      → AllMixable (apply_commands f opus config clients commands)
  unfolding apply_commands
  apply_commands-AllMixable config clients [] small all = all
  apply_commands-AllMixable config clients (c ∷ commands) small all =
      apply_commands-AllMixable config (apply_command f opus config clients c) commands small
        (apply_command-AllMixable config clients c small all)
