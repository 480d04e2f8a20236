-- ===== src/Mix/Tick/Invariant.antt =====
-- What a tick keeps of the mix state of a room.
use Prim.Native.String.{String}
use voicemcu.Base.{
  ◌/◌, ◌≤◌, inl, inr, Bool, not, Option, none, some, List, [], ◌∷◌, length, ltb, leb, arith,
  Bool-cases, Option-cases, Result-cases, if_all,
}
use voicemcu.Base.Words.{u32_mod}
use voicemcu.Base.Assoc.{ℕ_eq, String_eq, lookup, Each}
use voicemcu.Protocol.{ClientId, max_opus_packet_size}
use voicemcu.Config.{ServerConfig}
use voicemcu.Audio.{Float, PcmFrame, mix_frames, soft_clip_frame}
use voicemcu.Codec.{Opus, encode}
use voicemcu.Jitter.{pop}
use voicemcu.Jitter.Invariant.{pop-IsValid, advance_expected-IsValid, reset-IsValid}
use voicemcu.Server.{MixCommand, ClientState, Room, Server}
use voicemcu.Mix.{Channels, MixClientState, MixClients, apply_commands, drain_all, emptied, solo}
use voicemcu.Mix.Tick.{
  conceal, underrun, next_frame, collect, MixFrame, sources, send_mix, mix_heard, mix_for, mix_all,
  mix_room, TickEnd, goes_on, ends, mix_tick, plc_reset_streak, saturating_suc_u16,
}
use voicemcu.Mix.Invariant.{
  IsQueued, IsMixable, AllMixable, solo-AllMixable, drain_all-AllMixable, emptied-IsQueued,
  apply_commands-AllMixable,
}

module _ (f : Float) (opus : Opus f.Sample) where
  conceal-IsMixable :
      (ms : MixClientState f opus) → IsMixable f opus ms → IsMixable f opus (conceal f opus ms).0
  unfolding conceal
  conceal-IsMixable ms m = record {
    buffer = advance_expected-IsValid m.buffer;
    streak = m.streak;
    next = m.next;
  }

  underrun-IsMixable :
      (ms : MixClientState f opus) → IsMixable f opus ms → IsMixable f opus (underrun f opus ms).0
  unfolding underrun
  underrun-IsMixable ms m =
      elim (Bool-cases (leb plc_reset_streak (saturating_suc_u16 ms.plc_streak))) [
        | inl many ↦
            rw (many, underrun)
              (record { buffer = reset-IsValid m.buffer; streak = omega arith; next = m.next })
        | inr few ↦
            let counted : IsMixable f opus
                (record ms { plc_streak = saturating_suc_u16 ms.plc_streak }) =
              record { buffer = m.buffer; streak = ground (arith, few); next = m.next } in
            rw (few, underrun)
              (if_all (λ (r : MixClientState f opus × Option (PcmFrame f)). IsMixable f opus r.0)
                (not ms.had_rx_this_tick)
                (record ms { plc_streak = saturating_suc_u16 ms.plc_streak }, none) _ counted
                (conceal-IsMixable _ counted))
      ]

  next_frame-IsMixable :
      (ms : MixClientState f opus) → IsMixable f opus ms → IsMixable f opus (next_frame f opus ms).0
  unfolding next_frame
  next_frame-IsMixable ms m = elim (Option-cases (pop ms.jitter_buffer).1) [
    | inr (frame, e) ↦
        rw (e, next_frame)
          (record { buffer = pop-IsValid m.buffer; streak = omega arith; next = m.next })
    | inl e ↦
        let popped : IsMixable f opus (record ms { jitter_buffer = (pop ms.jitter_buffer).0 }) =
          record { buffer = pop-IsValid m.buffer; streak = m.streak; next = m.next } in
        rw (e, next_frame)
          (if_all (λ (r : MixClientState f opus × Option (PcmFrame f)). IsMixable f opus r.0) _ _ _
            popped (underrun-IsMixable _ popped))
  ]

  send_mix-IsMixable :
      (id : ClientId) (state : ClientState) (heard : List (PcmFrame f)) (ms : MixClientState f opus)
      → IsMixable f opus ms
      → IsMixable f opus (send_mix f opus id state heard ms).0
  unfolding send_mix
  send_mix-IsMixable id state heard ms m =
      elim (Result-cases
        (encode opus (soft_clip_frame f (mix_frames f heard)) max_opus_packet_size ms.encoder).1) [
          | inl (e, k) ↦
              rw (k, send_mix) (record { buffer = m.buffer; streak = m.streak; next = m.next })
          | inr (packet, k) ↦
              rw (k, send_mix) (record { buffer = m.buffer; streak = m.streak; next = omega arith })
        ]

  mix_heard-IsMixable :
      (id : ClientId) (state : ClientState) (heard : List (PcmFrame f)) (ms : MixClientState f opus)
      → IsMixable f opus ms
      → IsMixable f opus (mix_heard f opus id state heard ms).0
  mix_heard-IsMixable id state [] ms m = m
  mix_heard-IsMixable id state (x ∷ heard) ms m = send_mix-IsMixable id state (x ∷ heard) ms m

  mix_for-IsMixable :
      (room : Room) (frames : List (MixFrame f opus)) (id : ClientId) (ms : MixClientState f opus)
      → IsMixable f opus ms
      → IsMixable f opus (mix_for f opus room frames id ms).0
  unfolding mix_for
  mix_for-IsMixable room frames id ms m = elim (Option-cases (lookup id room.clients)) [
    | inl e ↦ rw (e, mix_for) m
    | inr (state, e) ↦
        rw (e, mix_for)
          (mix_heard-IsMixable id state (sources f opus id state.blocked_peers frames) ms m)
  ]

  mix_all-AllMixable :
      (room : Room) (frames : List (MixFrame f opus)) (clients : MixClients f opus)
      → AllMixable f opus clients
      → AllMixable f opus (mix_all f opus room frames clients).0
  unfolding mix_all
  mix_all-AllMixable room frames [] all = tt
  mix_all-AllMixable room frames ((id, ms) ∷ clients) all =
      (mix_for-IsMixable room frames id ms all.0, mix_all-AllMixable room frames clients all.1)

  collect-AllMixable :
      (config : ServerConfig) (room : Room) (clients : MixClients f opus)
      → AllMixable f opus clients
      → AllMixable f opus (collect f opus config room clients).0
  unfolding collect
  collect-AllMixable config room [] all = tt
  collect-AllMixable config room ((id, ms) ∷ clients) all =
      (next_frame-IsMixable ms all.0, collect-AllMixable config room clients all.1)

  -- What a tick leaves.
  abbrev pub EndsWell : TickEnd f opus → Type 0
  EndsWell (goes_on clients channels sent) = AllMixable f opus clients × Each IsQueued channels
  EndsWell ends = Unit {0}

  pub mix_tick-EndsWell :
      (server : Server) (code : String) (commands : List MixCommand) (closed : Bool)
      (clients : MixClients f opus) (channels : Channels)
      → server.config.jitter_depth ≤ u32_mod / 2
      → AllMixable f opus clients
      → Each IsQueued channels
      → EndsWell (mix_tick f opus server code commands closed clients channels)
  unfolding mix_tick mix_room
  mix_tick-EndsWell server code commands closed clients channels small all q =
      if_all EndsWell closed _ _ tt (
        if_all EndsWell (ltb (length drained) 2)
          (goes_on (solo f opus drained) (emptied f opus joined channels) []) _
          (solo-AllMixable f opus drained drained_all, emptied-IsQueued f opus joined channels q)
          (mixed (lookup code server.rooms)))
    where
      joined : MixClients f opus
      joined = apply_commands f opus server.config clients commands

      drained : MixClients f opus
      drained = drain_all f opus channels joined

      drained_all : AllMixable f opus drained
      drained_all =
          drain_all-AllMixable f opus channels joined q
            (apply_commands-AllMixable f opus server.config clients commands small all)

      mixed :
          (o : Option Room)
          → EndsWell (elim o as (λ x. TickEnd f opus) [
            | none ↦ ends
            | some room ↦
                goes_on
                  (mix_room f opus server.config room drained).0
                  (emptied f opus joined channels)
                  (mix_room f opus server.config room drained).1
          ])
      mixed none = tt
      mixed (some room) = (
        mix_all-AllMixable room (collect f opus server.config room drained).1 _
            (collect-AllMixable server.config room drained drained_all),
        emptied-IsQueued f opus joined channels q,
      )
