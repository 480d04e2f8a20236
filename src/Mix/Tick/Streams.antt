-- ===== src/Mix/Tick/Streams.antt =====
-- The numbers of the datagrams that a room's mix task sends to one client, over a run.
use Prim.Native.String.{String}
use voicemcu.Base.{
  ℕ, suc, ◌%◌, ◌<◌, ◌≡◌, ◌≢◌, refl, sym, subst, ap, ap₂, ◌∙◌, inl, inr, if_all, Bool, true, Option,
  none, some, List, [], ◌∷◌, ◌++◌, length, ltb, ◌==◌, ==-ne, arith, Result-cases, Option-cases,
}
use voicemcu.Base.Bytes.{bytes_bound}
use voicemcu.Base.Words.{u32_mod}
use voicemcu.Base.Assoc.{ℕ_eq, String_eq, lookup}
use voicemcu.Protocol.{ClientId, max_opus_packet_size, encode_audio_datagram}
use voicemcu.Audio.{Float, PcmFrame, mix_frames, soft_clip_frame}
use voicemcu.Codec.{Opus, encode}
use voicemcu.Codec.Encoding.{IsLawful, encode-length}
use voicemcu.Client.Sending.Stream.{IsNumbered, packet-IsNumbered}
use voicemcu.Server.{MixCommand, ClientState, Room, Server}
use voicemcu.Mix.{Channels, MixClientState, MixClients, apply_commands, drain_all, emptied, solo}
use voicemcu.Mix.Tick.{
  MixFrame, collect, sources, Sent, mix_header, send_mix, mix_heard, mix_for, mix_all, mix_room,
  TickEnd, goes_on, ends, mix_tick,
}
use voicemcu.Mix.Tick.Numbering.{
  AllOther, Without, IsNext, sent_to, drain_all-IsNext, solo-IsNext, collect-IsNext,
}
use voicemcu.Mix.Tick.Others.{apply_commands-IsNext}

module _ (f : Float) (opus : Opus f.Sample) (dest : ClientId) where
  sent_to-append :
      (a b : List (Sent f opus))
      → sent_to f opus dest (a ++ b) ≡ sent_to f opus dest a ++ sent_to f opus dest b
  unfolding sent_to
  sent_to-append [] b = refl
  sent_to-append (s ∷ a) b = ground (arith, sent_to-append a b)

  -- Another client is sent nothing of this one's.
  mix_heard-other :
      (id : ClientId) (state : ClientState) (heard : List (PcmFrame f)) (ms : MixClientState f opus)
      → id ≢ dest
      → sent_to f opus dest (mix_heard f opus id state heard ms).1 ≡ []
  unfolding send_mix sent_to
  mix_heard-other id state [] ms ne = refl
  mix_heard-other id state (frame ∷ heard) ms ne =
      let pcm = soft_clip_frame f (mix_frames f (frame ∷ heard)) in
      elim (Result-cases (encode opus pcm max_opus_packet_size ms.encoder).1) [
        | inl (e, r) ↦ rw (r, send_mix) refl
        | inr (packet, r) ↦ rw (r, send_mix) (rw (==-ne id dest ne) refl)
      ]

  mix_for-other :
      (room : Room) (frames : List (MixFrame f opus)) (id : ClientId) (ms : MixClientState f opus)
      → id ≢ dest
      → sent_to f opus dest (mix_for f opus room frames id ms).1 ≡ []
  unfolding mix_for sent_to
  mix_for-other room frames id ms ne = elim (Option-cases (lookup id room.clients)) [
    | inl e ↦ rw (e, mix_for) refl
    | inr (state, e) ↦
        rw (e, mix_for)
          (mix_heard-other id state (sources f opus id state.blocked_peers frames) ms ne)
  ]

  mix_all-Without :
      (room : Room) (frames : List (MixFrame f opus)) (clients : MixClients f opus)
      → Without f opus dest clients
      → Without f opus dest (mix_all f opus room frames clients).0
        × (sent_to f opus dest (mix_all f opus room frames clients).1 ≡ [])
  unfolding mix_all sent_to
  mix_all-Without room frames [] w = (w, refl)
  mix_all-Without room frames ((id, ms) ∷ clients) w =
      let (rest, none_sent) = mix_all-Without room frames clients w.1 in
      let (mixed, sent) = mix_for f opus room frames id ms in
      (
        (w.0, rest),
        sent_to-append sent (mix_all f opus room frames clients).1
            ∙ ap₂ (λ (a b : List (List ℕ)). a ++ b) (mix_for-other room frames id ms w.0) none_sent,
      )

  -- What one turn of the client's own leaves: its state, and at most one datagram to it.
  abbrev Follows : ℕ → MixClientState f opus × List (Sent f opus) → Type 0
  Follows k (ms, []) = ms.out_sequence ≡ k % u32_mod
  Follows k (ms, s ∷ []) =
      (s.dest ≡ dest) × IsNumbered f opus dest k s.datagram × (ms.out_sequence ≡ suc k % u32_mod)
  Follows k (ms, s ∷ t ∷ sent) = ⊥

  -- What a tick sends to the client: nothing, or the next datagram.
  abbrev pub Sends : ℕ → MixClients f opus → List (List ℕ) → Type 0
  Sends k clients [] = IsNext f opus dest k clients
  Sends k clients (datagram ∷ []) =
      IsNumbered f opus dest k datagram × IsNext f opus dest (suc k) clients
  Sends k clients (datagram ∷ next ∷ datagrams) = ⊥

  Follows-Sends :
      (k : ℕ) (id : ClientId) (ms : MixClientState f opus) (sent : List (Sent f opus))
      (clients : MixClients f opus)
      → id ≡ dest
      → Follows k (ms, sent)
      → Without f opus dest clients
      → Sends k ((id, ms) ∷ clients) (sent_to f opus dest sent ++ [])
  unfolding sent_to
  Follows-Sends k id ms [] clients same h w = inl (same, h, w)
  Follows-Sends k id ms (s ∷ []) clients same h w =
      let here : s.dest == dest ≡ true = ground (arith, h.0) in rw here (h.1, inl (same, h.2, w))
  Follows-Sends k id ms (s ∷ t ∷ sent) clients same h w = absurd h

  module _ (law : IsLawful opus) (small : dest < bytes_bound 8) where
    mix_heard-Follows :
        (k : ℕ) (state : ClientState) (heard : List (PcmFrame f)) (ms : MixClientState f opus)
        → ms.out_sequence ≡ k % u32_mod
        → Follows k (mix_heard f opus dest state heard ms)
    unfolding send_mix
    mix_heard-Follows k state [] ms e = e
    mix_heard-Follows k state (frame ∷ heard) ms e =
        let pcm = soft_clip_frame f (mix_frames f (frame ∷ heard)) in
        elim (Result-cases (encode opus pcm max_opus_packet_size ms.encoder).1) [
          | inl (why, r) ↦ rw (r, send_mix) e
          | inr (packet, r) ↦
              let numbered = packet-IsNumbered f opus law dest small k packet (
                omega
                  (arith, encode-length opus law pcm max_opus_packet_size ms.encoder packet r)) in
              rw (r, send_mix)
                (
                  refl,
                  subst
                      (λ n.
                        IsNumbered f opus dest k
                          (encode_audio_datagram (mix_header f opus dest n) packet))
                      (sym e) numbered,
                  omega (arith, e),
                )
        ]

    mix_for-Follows :
        (k : ℕ) (room : Room) (frames : List (MixFrame f opus)) (ms : MixClientState f opus)
        → ms.out_sequence ≡ k % u32_mod
        → Follows k (mix_for f opus room frames dest ms)
    unfolding mix_for
    mix_for-Follows k room frames ms e = elim (Option-cases (lookup dest room.clients)) [
      | inl none_there ↦ rw (none_there, mix_for) e
      | inr (state, there) ↦
          rw (there, mix_for)
            (mix_heard-Follows k state (sources f opus dest state.blocked_peers frames) ms e)
    ]

    mix_all-Sends :
        (k : ℕ) (room : Room) (frames : List (MixFrame f opus)) (clients : MixClients f opus)
        → IsNext f opus dest k clients
        → Sends k
            (mix_all f opus room frames clients).0
            (sent_to f opus dest (mix_all f opus room frames clients).1)
    unfolding mix_all
    mix_all-Sends k room frames [] n = absurd n
    mix_all-Sends k room frames ((id, ms) ∷ clients) (inl (same, next, w)) =
        let (mixed, sent) = mix_for f opus room frames id ms in
        let (rest, none_sent) = mix_all-Without room frames clients w in
        let follows : Follows k (mix_for f opus room frames id ms) =
          subst (λ x. Follows k (mix_for f opus room frames x ms)) (sym same)
            (mix_for-Follows k room frames ms next) in
        subst (Sends k ((id, mixed) ∷ (mix_all f opus room frames clients).0))
          (sym (
            sent_to-append sent (mix_all f opus room frames clients).1
            ∙ ap (λ (b : List (List ℕ)). sent_to f opus dest sent ++ b) none_sent))
          (Follows-Sends k id mixed sent (mix_all f opus room frames clients).0 same follows rest)
    mix_all-Sends k room frames ((id, ms) ∷ clients) (inr (other, n)) =
        let (mixed, sent) = mix_for f opus room frames id ms in
        subst (Sends k ((id, mixed) ∷ (mix_all f opus room frames clients).0))
          (sym (
            sent_to-append sent (mix_all f opus room frames clients).1
            ∙ ap
                (λ (a : List (List ℕ)).
                  a ++ sent_to f opus dest (mix_all f opus room frames clients).1)
                (mix_for-other room frames id ms other)))
          (further k id mixed (mix_all f opus room frames clients).0
            (sent_to f opus dest (mix_all f opus room frames clients).1) other
            (mix_all-Sends k room frames clients n))
      where
        further :
            (k : ℕ) (id : ClientId) (ms : MixClientState f opus) (clients : MixClients f opus)
            (datagrams : List (List ℕ))
            → id ≢ dest
            → Sends k clients datagrams
            → Sends k ((id, ms) ∷ clients) datagrams
        further k id ms clients [] ne s = inr (ne, s)
        further k id ms clients (d ∷ []) ne s = (s.0, inr (ne, s.1))
        further k id ms clients (d ∷ e ∷ ds) ne s = absurd s

    -- What a tick leaves; a loop that has ended sends nothing more.
    abbrev pub TickSends : ℕ → TickEnd f opus → Type 0
    TickSends k ends = Unit
    TickSends k (goes_on clients channels sent) = Sends k clients (sent_to f opus dest sent)

    pub mix_tick-TickSends :
        (k : ℕ) (server : Server) (code : String) (commands : List MixCommand) (closed : Bool)
        (clients : MixClients f opus) (channels : Channels)
        → AllOther dest commands
        → IsNext f opus dest k clients
        → TickSends k (mix_tick f opus server code commands closed clients channels)
    unfolding mix_tick mix_room sent_to
    mix_tick-TickSends k server code commands closed clients channels others n =
        if_all (TickSends k) closed _ _ tt (
          if_all (TickSends k) (ltb (length drained) 2)
            (goes_on (solo f opus drained) (emptied f opus joined channels) []) _
            (solo-IsNext f opus dest k drained next) (mixed (lookup code server.rooms)))
      where
        joined : MixClients f opus
        joined = apply_commands f opus server.config clients commands

        drained : MixClients f opus
        drained = drain_all f opus channels joined

        next : IsNext f opus dest k drained
        next =
            drain_all-IsNext f opus dest k channels joined
              (apply_commands-IsNext f opus dest k server.config clients commands others n)

        mixed :
            (o : Option Room)
            → TickSends k (elim o as (λ x. TickEnd f opus) [
              | none ↦ ends
              | some room ↦
                  goes_on
                    (mix_room f opus server.config room drained).0
                    (emptied f opus joined channels)
                    (mix_room f opus server.config room drained).1
            ])
        mixed none = tt
        mixed (some room) =
            mix_all-Sends k room (collect f opus server.config room drained).1 _
              (collect-IsNext f opus dest k server.config room drained next)
