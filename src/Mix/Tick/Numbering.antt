-- ===== src/Mix/Tick/Numbering.antt =====
-- The datagrams that a room's mix task sends to one client.
use voicemcu.Base.{
  ℕ, ◌%◌, ◌≡◌, ◌≢◌, refl, ◌∙◌, ◌⊎◌, inl, inr, List, [], ◌∷◌, ◌==◌, arith, Option-cases,
  if◌then◌else◌,
}
use voicemcu.Base.Words.{u32_mod}
use voicemcu.Base.Assoc.{ℕ_eq, String_eq}
use voicemcu.Protocol.{ClientId}
use voicemcu.Config.{ServerConfig}
use voicemcu.Audio.{Float}
use voicemcu.Codec.{Opus}
use voicemcu.Jitter.{pop}
use voicemcu.Server.{MixCommand, add_client, remove_client, Room}
use voicemcu.Mix.{
  AudioPacket, Channels, MixClientState, MixClients, take_packet, take_packets, drain_client,
  drain_all, drain_jitter, solo,
}
use voicemcu.Mix.Tick.{conceal, underrun, next_frame, collect, Sent}
use voicemcu.Mix.Tick.Runs.{MixEvent, arrives, ticks}

-- A command about another client.
abbrev pub IsAboutOther : ClientId → MixCommand → Type 0
IsAboutOther dest (add_client id audio_rx) = id ≢ dest
IsAboutOther dest (remove_client id) = id ≢ dest

abbrev pub AllOther : ClientId → List MixCommand → Type 0
AllOther dest [] = Unit
AllOther dest (c ∷ commands) = IsAboutOther dest c × AllOther dest commands

-- No tick takes a command about the client.
abbrev pub Stays : ClientId → List MixEvent → Type 0
Stays dest [] = Unit
Stays dest (arrives connection bytes ∷ events) = Stays dest events
Stays dest (ticks server code commands closed ∷ events) = AllOther dest commands × Stays dest events

module _ (f : Float) (opus : Opus f.Sample) (dest : ClientId) where
  abbrev pub Without : MixClients f opus → Type 0
  Without [] = Unit
  Without ((id, ms) ∷ clients) = (id ≢ dest) × Without clients

  -- The client is there once, and its next datagram has number k.
  abbrev pub IsNext : ℕ → MixClients f opus → Type 0
  IsNext k [] = ⊥
  IsNext k ((id, ms) ∷ clients) =
      ((id ≡ dest) × (ms.out_sequence ≡ k % u32_mod) × Without clients)
      ⊎ ((id ≢ dest) × IsNext k clients)

  -- What is sent to the client.
  unfoldable pub sent_to : List (Sent f opus) → List (List ℕ)
  sent_to [] = []
  sent_to (s ∷ sent) = let rest = sent_to sent in if s.dest == dest then s.datagram ∷ rest else rest

  take_packets-out_sequence :
      (ms : MixClientState f opus) (packets : List AudioPacket)
      → (take_packets f opus ms packets).out_sequence ≡ ms.out_sequence
  unfolding take_packets take_packet
  take_packets-out_sequence ms [] = refl
  take_packets-out_sequence ms (p ∷ packets) =
      take_packets-out_sequence (take_packet f opus ms p) packets

  next_frame-out_sequence :
      (ms : MixClientState f opus) → (next_frame f opus ms).0.out_sequence ≡ ms.out_sequence
  unfolding next_frame underrun conceal
  next_frame-out_sequence ms = ground (arith, Option-cases (pop ms.jitter_buffer).1)

  drain_all-Without :
      (channels : Channels) (clients : MixClients f opus)
      → Without clients
      → Without (drain_all f opus channels clients)
  unfolding drain_all
  drain_all-Without channels [] w = w
  drain_all-Without channels ((id, ms) ∷ clients) w = (w.0, drain_all-Without channels clients w.1)

  pub drain_all-IsNext :
      (k : ℕ) (channels : Channels) (clients : MixClients f opus)
      → IsNext k clients
      → IsNext k (drain_all f opus channels clients)
  unfolding drain_all drain_client
  drain_all-IsNext k channels [] n = n
  drain_all-IsNext k channels ((id, ms) ∷ clients) (inl (same, next, w)) =
      inl (same, take_packets-out_sequence _ _ ∙ next, drain_all-Without channels clients w)
  drain_all-IsNext k channels ((id, ms) ∷ clients) (inr (other, n)) =
      inr (other, drain_all-IsNext k channels clients n)

  solo-Without : (clients : MixClients f opus) → Without clients → Without (solo f opus clients)
  unfolding solo
  solo-Without [] w = w
  solo-Without ((id, ms) ∷ clients) w = (w.0, solo-Without clients w.1)

  pub solo-IsNext :
      (k : ℕ) (clients : MixClients f opus) → IsNext k clients → IsNext k (solo f opus clients)
  unfolding solo drain_jitter
  solo-IsNext k [] n = n
  solo-IsNext k ((id, ms) ∷ clients) (inl (same, next, w)) =
      inl (same, next, solo-Without clients w)
  solo-IsNext k ((id, ms) ∷ clients) (inr (other, n)) = inr (other, solo-IsNext k clients n)

  collect-Without :
      (config : ServerConfig) (room : Room) (clients : MixClients f opus)
      → Without clients
      → Without (collect f opus config room clients).0
  unfolding collect
  collect-Without config room [] w = w
  collect-Without config room ((id, ms) ∷ clients) w =
      (w.0, collect-Without config room clients w.1)

  pub collect-IsNext :
      (k : ℕ) (config : ServerConfig) (room : Room) (clients : MixClients f opus)
      → IsNext k clients
      → IsNext k (collect f opus config room clients).0
  unfolding collect
  collect-IsNext k config room [] n = n
  collect-IsNext k config room ((id, ms) ∷ clients) (inl (same, next, w)) =
      inl (same, next_frame-out_sequence ms ∙ next, collect-Without config room clients w)
  collect-IsNext k config room ((id, ms) ∷ clients) (inr (other, n)) =
      inr (other, collect-IsNext k config room clients n)
