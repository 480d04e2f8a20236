-- ===== src/Mix/Tick/Heard.antt =====
-- Who may be heard by whom in a tick.
use voicemcu.Base.{
  ◌≡◌, ◌≢◌, refl, ap, subst, ◌⊎◌, inl, inr, if_split, Bool, true, false, not, ◌&&◌, Option, none,
  some, List, [], ◌∷◌, ◌++◌, map, All, arith, Option-cases, ◌==◌, ==-ne,
}
use voicemcu.Base.Assoc.{ℕ_eq, lookup}
use voicemcu.Protocol.{ClientId}
use voicemcu.Config.{ServerConfig}
use voicemcu.Audio.{Float, PcmFrame, is_voice_active}
use voicemcu.Codec.{Opus}
use voicemcu.Server.{ClientState, Room}
use voicemcu.Server.Signaling.{member}
use voicemcu.Mix.{MixClients}
use voicemcu.Mix.Tick.{MixFrame, mix_frame, is_active, next_frame, collect, sources}

-- An element of a list.
abbrev pub In : {A : Type 0} → A → List A → Type 0
In a [] = ⊥
In a (x ∷ xs) = (a ≡ x) ⊎ In a xs

module _ (f : Float) (opus : Opus f.Sample) where
  open f use {from_bits}

  -- A client of the room that is not muted, by itself or by the host, and whose frame is speech.
  pub record Speaks (config : ServerConfig) (room : Room) (id : ClientId) (frame : PcmFrame f)
      : Type 0 where
    pub state : ClientState
    pub present : lookup id room.clients ≡ some state
    pub unmuted : state.muted ≡ false
    pub not_silenced : state.server_muted ≡ false
    pub voice : is_voice_active f frame (from_bits config.vad_threshold) ≡ true

  -- What a client may hear: others that speak and that it has not blocked.
  pub record MayHear (config : ServerConfig) (room : Room) (dest : ClientId)
      (listener : ClientState) (from : ClientId × PcmFrame f) : Type 0 where
    pub another : from.0 ≢ dest
    pub not_blocked : member from.0 listener.blocked_peers ≡ false
    pub speaks : Speaks config room from.0 from.1

  -- A frame that is marked active is that of a client that speaks, and each such frame is marked.
  abbrev pub Marked : ServerConfig → Room → MixFrame f opus → Type 0
  Marked config room (id, frame, active) =
      (active ≡ true → Speaks config room id frame) × (Speaks config room id frame → active ≡ true)

  is_active-Speaks :
      (config : ServerConfig) (room : Room) (id : ClientId) (frame : PcmFrame f)
      → Marked config room (id, frame, is_active f opus config room id frame)
  unfolding is_active
  is_active-Speaks config room id frame = (
    (λ a. elim (Option-cases (lookup id room.clients)) [
      | inl e ↦ absurd (ground (arith, a, e))
      | inr (state, e) ↦ record {
        state = state;
        present = e;
        unmuted = ground (arith, a, e);
        not_silenced = ground (arith, a, e);
        voice = ground (arith, a, e);
      }
    ]),
    (λ s. speaking s.state s.present s.unmuted s.not_silenced s.voice),
  )
    where
      speaking :
          (state : ClientState)
          → lookup id room.clients ≡ some state
          → state.muted ≡ false
          → state.server_muted ≡ false
          → is_voice_active f frame (from_bits config.vad_threshold) ≡ true
          → is_active f opus config room id frame ≡ true
      speaking state e a b c = ground (arith, e, a, b, c)

  mix_frame-Marked :
      (config : ServerConfig) (room : Room) (id : ClientId) (o : Option (PcmFrame f))
      (frames : List (MixFrame f opus))
      → All (Marked config room) frames
      → All (Marked config room) (mix_frame f opus config room id o ++ frames)
  mix_frame-Marked config room id none frames h = h
  mix_frame-Marked config room id (some frame) frames h = (is_active-Speaks config room id frame, h)

  pub collect-Marked :
      (config : ServerConfig) (room : Room) (clients : MixClients f opus)
      → All (Marked config room) (collect f opus config room clients).1
  unfolding collect
  collect-Marked config room [] = tt
  collect-Marked config room ((id, ms) ∷ clients) =
      mix_frame-Marked config room id (next_frame f opus ms).1 _
        (collect-Marked config room clients)

  abbrev pub Talk : Type 0
  Talk = ClientId × PcmFrame f

  abbrev pub talk : MixFrame f opus → Talk
  talk (id, frame, active) = (id, frame)

  -- The frames behind the sources of a listener: all that it may hear, and no other.
  pub record Heard (config : ServerConfig) (room : Room) (dest : ClientId) (listener : ClientState)
      (frames : List (MixFrame f opus)) (heard : List (PcmFrame f)) : Type 0 where
    pub from : List Talk
    pub same : map (λ t. t.1) from ≡ heard
    pub allowed : All (MayHear config room dest listener) from
    pub complete :
        (t : Talk) → In t (map talk frames) → MayHear config room dest listener t → In t from

  admitted :
      (config : ServerConfig) (room : Room) (dest : ClientId) (listener : ClientState)
      (id : ClientId) (frame : PcmFrame f) (active : Bool)
      → Marked config room (id, frame, active)
      → (not (id == dest) && active && not (member id listener.blocked_peers)) ≡ true
      → MayHear config room dest listener (id, frame)
  admitted config room dest listener id frame active h passes = record {
    another = λ e. ground (arith, passes, e);
    not_blocked = ground (arith, passes);
    speaks = h.0 (ground (arith, passes));
  }

  omitted :
      (config : ServerConfig) (room : Room) (dest : ClientId) (listener : ClientState)
      (id : ClientId) (frame : PcmFrame f) (active : Bool)
      → Marked config room (id, frame, active)
      → (not (id == dest) && active && not (member id listener.blocked_peers)) ≡ false
      → ¬ MayHear config room dest listener (id, frame)
  omitted config room dest listener id frame active h fails m =
      ground (arith, fails, h.1 m.speaks, ==-ne id dest m.another, m.not_blocked)

  pub sources-Heard :
      (config : ServerConfig) (room : Room) (dest : ClientId) (listener : ClientState)
      (frames : List (MixFrame f opus))
      → All (Marked config room) frames
      → Heard config room dest listener frames (sources f opus dest listener.blocked_peers frames)
  unfolding sources
  sources-Heard config room dest listener [] h = record {
    from = [];
    same = refl;
    allowed = tt;
    complete = λ t i m. i;
  }
  sources-Heard config room dest listener ((id, frame, active) ∷ frames) h =
      let rest = sources-Heard config room dest listener frames h.1 in
      if_split (Heard config room dest listener ((id, frame, active) ∷ frames))
        (not (id == dest) && active && not (member id listener.blocked_peers)) _ _
        (λ passes. record {
          from = (id, frame) ∷ rest.from;
          same = ap (λ xs. frame ∷ xs) rest.same;
          allowed = (admitted config room dest listener id frame active h.0 passes, rest.allowed);
          complete = λ t i m. elim i [ inl e ↦ inl e | inr j ↦ inr (rest.complete t j m) ];
        })
        (λ fails. record {
          from = rest.from;
          same = rest.same;
          allowed = rest.allowed;
          complete = λ t i m. elim i [
            | inl e ↦ absurd (
                omitted config room dest listener id frame active h.0 fails
                  (subst (MayHear config room dest listener) e m))
            | inr j ↦ rest.complete t j m
          ];
        })
