-- ===== src/Server/Moderation.antt =====
-- server/src/main.rs, `handle_signaling`: who may do what, and whom it touches.
use Prim.Native.String.{String}
use voicemcu.Base.{
  ℕ, ◌≡◌, ◌≢◌, refl, sym, ◌∙◌, inl, inr, true, none, some, ◌∷◌, arith, Bool-cases, ==-ne, ==-self,
}
use voicemcu.Base.Assoc.{
  ℕ_eq, String_eq, lookup, remove, lookup-modify, lookup-modify_self, lookup-remove, beq-ne,
}
use voicemcu.Protocol.{ClientId, SignalMessage}
use voicemcu.Server.{
  ClientState, Room, Server, is_host, Output, update_room, broadcast_signal, pushes,
}
use voicemcu.Server.Signaling.{
  handle_mute, handle_kick, handle_server_mute, handle_block, handle_message, kick_from,
  update_client, kick_notices, set_insert, set_remove,
}
use voicemcu.Server.Session.{is_present}
use voicemcu.Server.Invariant.Departures.{clients-drop_client, host-drop_client}

-- What a host's kick leaves of the room.
kicked_room :
    (r : Room) (target : ClientId) (c : ClientState)
    → lookup target r.clients ≡ some c
    → ((kick_from target r).clients ≡ remove target r.clients)
      × ((kick_from target r).host ≡ r.host)
unfolding kick_from
kicked_room r target c e = (
  rw (e, kick_from) (clients-drop_client r target),
  rw (e, kick_from) (host-drop_client r target),
)

is_host_self : (r : Room) (id : ClientId) → r.host ≡ id → is_host r id ≡ true
unfolding is_host
is_host_self r id h = rw h (==-self id)

kick_by_host :
    (s : Server) (code : String) (id target : ClientId) (connection : ℕ) (r : Room)
    (c : ClientState)
    → lookup code s.rooms ≡ some r
    → r.host ≡ id
    → target ≢ id
    → lookup target r.clients ≡ some c
    → handle_message s code id connection (SignalMessage.kick target) ≡ (
      update_room s code (kick_from target),
      Output.push c.connection (SignalMessage.kicked "kicked by host")
          ∷ Output.closes c.connection
          ∷ broadcast_signal
              (update_room s code (kick_from target))
              code
              (SignalMessage.client_left target)
              none,
    )
unfolding handle_message handle_kick kick_notices
kick_by_host s code id target connection r c e host other there =
    rw (e, is_host_self r id host, ==-ne target id other, there, handle_kick) refl

-- A host that kicks another client of its room removes exactly that client: the room is still
-- there, under the same host, without the target and with every other client as it was. The target
-- is told and its connection closed, and then the clients that the room has left are told.
pub host_kicks :
    (s : Server) (code : String) (id target : ClientId) (connection : ℕ) (r : Room)
    (c : ClientState)
    → lookup code s.rooms ≡ some r
    → r.host ≡ id
    → target ≢ id
    → lookup target r.clients ≡ some c
    → (r' : Room) × (lookup code
          (handle_message s code id connection (SignalMessage.kick target)).0.rooms
        ≡ some r')
      × (r'.host ≡ id)
      × (lookup target r'.clients ≡ none)
      × ((j : ClientId) → j ≢ target → lookup j r'.clients ≡ lookup j r.clients)
      × ((handle_message s code id connection (SignalMessage.kick target)).1
          ≡ Output.push c.connection (SignalMessage.kicked "kicked by host")
            ∷ Output.closes c.connection
            ∷ pushes (SignalMessage.client_left target) none r'.clients)
unfolding update_room broadcast_signal
host_kicks s code id target connection r c e host other there =
    let (clients, host') = kicked_room r target c there in
    let found = lookup-modify_self code (kick_from target) s.rooms e in
    let whole = kick_by_host s code id target connection r c e host other there in
    (
      kick_from target r,
      rw whole found,
      host' ∙ host,
      rw clients (lookup-remove target target r.clients ∙ rw (==-self target) refl),
      (λ j ne.
          rw clients
            (lookup-remove target j r.clients ∙ rw (==-ne target j (λ p. ne (sym p))) refl)),
      rw (whole, found, broadcast_signal) refl,
    )

-- What a handler writes is in the room of its client.
other_room :
    (s : Server) (code j : String) (f : Room → Room)
    → code ≢ j
    → lookup j (update_room s code f).rooms ≡ lookup j s.rooms
unfolding update_room
other_room s code j f ne = lookup-modify code j f s.rooms ∙ rw (beq-ne code j ne) refl

-- No message of a client touches a room other than its own.
own_room :
    (s : Server) (code j : String) (id : ClientId) (connection : ℕ) (msg : SignalMessage)
    → code ≢ j
    → lookup j (handle_message s code id connection msg).0.rooms ≡ lookup j s.rooms
unfolding handle_message handle_mute handle_kick handle_server_mute handle_block
own_room s code j id connection (SignalMessage.mute muted) ne =
    ground (arith, other_room s code j (update_client id (λ c. record c { muted = muted })) ne)
own_room s code j id connection (SignalMessage.kick target) ne =
    ground (arith, other_room s code j (kick_from target) ne)
own_room s code j id connection (SignalMessage.server_mute target muted) ne =
    ground (
      arith,
      other_room s code j (update_client target (λ c. record c { server_muted = muted })) ne,
    )
own_room s code j id connection (SignalMessage.block_peer target) ne = other_room s code j _ ne
own_room s code j id connection (SignalMessage.unblock_peer target) ne = other_room s code j _ ne
own_room s code j id connection _ ne = refl

-- A room in which only one client was changed, and of it only what is its own to change: the host is
-- the same, every other client is as it was, and it has its name, its connection and its server-side
-- mute.
abbrev pub ChangesOwn : ClientId → Room → Room → Type 0
ChangesOwn id r r' =
    (r'.host ≡ r.host)
    × ((j : ClientId) → j ≢ id → lookup j r'.clients ≡ lookup j r.clients)
    × ((c : ClientState)
        → lookup id r.clients ≡ some c
        → (c' : ClientState) × (lookup id r'.clients ≡ some c')
          × (c'.display_name ≡ c.display_name)
          × (c'.connection ≡ c.connection)
          × (c'.server_muted ≡ c.server_muted))

module _ (s : Server) (code : String) (id : ClientId) (r : Room)
    (there : lookup code s.rooms ≡ some r) where
  -- The room is still there, so changed.
  abbrev Own : Server → Type 0
  Own s' = (r' : Room) × (lookup code s'.rooms ≡ some r') × ChangesOwn id r r'

  unchanged : Own s
  unchanged = (r, there, (refl, (λ j ne. refl), (λ c e. (c, e, refl, refl, refl))))

  -- A write to one's own state that leaves the name, the connection and the server-side mute.
  written :
      (f : ClientState → ClientState)
      → ((c : ClientState)
          → ((f c).display_name ≡ c.display_name)
            × ((f c).connection ≡ c.connection)
            × ((f c).server_muted ≡ c.server_muted))
      → Own (update_room s code (update_client id f))
  unfolding update_room update_client
  written f kept = (
    update_client id f r,
    lookup-modify_self code (update_client id f) s.rooms there,
    (
      refl,
      (λ j ne. lookup-modify id j f r.clients ∙ rw (==-ne id j (λ p. ne (sym p))) refl),
      (λ c e. let (a, b, d) = kept c in (f c, lookup-modify_self id f r.clients e, a, b, d)),
    ),
  )

  guest_changes :
      (connection : ℕ) (msg : SignalMessage)
      → r.host ≢ id
      → Own (handle_message s code id connection msg).0
  unfolding handle_message handle_mute handle_kick handle_server_mute handle_block is_host
  guest_changes connection (SignalMessage.mute muted) guest =
      elim (Bool-cases (is_present s code id)) [
        | inl present ↦
            rw (present, handle_mute)
              (written (λ c. record c { muted = muted }) (λ c. (refl, refl, refl)))
        | inr absent ↦ rw (absent, handle_mute) unchanged
      ]
  guest_changes connection (SignalMessage.kick target) guest =
      rw (there, ==-ne r.host id guest, handle_kick, is_host) unchanged
  guest_changes connection (SignalMessage.server_mute target muted) guest =
      rw (there, ==-ne r.host id guest, handle_server_mute, is_host) unchanged
  guest_changes connection (SignalMessage.block_peer target) guest =
      written (λ c. record c { blocked_peers = set_insert target c.blocked_peers })
        (λ c. (refl, refl, refl))
  guest_changes connection (SignalMessage.unblock_peer target) guest =
      written (λ c. record c { blocked_peers = set_remove target c.blocked_peers })
        (λ c. (refl, refl, refl))
  guest_changes connection _ guest = unchanged

-- Whatever message a client sends that is not the host of its room: no other room changes; its own
-- room is still there, with the same host and every other client as it was; and its own entry, if it
-- has one, keeps its name, its connection and its server-side mute.
pub guest_powerless :
    (s : Server) (code : String) (id : ClientId) (connection : ℕ) (msg : SignalMessage) (r : Room)
    → lookup code s.rooms ≡ some r
    → r.host ≢ id
    → ((other : String)
        → code ≢ other
        → lookup other (handle_message s code id connection msg).0.rooms ≡ lookup other s.rooms)
      × ((r' : Room) × (lookup code (handle_message s code id connection msg).0.rooms ≡ some r')
          × ChangesOwn id r r')
guest_powerless s code id connection msg r there guest = (
  (λ other ne. own_room s code other id connection msg ne),
  guest_changes s code id r there connection msg guest,
)
