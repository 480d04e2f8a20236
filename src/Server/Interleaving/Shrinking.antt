-- ===== src/Server/Interleaving/Shrinking.antt =====
-- What the messages and departures of clients do to the number of clients of each room.
use Prim.Native.String.{String}
use voicemcu.Base.{
  ℕ, ◌≤◌, ◌≡◌, refl, ◌∙◌, inl, inr, Bool, true, false, some, List, [], arith, length, if◌then◌else◌,
  ◌==◌, Bool-cases, Option-cases,
}
use voicemcu.Base.Assoc.{
  ℕ_eq, String_eq, lookup, insert, contains, lookup-insert, lookup-modify, lookup-modify_self,
  length-modify, length-remove-le,
}
use voicemcu.Protocol.{ClientId, SignalMessage}
use voicemcu.RateLimit.{TokenBucket, try_consume}
use voicemcu.Server.{ClientState, Room, Server, is_host, transfer_host_from, update_room}
use voicemcu.Server.Session.{is_present, drop_client, depart, disconnect}
use voicemcu.Server.Signaling.{
  update_client, kick_from, handle_mute, handle_kick, handle_server_mute, handle_block,
  handle_message, is_leave, signaling_turn,
}
use voicemcu.Server.Invariant.Departures.{
  transfer_host-passed, transfer_host-kept, clients-drop_client,
}
use voicemcu.Server.Invariant.Leaving.{depart_found, present_room}
use voicemcu.Server.Interleaving.{room_size}

-- No room is larger, and none is gone.
pub record Shrinks (s s' : Server) : Type 0 where
  pub same_config : s'.config ≡ s.config
  pub smaller : (code : String) → room_size s' code ≤ room_size s code
  pub kept : (code : String) → contains code s.rooms ≡ true → contains code s'.rooms ≡ true

pub Shrinks-self : (s : Server) → Shrinks s s
Shrinks-self s = record {
  same_config = refl;
  smaller = λ code. omega arith;
  kept = λ code there. there;
}

pub Shrinks-trans : {s s' s'' : Server} → Shrinks s s' → Shrinks s' s'' → Shrinks s s''
Shrinks-trans a b = record {
  same_config = b.same_config ∙ a.same_config;
  smaller = λ code. omega (arith, a.smaller code, b.smaller code);
  kept = λ code there. b.kept code (a.kept code there);
}

-- A write to one room.
pub update_room-Shrinks :
    (s : Server) (code : String) (f : Room → Room)
    → ((r : Room) → length (f r).clients ≤ length r.clients)
    → Shrinks s (update_room s code f)
unfolding update_room room_size
update_room-Shrinks s code f less = record {
  same_config = refl;
  smaller = λ other. elim (Option-cases (lookup other s.rooms)) [
    | inl e ↦ ground (arith, lookup-modify code other f s.rooms, e)
    | inr (r, e) ↦ ground (arith, lookup-modify code other f s.rooms, e, less r)
  ];
  kept = λ other there. ground (arith, lookup-modify code other f s.rooms, there);
}

pub put-Shrinks :
    (s : Server) (code : String) (r r' : Room)
    → lookup code s.rooms ≡ some r
    → length r'.clients ≤ length r.clients
    → Shrinks s (record s { rooms = insert code r' s.rooms })
unfolding room_size
put-Shrinks s code r r' e less = record {
  same_config = refl;
  smaller =
      λ other. ground (arith, lookup-insert code other r' s.rooms, e, String_eq.beq_iff code other);
  kept = λ other there. ground (arith, lookup-insert code other r' s.rooms, there);
}

update_client-length :
    (id : ClientId) (f : ClientState → ClientState) (r : Room)
    → length (update_client id f r).clients ≤ length r.clients
unfolding update_client
update_client-length id f r = omega (arith, length-modify id f r.clients)

drop_client-length :
    (id : ClientId) (r : Room) → length (drop_client id r).clients ≤ length r.clients
drop_client-length id r = rw (clients-drop_client r id) (length-remove-le id r.clients)

kick_from-length :
    (target : ClientId) (r : Room) → length (kick_from target r).clients ≤ length r.clients
unfolding kick_from
kick_from-length target r = elim (Option-cases (lookup target r.clients)) [
  | inl e ↦ rw (e, kick_from) (omega arith)
  | inr (c, e) ↦ rw (e, kick_from) (drop_client-length target r)
]

transfer_host-length :
    (r : Room) (id : ClientId) → length (transfer_host_from r id).0.clients ≤ length r.clients
transfer_host-length r id = elim (Bool-cases (r.host == id)) [
  | inl e ↦ rw (transfer_host-passed r id (ground (arith, e))).0 (omega arith)
  | inr ne ↦ rw (transfer_host-kept r id (λ p. ground (arith, ne))) (omega arith)
]

handle_mute-Shrinks :
    (s : Server) (code : String) (id : ClientId) (muted : Bool)
    → Shrinks s (handle_mute s code id muted).0
unfolding handle_mute
handle_mute-Shrinks s code id muted = elim (Bool-cases (is_present s code id)) [
  | inl there ↦
      rw (there, handle_mute) (update_room-Shrinks s code _ (λ r. update_client-length id _ r))
  | inr gone ↦ rw (gone, handle_mute) (Shrinks-self s)
]

handle_kick-Shrinks :
    (s : Server) (code : String) (id : ClientId) (connection : ℕ) (target : ClientId)
    → Shrinks s (handle_kick s code id connection target).0
unfolding handle_kick
handle_kick-Shrinks s code id connection target = elim (Option-cases (lookup code s.rooms)) [
  | inl e ↦ rw (e, handle_kick) (Shrinks-self s)
  | inr (r, e) ↦ elim (Bool-cases (is_host r id)) [
    | inr guest ↦ rw (e, guest, handle_kick) (Shrinks-self s)
    | inl host ↦ elim (Bool-cases (target == id)) [
      | inl self ↦ rw (e, host, self, handle_kick) (Shrinks-self s)
      | inr other ↦
          rw (e, host, other, handle_kick)
            (update_room-Shrinks s code _ (λ x. kick_from-length target x))
    ]
  ]
]

handle_server_mute-Shrinks :
    (s : Server) (code : String) (id : ClientId) (connection : ℕ) (target : ClientId) (muted : Bool)
    → Shrinks s (handle_server_mute s code id connection target muted).0
unfolding handle_server_mute
handle_server_mute-Shrinks s code id connection target muted =
    elim (Option-cases (lookup code s.rooms)) [
      | inl e ↦ rw (e, handle_server_mute) (Shrinks-self s)
      | inr (r, e) ↦ elim (Bool-cases (is_host r id)) [
        | inr guest ↦ rw (e, guest, handle_server_mute) (Shrinks-self s)
        | inl host ↦
            rw (e, host, handle_server_mute)
              (update_room-Shrinks s code _ (λ x. update_client-length target _ x))
      ]
    ]

handle_block-Shrinks :
    (s : Server) (code : String) (id : ClientId) (change : List ClientId → List ClientId)
    → Shrinks s (handle_block s code id change).0
unfolding handle_block
handle_block-Shrinks s code id change =
    update_room-Shrinks s code _ (λ x. update_client-length id _ x)

handle_message-Shrinks :
    (s : Server) (code : String) (id : ClientId) (connection : ℕ) (msg : SignalMessage)
    → Shrinks s (handle_message s code id connection msg).0
unfolding handle_message
handle_message-Shrinks s code id connection (SignalMessage.mute muted) =
    handle_mute-Shrinks s code id muted
handle_message-Shrinks s code id connection (SignalMessage.kick target) =
    handle_kick-Shrinks s code id connection target
handle_message-Shrinks s code id connection (SignalMessage.server_mute target muted) =
    handle_server_mute-Shrinks s code id connection target muted
handle_message-Shrinks s code id connection (SignalMessage.block_peer target) =
    handle_block-Shrinks s code id _
handle_message-Shrinks s code id connection (SignalMessage.unblock_peer target) =
    handle_block-Shrinks s code id _
handle_message-Shrinks s code id connection _ = Shrinks-self s

pub signaling_turn-Shrinks :
    (s : Server) (bucket : TokenBucket) (code : String) (id : ClientId) (connection now : ℕ)
    (msg : SignalMessage)
    → Shrinks s (signaling_turn s bucket code id connection now msg).server
unfolding signaling_turn
signaling_turn-Shrinks s bucket code id connection now msg = elim (Bool-cases (is_leave msg)) [
  | inl stops ↦ rw (stops, signaling_turn) (Shrinks-self s)
  | inr more ↦ elim (Bool-cases (try_consume bucket now).1) [
    | inl passed ↦
        rw (more, passed, signaling_turn) (handle_message-Shrinks s code id connection msg)
    | inr limited ↦ rw (more, limited, signaling_turn) (Shrinks-self s)
  ]
]

depart-Shrinks :
    (s : Server) (code : String) (id : ClientId) (r : Room)
    → lookup code s.rooms ≡ some r
    → Shrinks s (depart s code id).0
unfolding update_room
depart-Shrinks s code id r e = rw (depart_found s code id r e) (
    Shrinks-trans (update_room-Shrinks s code (drop_client id) (drop_client-length id)) (
      put-Shrinks (update_room s code (drop_client id)) code (drop_client id r) _
        (lookup-modify_self code (drop_client id) s.rooms e)
        (transfer_host-length (drop_client id r) id)))

pub disconnect-Shrinks :
    (s : Server) (code : String) (id : ClientId) (connection : ℕ)
    → Shrinks s (disconnect s code id connection).0
unfolding disconnect
disconnect-Shrinks s code id connection = ended (is_present s code id) refl
  where
    ended :
        (b : Bool)
        → is_present s code id ≡ b
        → Shrinks s (if b then depart s code id else (s, [])).0
    ended false gone = Shrinks-self s
    ended true there = let (r, e) = present_room s code id there in depart-Shrinks s code id r e
