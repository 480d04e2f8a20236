-- ===== src/Server/Joins.antt =====
-- server/src/main.rs, `handle_connection`: what a join that passed the checks does.
use Prim.Native.String.{String}
use voicemcu.Base.{
  ℕ, ◌≡◌, ◌≢◌, refl, sym, subst, ◌∙◌, Bool, true, false, Option, none, some, ok, arith,
  if◌then◌else◌, ◌==◌, ==-ne,
}
use voicemcu.Base.Assoc.{
  ℕ_eq, String_eq, lookup, insert, lookup-modify, lookup-modify_self, lookup-insert,
  lookup-insert_self, beq-ne,
}
use voicemcu.Protocol.{ClientId, SignalMessage}
use voicemcu.Server.{
  ClientState, new_client, Room, new_room, Server, next_id, update_room, try_claim_host, swap_host,
  add_client,
}
use voicemcu.Server.Session.{
  check_join, ensure_room, seat, send_command, enter, connect, ensure_room,
}
use voicemcu.Server.Invariant.Joining.{enter_lem, ensure_existing, ensure_vacant}

-- The room under a code, as a join finds it: there, or just made.
abbrev pub room_or_new : Server → String → Room
room_or_new s code = elim (lookup code s.rooms) [ none ↦ new_room | some r ↦ r ]

seat_fields :
    (r : Room) (id : ClientId) (state : ClientState) (is_new_room : Bool)
    → (is_new_room ≡ true → r.host ≡ 0)
    → ((seat r id state is_new_room).0.clients ≡ insert id state r.clients)
      × ((seat r id state is_new_room).0.host ≡ (if r.host == 0 then id else r.host))
unfolding seat try_claim_host swap_host
seat_fields r id state true vacant = (refl, rw (vacant refl) refl)
seat_fields r id state false vacant = (ground arith, ground arith)

-- What a join says of the server after it, for the room that it found.
abbrev pub Seats : Server → Server → String → Room → ClientId → ClientState → Type 0
Seats s after code r id state =
    (r' : Room) × (lookup code after.rooms ≡ some r')
    × (lookup id r'.clients ≡ some state)
    × ((j : ClientId) → j ≢ id → lookup j r'.clients ≡ lookup j r.clients)
    × (r'.host ≡ (if r.host == 0 then id else r.host))
    × ((other : String) → code ≢ other → lookup other after.rooms ≡ lookup other s.rooms)

enter-Seats :
    (s s' : Server) (connection : ℕ) (code name : String) (writable is_new_room : Bool) (r : Room)
    → ensure_room (next_id s).1 code ≡ (s', is_new_room)
    → lookup code s'.rooms ≡ some r
    → (is_new_room ≡ true → r.host ≡ 0)
    → ((other : String) → code ≢ other → lookup other s'.rooms ≡ lookup other s.rooms)
    → Seats s
        (enter s connection code name writable).0
        code
        r
        (next_id s).0
        (new_client name connection)
unfolding update_room send_command
enter-Seats s s' connection code name writable is_new_room r ensured e vacant others =
    let id = (next_id s).0 in
    let state = new_client name connection in
    let (clients, host) = seat_fields r id state is_new_room vacant in
    let whole = enter_lem s s' connection code name writable is_new_room r ensured e in
    let seated_room = (seat r id state is_new_room).0 in
    let written = insert code seated_room s'.rooms in
    let queue = send_command (add_client id connection) in
    (
      queue seated_room,
      rw whole
          (lookup-modify_self code queue written (lookup-insert_self code seated_room s'.rooms)),
      rw clients (lookup-insert_self id state r.clients),
      (λ j ne.
          rw clients (lookup-insert id j state r.clients ∙ rw (==-ne id j (λ p. ne (sym p))) refl)),
      host,
      (λ other ne. rw whole (
          lookup-modify code other queue written
          ∙ rw (beq-ne code other ne) (
              lookup-insert code other seated_room s'.rooms
              ∙ rw (beq-ne code other ne) (others other ne)))),
    )

room_or_new-vacant :
    (s : Server) (code : String) → lookup code s.rooms ≡ none → room_or_new s code ≡ new_room
room_or_new-vacant s code e = rw (e, room_or_new) refl

room_or_new-found :
    (s : Server) (code : String) (r : Room) → lookup code s.rooms ≡ some r → room_or_new s code ≡ r
room_or_new-found s code r e = rw (e, room_or_new) refl

-- A join that passes the checks seats the client, whatever becomes of its replies: the room, made
-- if it was not there, holds the client under the id that was drawn, with the state of a new
-- client; every other client of the room and every other room is as it was; and the host is the
-- client if the room had none, else the one it was.
pub connect-Seats :
    (s : Server) (connection : ℕ) (msg : SignalMessage) (writable : Bool) (code name : String)
    → check_join s msg ≡ ok (code, name)
    → Seats s
        (connect s connection msg writable).0
        code
        (room_or_new s code)
        (next_id s).0
        (new_client name connection)
unfolding connect next_id new_room
connect-Seats s connection msg writable code name checked =
    rw (checked, connect) (entered (lookup code s.rooms) refl)
  where
    entered :
        (found : Option Room)
        → lookup code s.rooms ≡ found
        → Seats s
            (enter s connection code name writable).0
            code
            (room_or_new s code)
            (next_id s).0
            (new_client name connection)
    entered none e =
        subst
          (λ x.
            Seats s (enter s connection code name writable).0 code x (next_id s).0
              (new_client name connection))
          (sym (room_or_new-vacant s code e))
          (enter-Seats s (record (next_id s).1 { rooms = insert code new_room s.rooms }) connection
            code name writable true new_room (ensure_vacant (next_id s).1 code e)
            (lookup-insert_self code new_room s.rooms) (λ p. refl)
            (λ other ne.
              lookup-insert code other new_room s.rooms ∙ rw (beq-ne code other ne) refl))
    entered (some r) e =
        subst
          (λ x.
            Seats s (enter s connection code name writable).0 code x (next_id s).0
              (new_client name connection))
          (sym (room_or_new-found s code r e))
          (enter-Seats s (next_id s).1 connection code name writable false r
            (ensure_existing (next_id s).1 code r e) e (λ p. absurd cc) (λ other ne. refl))
