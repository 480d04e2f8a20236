-- ===== src/Server/Membership.antt =====
-- server/src/main.rs, `handle_connection`, and server/src/room.rs: what joining and leaving do.
use Prim.Native.String.{String}
use voicemcu.Base.{
  ℕ, ◌≤◌, ◌≡◌, ◌≢◌, refl, sym, ap, [], ◌∙◌, inl, inr, true, none, some, arith, if◌then◌else◌, ◌==◌,
  ==_iff, ==-ne, ==-self, Bool-cases,
}
use voicemcu.Base.Assoc.{
  ℕ_eq, String_eq, lookup, insert, modify, remove, contains, lookup-modify, lookup-insert,
  lookup-insert_self, lookup-remove, beq-ne,
}
use voicemcu.Protocol.{ClientId}
use voicemcu.Server.{Room, Server, least_key, transfer_host_from}
use voicemcu.Server.Session.{is_present, drop_client, depart, disconnect}
use voicemcu.Server.Invariant.Departures.{
  least_key-contains, least_key-le, clients-drop_client, host-drop_client, transfer_host-passed,
  transfer_host-kept,
}
use voicemcu.Server.Invariant.Leaving.{depart_found}

-- The room that a departure leaves.
left_fields :
    (r : Room) (id : ClientId)
    → ((transfer_host_from (drop_client id r) id).0.clients ≡ remove id r.clients)
      × ((transfer_host_from (drop_client id r) id).0.host ≡ (
          if r.host == id
          then least_key (transfer_host_from (drop_client id r) id).0.clients
          else r.host))
left_fields r id = elim (Bool-cases (r.host == id)) [
  | inl was ↦
      let passed =
        transfer_host-passed (drop_client id r) id
          (host-drop_client r id ∙ (==_iff r.host id).0 was) in
      (passed.0 ∙ clients-drop_client r id, passed.1 ∙ ap least_key (sym passed.0) ∙ rw was refl)
  | inr other ↦
      let ne : r.host ≢ id = λ e. ground (arith, e) in
      let kept =
        transfer_host-kept (drop_client id r) id (λ e. ne (sym (host-drop_client r id) ∙ e)) in
      (
        ap (λ x. x.clients) kept ∙ clients-drop_client r id,
        ap (λ x. x.host) kept ∙ host-drop_client r id ∙ rw other refl,
      )
]

disconnect_present :
    (s : Server) (code : String) (id : ClientId) (connection : ℕ)
    → is_present s code id ≡ true
    → (disconnect s code id connection).0 ≡ (depart s code id).0
unfolding disconnect
disconnect_present s code id connection there = rw (there, disconnect) refl

is_present-room :
    (s : Server) (code : String) (id : ClientId) (r : Room)
    → lookup code s.rooms ≡ some r
    → contains id r.clients ≡ true
    → is_present s code id ≡ true
is_present-room s code id r e there = rw (e, is_present) there

-- The end of a handler whose client is still in its room takes exactly that client out: every
-- other client stays as it was, and no other room is touched. If the client that left was the host,
-- then the host is one of the clients that are left, with the least id of them, or 0 in an empty room;
-- else it is the one it was.
pub disconnect_removes :
    (s : Server) (code : String) (id : ClientId) (connection : ℕ) (r : Room)
    → lookup code s.rooms ≡ some r
    → contains id r.clients ≡ true
    → (r' : Room) × (lookup code (disconnect s code id connection).0.rooms ≡ some r')
      × (lookup id r'.clients ≡ none)
      × ((j : ClientId) → j ≢ id → lookup j r'.clients ≡ lookup j r.clients)
      × (r.host ≡ id → r'.clients ≢ [] → contains r'.host r'.clients ≡ true)
      × (r.host ≡ id → (j : ClientId) → contains j r'.clients ≡ true → r'.host ≤ j)
      × (r.host ≡ id → r'.clients ≡ [] → r'.host ≡ 0)
      × (r.host ≢ id → r'.host ≡ r.host)
      × ((other : String)
          → code ≢ other
          → lookup other (disconnect s code id connection).0.rooms ≡ lookup other s.rooms)
unfolding least_key
disconnect_removes s code id connection r e present = (
  left,
  rw whole (lookup-insert_self code left _),
  rw clients (lookup-remove id id r.clients ∙ rw (==-self id) refl),
  (λ j ne. rw clients (lookup-remove id j r.clients ∙ rw (==-ne id j (λ p. ne (sym p))) refl)),
  (λ was some_left. rw (passed was) (least_key-contains left.clients some_left)),
  (λ was j there. rw (passed was) (least_key-le left.clients j there)),
  (λ was empty. passed was ∙ ap least_key empty),
  (λ other. fields.1 ∙ rw (==-ne r.host id other) refl),
  (λ other ne. rw whole (
      lookup-insert code other left (modify code (drop_client id) s.rooms)
      ∙ rw (beq-ne code other ne)
          (lookup-modify code other (drop_client id) s.rooms ∙ rw (beq-ne code other ne) refl))),
)
  where
    left : Room
    left = (transfer_host_from (drop_client id r) id).0

    fields :
        (left.clients ≡ remove id r.clients)
        × (left.host ≡ (if r.host == id then least_key left.clients else r.host))
    fields = left_fields r id

    passed : r.host ≡ id → left.host ≡ least_key left.clients
    passed was = fields.1 ∙ rw (was, ==-self id) refl

    clients : left.clients ≡ remove id r.clients
    clients = fields.0

    whole :
        (disconnect s code id connection).0
        ≡ (record s { rooms = insert code left (modify code (drop_client id) s.rooms) })
    whole =
        disconnect_present s code id connection (is_present-room s code id r e present)
        ∙ depart_found s code id r e
