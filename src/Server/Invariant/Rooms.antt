-- ===== src/Server/Invariant/Rooms.antt =====
-- One room: joining, leaving, kicking, and writes that keep the clients where they are.
use voicemcu.Base.{
  ℕ, suc, ◌≤◌, ◌<◌, ◌≡◌, ◌≢◌, refl, sym, ◌∙◌, ◌⊎◌, inl, inr, Bool, true, false, Option, none, some,
  List, [], ◌∷◌, arith, length, ◌==◌, ==-ne, Bool-cases, Option-cases,
}
use voicemcu.Base.Assoc.{
  ℕ_eq, lookup, insert, remove, modify, contains, lookup-insert, lookup-remove, lookup-modify,
  insert-IsUnique, remove-IsUnique, modify-IsUnique, length-insert, length-remove-le, length-modify,
  contains-insert, contains-remove, contains-modify,
}
use voicemcu.Protocol.{ClientId}
use voicemcu.Server.{ClientState, Room, swap_host, try_claim_host, try_send, MixCommand}
use voicemcu.Server.Session.{seat, drop_client, send_command}
use voicemcu.Server.Signaling.{update_client, kick_from}
use voicemcu.Server.Invariant.{RoomOk}

-- A new id is in no room.
fresh_id : {limit next : ℕ} (r : Room) → RoomOk limit next r → lookup next r.clients ≡ none
fresh_id {limit} {next} r ok = elim (Option-cases (lookup next r.clients)) [
  | inl e ↦ e
  | inr (c, e) ↦ absurd (omega (arith, (ok.ids next c e).1))
]

pub RoomOk-next :
    {limit next next' : ℕ} (r : Room) → next ≤ next' → RoomOk limit next r → RoomOk limit next' r
RoomOk-next r h ok = record {
  unique = ok.unique;
  sized = ok.sized;
  ids = λ id c e. let (low, high) = ok.ids id c e in (low, omega arith);
  host_present = ok.host_present;
  hosted = ok.hosted;
}

module _ {limit next : ℕ} (r : Room) (c : ClientState) (h : length r.clients < limit)
    (pos : 0 < next) (ok : RoomOk limit next r) where
  -- The room with the client in it, and a host that is the client or was there.
  seated-RoomOk :
      (host : ClientId)
      → (host ≡ next) ⊎ ((host ≡ r.host) × (r.host ≢ 0))
      → RoomOk limit (suc next) (record r { clients = insert next c r.clients; host = host })
  seated-RoomOk host from = record {
    unique = insert-IsUnique next c r.clients ok.unique;
    sized = ground (arith, length-insert next c r.clients, fresh_id r ok);
    ids = λ id x e. ground (arith, lookup-insert next id c r.clients, ok.ids id x);
    host_present =
        λ set. ground (arith, contains-insert next host c r.clients, ok.host_present, from);
    hosted = λ some_client. ground (arith, from);
  }

  pub seat-RoomOk : (is_new_room : Bool) → RoomOk limit (suc next) (seat r next c is_new_room).0
  unfolding seat try_claim_host swap_host
  seat-RoomOk true = seated-RoomOk next (inl refl)
  seat-RoomOk false = elim (Bool-cases (r.host == 0)) [
    | inl vacant ↦ rw (vacant, seat) (seated-RoomOk next (inl refl))
    | inr taken ↦ rw (taken, seat) (seated-RoomOk r.host (inr (refl, ground arith)))
  ]

-- Commands in the queue are no part of it.
pub send_command-RoomOk :
    {limit next : ℕ} (r : Room) (c : MixCommand)
    → RoomOk limit next r
    → RoomOk limit next (send_command c r)
unfolding send_command
send_command-RoomOk r c ok = record {
  unique = ok.unique;
  sized = ok.sized;
  ids = ok.ids;
  host_present = ok.host_present;
  hosted = ok.hosted;
}

-- A write to one client keeps the clients and the host.
modify-nonempty :
    (id : ClientId) (f : ClientState → ClientState) (m : List (ClientId × ClientState))
    → modify id f m ≢ []
    → m ≢ []
unfolding modify
modify-nonempty id f [] h = h
modify-nonempty id f (x ∷ m) h = λ e. cc

pub update_client-RoomOk :
    {limit next : ℕ} (r : Room) (id : ClientId) (f : ClientState → ClientState)
    → RoomOk limit next r
    → RoomOk limit next (update_client id f r)
unfolding update_client
update_client-RoomOk {limit} {next} r id f ok = record {
  unique = modify-IsUnique id f r.clients ok.unique;
  sized = omega (arith, length-modify id f r.clients);
  ids = λ j c e. ids j c (lookup j r.clients) refl e;
  host_present = λ set. contains-modify id r.host f r.clients ∙ ok.host_present set;
  hosted = λ some_client. ok.hosted (modify-nonempty id f r.clients some_client);
}
  where
    ids :
        (j : ClientId) (c : ClientState) (o : Option ClientState)
        → lookup j r.clients ≡ o
        → lookup j (modify id f r.clients) ≡ some c
        → (0 < j) × (j < next)
    ids j c none e k = absurd (ground (arith, lookup-modify id j f r.clients))
    ids j c (some x) e k = ok.ids j x e

-- The invariant reads the clients and the host.
RoomOk-fields :
    {limit next : ℕ} (r r' : Room)
    → r'.clients ≡ r.clients
    → r'.host ≡ r.host
    → RoomOk limit next r
    → RoomOk limit next r'
RoomOk-fields r r' e h ok = record {
  unique = rw e ok.unique;
  sized = rw e ok.sized;
  ids = rw e ok.ids;
  host_present = rw (e, h) ok.host_present;
  hosted = rw (e, h) ok.hosted;
}

pub clients-try_send : (r : Room) (c : MixCommand) → (try_send r c).clients ≡ r.clients
unfolding try_send
clients-try_send r c = ground arith

pub host-try_send : (r : Room) (c : MixCommand) → (try_send r c).host ≡ r.host
unfolding try_send
host-try_send r c = ground arith

remove-nonempty : (id : ClientId) (m : List (ClientId × ClientState)) → remove id m ≢ [] → m ≢ []
unfolding remove
remove-nonempty id [] h = h
remove-nonempty id (x ∷ m) h = λ e. cc

-- A room without one client, under a host that is still right for it.
pub removed-RoomOk :
    {limit next : ℕ} (r r' : Room) (id : ClientId)
    → RoomOk limit next r
    → r'.clients ≡ remove id r.clients
    → (r'.host ≢ 0 → contains r'.host r'.clients ≡ true)
    → (r'.clients ≢ [] → r'.host ≢ 0)
    → RoomOk limit next r'
removed-RoomOk r r' id ok e present hosted = record {
  unique = rw e (remove-IsUnique id r.clients ok.unique);
  sized = rw e (omega (arith, length-remove-le id r.clients, ok.sized));
  ids = λ j c k. ground (arith, lookup-remove id j r.clients, e, ok.ids j c);
  host_present = present;
  hosted = hosted;
}

-- Removal of a client that is not the host.
pub drop_client-RoomOk :
    {limit next : ℕ} (r : Room) (id : ClientId)
    → r.host ≢ id
    → RoomOk limit next r
    → RoomOk limit next (drop_client id r)
unfolding drop_client
drop_client-RoomOk r id ne ok =
    RoomOk-fields removed _ (clients-try_send removed _) (host-try_send removed _) (
      removed-RoomOk r removed id ok refl
        (λ set.
          contains-remove id r.host r.clients
          ∙ rw (==-ne id r.host (λ e. ne (sym e))) (ok.host_present set))
        (λ some_client. ok.hosted (remove-nonempty id r.clients some_client)))
  where
    removed : Room
    removed = record r { clients = remove id r.clients }

pub kick_from-RoomOk :
    {limit next : ℕ} (r : Room) (target : ClientId)
    → r.host ≢ target
    → RoomOk limit next r
    → RoomOk limit next (kick_from target r)
unfolding kick_from
kick_from-RoomOk r target ne ok = elim (Option-cases (lookup target r.clients)) [
  | inl e ↦ rw (e, kick_from) ok
  | inr (c, e) ↦ rw (e, kick_from) (drop_client-RoomOk r target ne ok)
]
