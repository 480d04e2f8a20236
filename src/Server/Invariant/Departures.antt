-- ===== src/Server/Invariant/Departures.antt =====
-- One room: the host that a departure leaves.
use voicemcu.Base.{
  ℕ, ◌≤◌, ◌≡◌, ◌≢◌, refl, sym, ap, ◌∙◌, inl, inr, true, none, List, [], ◌∷◌, arith, ◌==◌, ==_iff,
  ==-self, ==-ne, Bool-cases, Option-cases,
}
use voicemcu.Base.Assoc.{ℕ_eq, lookup, remove, contains, lookup-remove}
use voicemcu.Protocol.{ClientId}
use voicemcu.Server.{ClientState, Room, swap_host, least_key, hand_host, transfer_host_from}
use voicemcu.Server.Session.{drop_client}
use voicemcu.Server.Invariant.{RoomOk}
use voicemcu.Server.Invariant.Rooms.{
  removed-RoomOk, drop_client-RoomOk, clients-try_send, host-try_send,
}

-- The least key is a key.
pub least_key-contains :
    (m : List (ClientId × ClientState)) → m ≢ [] → contains (least_key m) m ≡ true
unfolding least_key lookup
least_key-contains [] h = absurd (h refl)
least_key-contains ((k, c) ∷ []) h = ground (arith, ==-self k)
least_key-contains ((k, c) ∷ (j, d) ∷ m) h =
    ground (arith, least_key-contains ((j, d) ∷ m) (λ e. cc))

-- No key is less.
pub least_key-le :
    (m : List (ClientId × ClientState)) (j : ClientId) → contains j m ≡ true → least_key m ≤ j
unfolding least_key lookup
least_key-le [] j h = absurd cc
least_key-le ((k, c) ∷ []) j h = ground (arith, ==_iff k j, h)
least_key-le ((k, c) ∷ (i, d) ∷ m) j h = elim (Bool-cases (k == j)) [
  | inl here ↦ ground (arith, ==_iff k j, here)
  | inr other ↦
      let later = least_key-le ((i, d) ∷ m) j (ground (arith, other, h)) in ground (arith, later)
]

-- Nobody has the id 0.
no_zero : {limit next : ℕ} (r : Room) → RoomOk limit next r → lookup 0 r.clients ≡ none
no_zero r ok = elim (Option-cases (lookup 0 r.clients)) [
  | inl e ↦ e
  | inr (c, e) ↦ absurd (omega (arith, (ok.ids 0 c e).0))
]

contains-none :
    (k : ClientId) (m : List (ClientId × ClientState)) → lookup k m ≡ none → contains k m ≢ true
contains-none k m h e = ground (arith, h)

no_zero_key : (m : List (ClientId × ClientState)) → lookup 0 m ≡ none → least_key m ≡ 0 → m ≡ []
no_zero_key [] h e = refl
no_zero_key (x ∷ m) h e =
    let found : contains 0 (x ∷ m) ≡ true =
      ap (λ k. contains k (x ∷ m)) (sym e) ∙ least_key-contains (x ∷ m) (λ n. cc) in
    absurd (contains-none 0 (x ∷ m) h found)

-- A candidate of 0 means that nobody is left.
nobody_left :
    {limit next : ℕ} (r : Room) (id : ClientId)
    → RoomOk limit next r
    → least_key (remove id r.clients) ≡ 0
    → remove id r.clients ≡ []
nobody_left r id ok e =
    no_zero_key (remove id r.clients) (ground (arith, lookup-remove id 0 r.clients, no_zero r ok)) e

-- The host that is handed on is the least key that is left, or none.
handed-RoomOk :
    {limit next : ℕ} (r r' : Room) (id : ClientId)
    → RoomOk limit next r
    → r'.clients ≡ remove id r.clients
    → r'.host ≡ least_key (remove id r.clients)
    → RoomOk limit next r'
unfolding least_key
handed-RoomOk r r' id ok e h =
    removed-RoomOk r r' id ok e
      (λ set. rw (e, h) (least_key-contains (remove id r.clients) (λ n. set (h ∙ ap least_key n))))
      (λ some_client n. some_client (e ∙ nobody_left r id ok (sym h ∙ n)))

-- `transfer_host_from`, on both of its branches.
pub transfer_host-passed :
    (r : Room) (id : ClientId)
    → r.host ≡ id
    → ((transfer_host_from r id).0.clients ≡ r.clients)
      × ((transfer_host_from r id).0.host ≡ least_key r.clients)
unfolding transfer_host_from hand_host swap_host
transfer_host-passed r id e = ground (arith, e)

pub transfer_host-kept : (r : Room) (id : ClientId) → r.host ≢ id → (transfer_host_from r id).0 ≡ r
unfolding transfer_host_from
transfer_host-kept r id ne = rw (==-ne r.host id ne) refl

pub clients-drop_client :
    (r : Room) (id : ClientId) → (drop_client id r).clients ≡ remove id r.clients
unfolding drop_client
clients-drop_client r id = clients-try_send _ _

pub host-drop_client : (r : Room) (id : ClientId) → (drop_client id r).host ≡ r.host
unfolding drop_client
host-drop_client r id = host-try_send _ _

-- The departure of any client: the room without it, and the host passed on if it was the host.
pub leave-RoomOk :
    {limit next : ℕ} (r : Room) (id : ClientId)
    → RoomOk limit next r
    → RoomOk limit next (transfer_host_from (drop_client id r) id).0
leave-RoomOk r id ok = elim (Bool-cases (r.host == id)) [
  | inl was_host ↦
      let passed =
        transfer_host-passed (drop_client id r) id
          (host-drop_client r id ∙ (==_iff r.host id).0 was_host) in
      handed-RoomOk r _ id ok (passed.0 ∙ clients-drop_client r id)
        (passed.1 ∙ ap least_key (clients-drop_client r id))
  | inr other ↦
      let ne : r.host ≢ id = λ e. ground (arith, e) in
      rw (transfer_host-kept (drop_client id r) id (λ e. ne (sym (host-drop_client r id) ∙ e)))
        (drop_client-RoomOk r id ne ok)
]
