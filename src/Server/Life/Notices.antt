-- ===== src/Server/Life/Notices.antt =====
-- Who is told of the shutdown.
use Prim.Native.String.{String}
use mathlib.Core.List.{Memᴰ}
use voicemcu.Base.{
  ◌≡◌, refl, sym, ap, ◌∙◌, inl, inr, none, some, List, [], ◌∷◌, ◌++◌, map, length, length-append,
  arith, Bool-cases, ◌==◌,
}
use voicemcu.Base.Assoc.{ℕ_eq, String_eq, lookup}
use voicemcu.Protocol.{ClientId, SignalMessage}
use voicemcu.Server.{Server, Room, ClientState, Output, pushes, farewells, shutdown}
use voicemcu.Server.Life.{sends, total_clients, shut_down}

abbrev pub notice : SignalMessage
notice = SignalMessage.error "server is shutting down"

Mem-append_left : {A : Type 0} (x : A) (xs ys : List A) → Memᴰ x xs → Memᴰ x (xs ++ ys)
Mem-append_left x [] ys h = elim h [ ]
Mem-append_left x (y ∷ xs) ys (Memᴰ.head e) = Memᴰ.head e
Mem-append_left x (y ∷ xs) ys (Memᴰ.tail h) = Memᴰ.tail (Mem-append_left x xs ys h)

Mem-append_right : {A : Type 0} (x : A) (xs ys : List A) → Memᴰ x ys → Memᴰ x (xs ++ ys)
Mem-append_right x [] ys h = h
Mem-append_right x (y ∷ xs) ys h = Memᴰ.tail (Mem-append_right x xs ys h)

Mem-map : {A B : Type 0} (f : A → B) (x : A) (xs : List A) → Memᴰ x xs → Memᴰ (f x) (map f xs)
Mem-map f x [] h = elim h [ ]
Mem-map f x (y ∷ xs) (Memᴰ.head e) = Memᴰ.head (ap f e)
Mem-map f x (y ∷ xs) (Memᴰ.tail h) = Memᴰ.tail (Mem-map f x xs h)

pushes-Mem :
    (msg : SignalMessage) (clients : List (ClientId × ClientState)) (id : ClientId)
    (c : ClientState)
    → lookup id clients ≡ some c
    → Memᴰ (Output.push c.connection msg) (pushes msg none clients)
unfolding pushes lookup
pushes-Mem msg [] id c h = absurd cc
pushes-Mem msg ((j, d) ∷ clients) id c h = elim (Bool-cases (j == id)) [
  | inl same ↦
      let here : d ≡ c = ground (arith, h, same) in
      Memᴰ.head (ap (λ (x : ClientState). Output.push x.connection msg) (sym here))
  | inr other ↦ Memᴰ.tail (pushes-Mem msg clients id c (ground (arith, h, other)))
]

length-pushes :
    (msg : SignalMessage) (clients : List (ClientId × ClientState))
    → length (pushes msg none clients) ≡ length clients
unfolding pushes
length-pushes msg [] = refl
length-pushes msg ((j, d) ∷ clients) = omega (arith, length-pushes msg clients)

farewells-Mem :
    (rooms : List (String × Room)) (code : String) (r : Room) (id : ClientId) (c : ClientState)
    → lookup code rooms ≡ some r
    → lookup id r.clients ≡ some c
    → Memᴰ (Output.push c.connection notice) (farewells rooms)
unfolding farewells lookup
farewells-Mem [] code r id c h k = absurd cc
farewells-Mem ((j, q) ∷ rooms) code r id c h k = elim (Bool-cases (String_eq.beq j code)) [
  | inl same ↦
      let here : q ≡ r = ground (arith, h, same) in
      Mem-append_left _ (pushes notice none q.clients) (farewells rooms)
        (pushes-Mem notice q.clients id c (ap (λ (x : Room). lookup id x.clients) here ∙ k))
  | inr other ↦
      Mem-append_right _ (pushes notice none q.clients) (farewells rooms)
        (farewells-Mem rooms code r id c (ground (arith, h, other)) k)
]

length-farewells : (rooms : List (String × Room)) → length (farewells rooms) ≡ total_clients rooms
unfolding farewells total_clients
length-farewells [] = refl
length-farewells ((j, q) ∷ rooms) = omega (
  arith,
  length-append (pushes notice none q.clients) (farewells rooms),
  length-pushes notice q.clients,
  length-farewells rooms,
)

-- Each client of each room is told.
pub shut_down-Mem :
    (s : Server) (code : String) (r : Room) (id : ClientId) (c : ClientState)
    → lookup code s.rooms ≡ some r
    → lookup id r.clients ≡ some c
    → Memᴰ (sends (Output.push c.connection notice)) (shut_down s)
unfolding shut_down shutdown
shut_down-Mem s code r id c h k =
    Mem-append_left _ (map sends (shutdown s)) _
      (Mem-map sends _ (farewells s.rooms) (farewells-Mem s.rooms code r id c h k))

-- As many notices as clients.
pub length-shutdown : (s : Server) → length (shutdown s) ≡ total_clients s.rooms
unfolding shutdown
length-shutdown s = length-farewells s.rooms
