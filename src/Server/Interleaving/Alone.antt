-- ===== src/Server/Interleaving/Alone.antt =====
-- A join with nothing between its stretches.
use Prim.Native.String.{String}
use mathlib.Core.List.{append-nil}
use voicemcu.Base.{
  ℕ, ◌≡◌, refl, sym, ap, ◌∙◌, inl, inr, Bool, true, false, some, List, [], ◌∷◌, ◌++◌, Result, ok,
  err, length, Option-cases,
}
use voicemcu.Base.Assoc.{ℕ_eq, String_eq, lookup, insert, lookup-insert_self, insert-insert}
use voicemcu.Protocol.{ClientId, SignalMessage}
use voicemcu.Server.{ClientState, new_client, Room, new_room, Server, next_id}
use voicemcu.Server.Session.{check_join, ensure_room, seat, enter, connect}
use voicemcu.Server.Invariant.Joining.{ensure_existing, ensure_vacant, register_found}
use voicemcu.Server.Interleaving.{
  Phase, arrived, checked, numbered, roomed, placed, claimed, over, claim, put_client, place,
  claim_in, advance, world, unroll,
}
use voicemcu.Server.Interleaving.Stretches.{
  Unheld, repeat, stretches, unroll-stretches, repeat-step, repeat-over,
}

-- The two stretches under the guard make the one write of `register`.
seat-claim :
    (r : Room) (id : ClientId) (state : ClientState) (is_new_room : Bool)
    → seat r id state is_new_room ≡ claim (put_client id state r) id is_new_room
unfolding seat claim put_client
seat-claim r id state is_new_room = refl

pub claim_in-placed :
    (s : Server) (code : String) (id : ClientId) (state : ClientState) (is_new_room : Bool)
    (r : Room)
    → claim_in
        (record s { rooms = insert code (put_client id state r) s.rooms })
        code
        id
        is_new_room
      ≡ (
        record s { rooms = insert code (seat r id state is_new_room).0 s.rooms },
        (seat r id state is_new_room).1,
      )
unfolding claim_in
claim_in-placed s code id state is_new_room r =
    rw
      (
        lookup-insert_self code (put_client id state r) s.rooms,
        claim_in,
        seat-claim r id state is_new_room,
        insert-insert code (put_client id state r) (claim (put_client id state r) id is_new_room).0
            s.rooms,
      )
      refl

place_found :
    (s : Server) (code : String) (id : ClientId) (state : ClientState) (r : Room)
    → lookup code s.rooms ≡ some r
    → place s code id state
      ≡ some (record s { rooms = insert code (put_client id state r) s.rooms })
unfolding place
place_found s code id state r e = rw (e, place) refl

module _ (connection : ℕ) (code name : String) (id : ClientId) (writable is_new_room : Bool) where
  pub advance-roomed :
      (s : Server) (r : Room)
      → lookup code s.rooms ≡ some r
      → advance writable s (roomed connection code name id is_new_room) ≡ (
        record s { rooms = insert code (put_client id (new_client name connection) r) s.rooms },
        placed connection code name id is_new_room,
      )
  unfolding advance
  advance-roomed s r e = rw (place_found s code id (new_client name connection) r e, advance) refl

  pub advance-placed :
      (s s' : Server) (became_host : Bool)
      → claim_in s code id is_new_room ≡ (s', became_host)
      → advance writable s (placed connection code name id is_new_room)
        ≡ (s', claimed connection code name id is_new_room became_host)
  unfolding advance
  advance-placed s s' became_host e = rw (e, advance) refl

-- How `enter` ends in a room that is there.
enter_from :
    (s s' : Server) (connection : ℕ) (code name : String) (writable is_new_room : Bool) (r : Room)
    → ensure_room (next_id s).1 code ≡ (s', is_new_room)
    → lookup code s'.rooms ≡ some r
    → repeat 2 writable
        (record s' {
          rooms =
              insert code
                (seat r (next_id s).0 (new_client name connection) is_new_room).0
                s'.rooms;
        })
        (claimed connection code name
          (next_id s).0
          is_new_room
          (seat r (next_id s).0 (new_client name connection) is_new_room).1)
      ≡ ((enter s connection code name writable).0, over (enter s connection code name writable).1)
unfolding repeat advance enter
enter_from s s' connection code name true is_new_room r ensured e =
    rw
      (
        ensured,
        register_found s' code (next_id s).0 (new_client name connection) is_new_room r e,
        enter,
        ensured,
      )
      refl
enter_from s s' connection code name false is_new_room r ensured e =
    rw
      (
        ensured,
        register_found s' code (next_id s).0 (new_client name connection) is_new_room r e,
        enter,
      )
      refl

-- From the creation of the room on.
from_room :
    (s s' : Server) (connection : ℕ) (code name : String) (writable is_new_room : Bool) (r : Room)
    → ensure_room (next_id s).1 code ≡ (s', is_new_room)
    → lookup code s'.rooms ≡ some r
    → repeat 6 writable s (checked connection code name)
      ≡ ((enter s connection code name writable).0, over (enter s connection code name writable).1)
unfolding repeat advance
from_room s s' connection code name writable is_new_room r ensured e =
    let id = (next_id s).0 in
    let state = new_client name connection in
    repeat-step 4 writable (next_id s).1 s' (numbered connection code name id)
      (roomed connection code name id is_new_room) (rw (ensured, advance) refl)
    ∙ repeat-step 3 writable s' _ (roomed connection code name id is_new_room) _
        (advance-roomed connection code name id writable is_new_room s' r e)
    ∙ repeat-step 2 writable (record s' { rooms = insert code (put_client id state r) s'.rooms }) _
        (placed connection code name id is_new_room) _
        (advance-placed connection code name id writable is_new_room _ _ _
          (claim_in-placed s' code id state is_new_room r))
    ∙ enter_from s s' connection code name writable is_new_room r ensured e

from_check :
    (s : Server) (connection : ℕ) (code name : String) (writable : Bool)
    → repeat 6 writable s (checked connection code name)
      ≡ ((enter s connection code name writable).0, over (enter s connection code name writable).1)
unfolding next_id new_room
from_check s connection code name writable = elim (Option-cases (lookup code s.rooms)) [
  | inl e ↦
      from_room s (record (next_id s).1 { rooms = insert code new_room s.rooms }) connection code
        name writable true new_room (ensure_vacant (next_id s).1 code e)
        (lookup-insert_self code new_room s.rooms)
  | inr (r, e) ↦
      from_room s (next_id s).1 connection code name writable false r
        (ensure_existing (next_id s).1 code r e) e
]

repeat-arrived :
    (s : Server) (connection : ℕ) (msg : SignalMessage) (writable : Bool)
    → repeat 7 writable s (arrived connection msg)
      ≡ ((connect s connection msg writable).0, over (connect s connection msg writable).1)
unfolding connect advance
repeat-arrived s connection msg writable = by_check (check_join s msg) refl
  where
    by_check :
        (x : Result String (String × String))
        → check_join s msg ≡ x
        → repeat 7 writable s (arrived connection msg)
          ≡ ((connect s connection msg writable).0, over (connect s connection msg writable).1)
    by_check (err reason) e =
        rw (e, connect)
          (repeat-step 6 writable s s (arrived connection msg) _ (rw (e, advance) refl)
            ∙ repeat-over 6 writable s _)
    by_check (ok (code, name)) e =
        rw (e, connect)
          (repeat-step 6 writable s s (arrived connection msg) _ (rw (e, advance) refl)
            ∙ from_check s connection code name writable)

-- A join whose stretches run with nothing between them, while no other join holds a guard, is the
-- whole handler in one step: seven moves of its task give the server and the outcome of `connect`, and
-- leave the joins before and after it as they are.
unroll-connect :
    (s : Server) (connection : ℕ) (msg : SignalMessage) (writable : Bool)
    (before after : List Phase)
    → Unheld before
    → Unheld after
    → unroll
        (world s (before ++ (arrived connection msg ∷ after)))
        (stretches (length before) 7 writable)
      ≡ world
          (connect s connection msg writable).0
          (before ++ (over (connect s connection msg writable).1 ∷ after))
unfolding unroll
unroll-connect s connection msg writable before after b a =
    ap (unroll (world s (before ++ (arrived connection msg ∷ after))))
      (sym (append-nil (stretches (length before) 7 writable)))
    ∙ unroll-stretches 7 writable s before (arrived connection msg) after [] b a
    ∙ rw (repeat-arrived s connection msg writable) refl
