-- ===== src/Tui/Commands/Sending.antt =====
-- client/src/tui.rs, `process_command`: what a client sends, and when.
use Prim.Native.Char.{code}
use Prim.Native.String.{String}
use voicemcu.Base.{
  ◌≡◌, refl, sym, ap, ◌∙◌, Bool, true, false, not, ◌||◌, Option, none, some, List, [], ◌∷◌, Result,
  ok, err, arith, if_all, if_split, ◌==◌, ==_iff,
}
use voicemcu.Protocol.{
  ClientId, SignalMessage, mute, kick, server_mute, block_peer, unblock_peer, leave,
}
use voicemcu.Tui.{AppState, PeerEntry, red, add_event, find_peer, one_match, named, has_peer}
use voicemcu.Tui.Text.{append, split_space, trim}
use voicemcu.Tui.Commands.{
  with_peer, host_command, block_command, mute_command, run_command, add_lines, help_lines,
  process_line, process_command, is, is_blank,
}

-- What a client in such a state may send: the moderation of a host only as a host, a peer only if it
-- is on the roster, a mute that is a toggle, a leave, and nothing else.
abbrev pub IsAllowed : Bool → Bool → List PeerEntry → Option SignalMessage → Type 0
IsAllowed host muted peers none = Unit {0}
IsAllowed host muted peers (some (kick t)) = (host ≡ true) × (has_peer t peers ≡ true)
IsAllowed host muted peers (some (server_mute t m)) = (host ≡ true) × (has_peer t peers ≡ true)
IsAllowed host muted peers (some (block_peer t)) = has_peer t peers ≡ true
IsAllowed host muted peers (some (unblock_peer t)) = has_peer t peers ≡ true
IsAllowed host muted peers (some (mute m)) = m ≡ not muted
IsAllowed host muted peers (some leave) = Unit {0}
IsAllowed host muted peers (some _) = ⊥

has_peer-named :
    (name : String) (ps : List PeerEntry) (p : PeerEntry) (qs : List PeerEntry)
    → named name ps ≡ p ∷ qs
    → has_peer p.client_id ps ≡ true
unfolding named has_peer
has_peer-named name [] p qs e = absurd cc
has_peer-named name (x ∷ ps) p qs e =
    ground (arith, has_peer-named name ps p qs, ==_iff x.client_id p.client_id, e)

one_match-has_peer :
    (qs : List PeerEntry) (name : String) (ps : List PeerEntry) (id : ClientId)
    → named name ps ≡ qs
    → one_match qs ≡ ok id
    → has_peer id ps ≡ true
unfolding one_match
one_match-has_peer [] name ps id k e = absurd cc
one_match-has_peer (p ∷ []) name ps id k e =
    let same : p.client_id ≡ id = cc in
    ap (λ i. has_peer i ps) (sym same) ∙ has_peer-named name ps p [] k
one_match-has_peer (p ∷ q ∷ qs) name ps id k e = absurd cc

find_peer-has_peer :
    (s : AppState) (name : String) (id : ClientId)
    → find_peer s name ≡ ok id
    → has_peer id s.peers ≡ true
unfolding find_peer
find_peer-has_peer s name id e =
    let by_name = one_match-has_peer (named name s.peers) name s.peers id refl in
    ground (arith, by_name, e)

-- The commands that name a peer.
with_peer-IsAllowed :
    (p : Option SignalMessage → Type 0) (note : ClientId → AppState → AppState)
    (message : ClientId → SignalMessage) (arg : String) (s : AppState)
    → ((t : ClientId) → has_peer t s.peers ≡ true → p (some (message t)))
    → p none
    → p (with_peer note message arg s).1
unfolding with_peer
with_peer-IsAllowed p note message arg s sent h = go (find_peer s arg) refl
  where
    go :
        (x : Result String ClientId)
        → find_peer s arg ≡ x
        → p
            (elim x as (λ y. AppState × Option SignalMessage) [
              | ok target ↦ (note target s, some (message target))
              | err reason ↦ (add_event (append reason (append ": " arg)) red s, none)
            ]).1
    go (ok t) e = sent t (find_peer-has_peer s arg t e)
    go (err reason) e = h

host_command-IsAllowed :
    (p : Option SignalMessage → Type 0) (usage refusal : String)
    (message : ClientId → SignalMessage) (arg : String) (s : AppState)
    → ((t : ClientId) → s.is_host ≡ true → has_peer t s.peers ≡ true → p (some (message t)))
    → p none
    → p (host_command usage refusal message arg s).1
unfolding host_command
host_command-IsAllowed p usage refusal message arg s sent h =
    if_all (λ (r : AppState × Option SignalMessage). p r.1) (is_blank arg) _ _ h
      (if_split (λ (r : AppState × Option SignalMessage). p r.1) (not s.is_host) _ _ (λ guest. h)
        (λ host.
          with_peer-IsAllowed p (λ target s'. s') message arg s (λ t. sent t (ground (arith, host)))
            h))

block_command-IsAllowed :
    (p : Option SignalMessage → Type 0) (usage verb : String) (message : ClientId → SignalMessage)
    (arg : String) (s : AppState)
    → ((t : ClientId) → has_peer t s.peers ≡ true → p (some (message t)))
    → p none
    → p (block_command usage verb message arg s).1
unfolding block_command
block_command-IsAllowed p usage verb message arg s sent h =
    if_all (λ (r : AppState × Option SignalMessage). p r.1) (is_blank arg) _ _ h
      (with_peer-IsAllowed p _ message arg s sent h)

run_command-IsAllowed :
    (cmd arg : String) (s : AppState)
    → IsAllowed s.is_host s.self_muted s.peers (run_command cmd arg s).1
unfolding run_command mute_command
run_command-IsAllowed cmd arg s = if_all q (is cmd "mute") (mute_command s) _ refl (
    if_all q (is cmd "kick")
      (host_command "usage: /kick <peer>" "only the host can kick" kick arg s) _
      (host_command-IsAllowed p _ _ kick arg s (λ t h k. (h, k)) tt)
      (if_all q (is cmd "forcemute")
        (host_command "usage: /forcemute <peer>" "only the host can force-mute" silence arg s) _
        (host_command-IsAllowed p _ _ silence arg s (λ t h k. (h, k)) tt)
        (if_all q (is cmd "forceunmute")
          (host_command "usage: /forceunmute <peer>" "only the host can force-unmute" unsilence arg
            s)
          _ (host_command-IsAllowed p _ _ unsilence arg s (λ t h k. (h, k)) tt)
          (if_all q (is cmd "block")
            (block_command "usage: /block <peer>" "blocked " block_peer arg s) _
            (block_command-IsAllowed p _ _ block_peer arg s (λ t k. k) tt)
            (if_all q (is cmd "unblock")
              (block_command "usage: /unblock <peer>" "unblocked " unblock_peer arg s) _
              (block_command-IsAllowed p _ _ unblock_peer arg s (λ t k. k) tt)
              (if_all q (is cmd "leave" || is cmd "quit" || is cmd "q")
                (record s { should_quit = true }, some leave) _ tt
                (if_all q (is cmd "help" || is cmd "?") (add_lines help_lines s, none)
                  (
                    add_event (append "unknown command: /" (append cmd " -- type /help")) red s,
                    none,
                  )
                  tt tt)))))))
  where
    p : Option SignalMessage → Type 0
    p = IsAllowed s.is_host s.self_muted s.peers

    q : AppState × Option SignalMessage → Type 0
    q r = p r.1

    silence : ClientId → SignalMessage
    silence t = server_mute t true

    unsilence : ClientId → SignalMessage
    unsilence t = server_mute t false

process_line-IsAllowed :
    (line : String) (s : AppState)
    → IsAllowed s.is_host s.self_muted s.peers (process_line line s).1
unfolding process_line
process_line-IsAllowed String.[] s = tt
process_line-IsAllowed (String.◌∷◌ c line) s =
    if_all (λ (r : AppState × Option SignalMessage). IsAllowed s.is_host s.self_muted s.peers r.1)
      (not (code c == 47)) _ _ tt
      (run_command-IsAllowed (split_space line).0 (trim (split_space line).1) s)

-- Whatever is typed, the client sends a kick or a server-side mute only if it is the host, names a
-- peer only if it is on the roster, sends a mute only as the reverse of its present one, and sends
-- nothing else but a request to leave.
pub process_command-IsAllowed :
    (s : AppState) → IsAllowed s.is_host s.self_muted s.peers (process_command s).1
unfolding process_command
process_command-IsAllowed s = process_line-IsAllowed (trim s.input) (record s { input = String.[] })
