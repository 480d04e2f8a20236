-- ===== src/Mix/Tick/Others.antt =====
-- The commands about other clients leave the numbers of a client as they are.
use voicemcu.Base.{
  ℕ, ◌≢◌, inl, inr, Option, none, some, List, [], ◌∷◌, ◌==◌, arith, Result-cases, Bool-cases,
}
use voicemcu.Base.Assoc.{ℕ_eq, String_eq, insert, remove}
use voicemcu.Protocol.{ClientId}
use voicemcu.Config.{ServerConfig}
use voicemcu.Audio.{Float}
use voicemcu.Codec.{Opus, new_encoder, new_decoder}
use voicemcu.Server.{MixCommand, add_client, remove_client}
use voicemcu.Mix.{MixClientState, MixClients, or_same, apply_command, apply_commands}
use voicemcu.Mix.Tick.Numbering.{IsAboutOther, AllOther, Without, IsNext}

module _ (f : Float) (opus : Opus f.Sample) (dest : ClientId) where
  insert-Without :
      (id : ClientId) (ms : MixClientState f opus) (clients : MixClients f opus)
      → id ≢ dest
      → Without f opus dest clients
      → Without f opus dest (insert id ms clients)
  unfolding insert
  insert-Without id ms [] ne w = (ne, tt)
  insert-Without id ms ((j, x) ∷ clients) ne w = elim (Bool-cases (j == id)) [
    | inl same ↦ rw same w
    | inr other ↦ rw other (w.0, insert-Without id ms clients ne w.1)
  ]

  insert-IsNext :
      (k : ℕ) (id : ClientId) (ms : MixClientState f opus) (clients : MixClients f opus)
      → id ≢ dest
      → IsNext f opus dest k clients
      → IsNext f opus dest k (insert id ms clients)
  unfolding insert
  insert-IsNext k id ms [] ne n = absurd n
  insert-IsNext k id ms ((j, x) ∷ clients) ne n = elim (Bool-cases (j == id)) [
    | inl same ↦ elim n [
      | inl (here, next, w) ↦ absurd (ne (ground (arith, same, here)))
      | inr (other, rest) ↦ rw same (inr (other, rest))
    ]
    | inr differs ↦ elim n [
      | inl (here, next, w) ↦ rw differs (inl (here, next, insert-Without id ms clients ne w))
      | inr (other, rest) ↦ rw differs (inr (other, insert-IsNext k id ms clients ne rest))
    ]
  ]

  remove-Without :
      (id : ClientId) (clients : MixClients f opus)
      → Without f opus dest clients
      → Without f opus dest (remove id clients)
  unfolding remove
  remove-Without id [] w = w
  remove-Without id ((j, x) ∷ clients) w = elim (Bool-cases (j == id)) [
    | inl same ↦ rw same (remove-Without id clients w.1)
    | inr other ↦ rw other (w.0, remove-Without id clients w.1)
  ]

  remove-IsNext :
      (k : ℕ) (id : ClientId) (clients : MixClients f opus)
      → id ≢ dest
      → IsNext f opus dest k clients
      → IsNext f opus dest k (remove id clients)
  unfolding remove
  remove-IsNext k id [] ne n = absurd n
  remove-IsNext k id ((j, x) ∷ clients) ne n = elim (Bool-cases (j == id)) [
    | inl same ↦ elim n [
      | inl (here, next, w) ↦ absurd (ne (ground (arith, same, here)))
      | inr (other, rest) ↦ rw same (remove-IsNext k id clients ne rest)
    ]
    | inr differs ↦ elim n [
      | inl (here, next, w) ↦ rw differs (inl (here, next, remove-Without id clients w))
      | inr (other, rest) ↦ rw differs (inr (other, remove-IsNext k id clients ne rest))
    ]
  ]

  or_same-IsNext :
      (k : ℕ) (id : ClientId) (clients : MixClients f opus) (o : Option (MixClientState f opus))
      → id ≢ dest
      → IsNext f opus dest k clients
      → IsNext f opus dest k (or_same f opus clients id o)
  or_same-IsNext k id clients none ne n = n
  or_same-IsNext k id clients (some ms) ne n = insert-IsNext k id ms clients ne n

  apply_command-IsNext :
      (k : ℕ) (config : ServerConfig) (clients : MixClients f opus) (c : MixCommand)
      → IsAboutOther dest c
      → IsNext f opus dest k clients
      → IsNext f opus dest k (apply_command f opus config clients c)
  unfolding apply_command
  apply_command-IsNext k config clients (remove_client id) ne n = remove-IsNext k id clients ne n
  apply_command-IsNext k config clients (add_client id audio_rx) ne n =
      elim (Result-cases (new_decoder opus id)) [
        | inl (e, r) ↦ rw (r, apply_command) n
        | inr (decoder, r) ↦ elim (Result-cases (new_encoder opus id config.bitrate)) [
          | inl (e, q) ↦ rw (r, q, apply_command) n
          | inr (encoder, q) ↦ rw (r, q, apply_command) (or_same-IsNext k id clients _ ne n)
        ]
      ]

  pub apply_commands-IsNext :
      (k : ℕ) (config : ServerConfig) (clients : MixClients f opus) (commands : List MixCommand)
      → AllOther dest commands
      → IsNext f opus dest k clients
      → IsNext f opus dest k (apply_commands f opus config clients commands)
  unfolding apply_commands
  apply_commands-IsNext k config clients [] others n = n
  apply_commands-IsNext k config clients (c ∷ commands) others n =
      apply_commands-IsNext k config (apply_command f opus config clients c) commands others.1
        (apply_command-IsNext k config clients c others.0 n)
