-- ===== src/Daemon/Sessions.antt =====
-- What an incoming message can do to a node, whoever sends it.
use relaymeshnet.Base.{ℕ, ◌<◌, ◌≡◌, ◌⊎◌, ◌↔◌, inl, inr, refl, sym, ◌∙◌, arith, false, List}
use relaymeshnet.Base.{
  Option, none, some, length, drop, ltb, if◌then◌else◌, bytes_eq, Bool-cases, Option-cases,
}
use relaymeshnet.Base.Maps.{lookup, insert, lookup-insert}
use relaymeshnet.Crypto.{Primitives, generate_dh}
use relaymeshnet.Crypto.Ratchet.{
  Suite, RatchetState, Outcome, plain, packet_too_short, not_authentic, nil_keypair,
}
use relaymeshnet.Crypto.Ratchet.{decrypt}
use relaymeshnet.Daemon.{Json, Node, PeerSession, Handled, handled, panic, x3dh_init, chat}
use relaymeshnet.Daemon.{handle_incoming, handle_chat, handle_x3dh_receive, after_decrypt}

-- The keys and the identity are those of before, and so is the session of `j`.
pub record Keeps (j : List ℕ) (n n' : Node) : Type 0 where
  pub session : lookup j n'.peers ≡ lookup j n.peers
  pub identity : n'.identity ≡ n.identity
  pub peer_id : n'.peer_id ≡ n.peer_id
  pub spk : n'.spk ≡ n.spk
  pub pre_keys : n'.pre_keys ≡ n.pre_keys

abbrev pub AllKeep : List ℕ → Node → Handled → Type 0
AllKeep j n (handled n' text) = Keeps j n n'
AllKeep j n panic = Unit

module _ (j id : List ℕ) (n : Node) (apart : bytes_eq id j ≡ false) where
  kept : Keeps j n n
  kept = record { session = refl; identity = refl; peer_id = refl; spk = refl; pre_keys = refl }

  insert-Keeps : (s : PeerSession) → Keeps j n (record n { peers = insert id s n.peers })
  insert-Keeps s = record {
    session = lookup-insert id j s n.peers ∙ rw (apart) refl;
    identity = refl;
    peer_id = refl;
    spk = refl;
    pre_keys = refl;
  }

  module _ (prim : Primitives) (suite : Suite) (json : Json) where
    after_decrypt-AllKeep :
        (s : PeerSession) (r : RatchetState × Outcome)
        → AllKeep j n (after_decrypt prim suite json id s n r)
    after_decrypt-AllKeep s (r, plain text) = elim (Bool-cases (ltb (length id) 8)) [
      | inl short ↦ rw (short) tt
      | inr long ↦ rw (long) (insert-Keeps _)
    ]
    after_decrypt-AllKeep s (r, packet_too_short) = insert-Keeps _
    after_decrypt-AllKeep s (r, not_authentic) = insert-Keeps _
    after_decrypt-AllKeep s (r, nil_keypair) = tt

    handle_chat-AllKeep :
        (draw : Option (List ℕ)) (raw : List ℕ)
        → AllKeep j n (handle_chat prim suite json draw id raw n)
    unfolding handle_chat
    handle_chat-AllKeep draw raw = elim (Option-cases (lookup id n.peers)) [
      | inl e ↦ elim (Bool-cases (ltb (length id) 8)) [
        | inl short ↦ rw (e, handle_chat, short) tt
        | inr long ↦ rw (e, handle_chat, long) kept
      ]
      | inr (s, e) ↦ elim (Bool-cases (ltb (length raw) 34)) [
        | inl short ↦ rw (e, handle_chat, short) tt
        | inr long ↦ rw (e, handle_chat, long) (after_decrypt-AllKeep s _)
      ]
    ]

    handle_x3dh_receive-AllKeep :
        (draw : Option (List ℕ)) (payload : List ℕ)
        → AllKeep j n (handle_x3dh_receive prim suite json draw id payload n)
    unfolding handle_x3dh_receive
    handle_x3dh_receive-AllKeep draw payload = elim (Option-cases (json.decode_map payload)) [
      | inl e ↦ rw (e, handle_x3dh_receive) kept
      | inr (fields, e) ↦ elim (Option-cases (generate_dh prim draw)) [
        | inl d ↦ rw (e, handle_x3dh_receive, d) tt
        | inr (key, d) ↦ rw (e, handle_x3dh_receive, d) (insert-Keeps _)
      ]
    ]

    -- Whatever a peer sends, the handlers either stop the node with a panic, or change no session but
    -- the peer's own, and neither the identity nor the pre-keys of the node.
    pub handle_incoming-AllKeep :
        (draw : Option (List ℕ)) (payload : List ℕ)
        → AllKeep j n (handle_incoming prim suite json draw id payload n)
    unfolding handle_incoming
    handle_incoming-AllKeep draw payload = elim (Option-cases (json.decode_chat payload)) [
      | inl e ↦ rw (e, handle_incoming) kept
      | inr (msg, e) ↦ elim (Bool-cases (bytes_eq msg.msg_type x3dh_init)) [
        | inl init ↦ rw (e, handle_incoming, init) (handle_x3dh_receive-AllKeep draw payload)
        | inr other ↦ elim (Bool-cases (bytes_eq msg.msg_type chat)) [
          | inl yes_chat ↦
              rw (e, handle_incoming, other, yes_chat) (handle_chat-AllKeep draw payload)
          | inr no_chat ↦ rw (e, handle_incoming, other, no_chat) kept
        ]
      ]
    ]

-- The decryption stops the node by a nil key pair, or by a text from an id that is too short.
abbrev pub Stops : List ℕ → Outcome → Type 0
Stops id result =
    (result ≡ nil_keypair) ⊎ ((length id < 8) × (text : List ℕ) × (result ≡ plain text))

module _ (prim : Primitives) (suite : Suite) (json : Json) where
  after_decrypt-Stops :
      (id : List ℕ) (s : PeerSession) (n : Node) (r : RatchetState × Outcome)
      → (after_decrypt prim suite json id s n r ≡ panic) ↔ Stops id r.1
  after_decrypt-Stops id s n (r, plain text) = elim (Bool-cases (ltb (length id) 8)) [
    | inl short ↦ ((λ e. inr (ground arith, text, refl)), (λ cause. rw (short) refl))
    | inr long ↦ (
      (λ e. absurd (cc (e, long))),
      (λ cause. elim cause [
        | inl nil ↦ absurd (cc nil)
        | inr (h, _, _) ↦ absurd (ground (arith, h))
      ]),
    )
  ]
  after_decrypt-Stops id s n (r, packet_too_short) = (
    (λ e. absurd (cc e)),
    (λ cause. elim cause [ inl nil ↦ absurd (cc nil) | inr (_, _, e) ↦ absurd (cc e) ]),
  )
  after_decrypt-Stops id s n (r, not_authentic) = (
    (λ e. absurd (cc e)),
    (λ cause. elim cause [ inl nil ↦ absurd (cc nil) | inr (_, _, e) ↦ absurd (cc e) ]),
  )
  after_decrypt-Stops id s n (r, nil_keypair) = ((λ e. inl refl), (λ cause. refl))

  handle_chat-session :
      (draw : Option (List ℕ)) (id raw : List ℕ) (n : Node) (s : PeerSession)
      → lookup id n.peers ≡ some s
      → handle_chat prim suite json draw id raw n ≡ (
          if ltb (length raw) 34
          then panic
          else after_decrypt prim suite json id s n
              (decrypt prim suite draw (drop 34 raw) s.ratchet))
  unfolding handle_chat
  handle_chat-session draw id raw n s e = rw (e, handle_chat) refl

  handle_chat-stranger :
      (draw : Option (List ℕ)) (id raw : List ℕ) (n : Node)
      → lookup id n.peers ≡ none
      → handle_chat prim suite json draw id raw n
        ≡ (if ltb (length id) 8 then panic else handled n none)
  unfolding handle_chat
  handle_chat-stranger draw id raw n e = rw (e, handle_chat) refl

  -- A chat message from a peer without a session stops the node with a panic exactly if its id is
  -- shorter than 8 bytes. From a peer with a session, it does exactly if the message is shorter than
  -- 34 bytes, or the ratchet's random source fails, or the id is shorter than 8 bytes and the message
  -- is decrypted.
  pub handle_chat_panics :
      (draw : Option (List ℕ)) (id raw : List ℕ) (n : Node)
      → (handle_chat prim suite json draw id raw n ≡ panic) ↔ (
          ((lookup id n.peers ≡ none) × (length id < 8))
          ⊎ ((s : PeerSession) × (lookup id n.peers ≡ some s)
              × ((length raw < 34) ⊎ Stops id (decrypt prim suite draw (drop 34 raw) s.ratchet).1)))
  handle_chat_panics draw id raw n = elim (Option-cases (lookup id n.peers)) [
    | inl e ↦
        let same = handle_chat-stranger draw id raw n e in
        (
          (λ stops. inl (e, ground (arith, same))),
          (λ cause. elim cause [
            | inl (_, short) ↦ same ∙ ground arith
            | inr (s, some_s, _) ↦ absurd (cc (e, some_s))
          ]),
        )
    | inr (s, e) ↦
        let same = handle_chat-session draw id raw n s e in
        let r = decrypt prim suite draw (drop 34 raw) s.ratchet in
        (
          (λ stops. elim (Bool-cases (ltb (length raw) 34)) [
            | inl short ↦ inr (s, e, inl (ground arith))
            | inr long ↦
                inr
                  (s, e, inr ((after_decrypt-Stops id s n r).0 (rw (long) refl ∙ sym same ∙ stops)))
          ]),
          (λ cause. elim cause [
            | inl (none_e, _) ↦ absurd (cc (e, none_e))
            | inr (s', e', inl short) ↦ same ∙ ground arith
            | inr (s', e', inr by_result) ↦
                let same' = handle_chat-session draw id raw n s' e' in
                elim (Bool-cases (ltb (length raw) 34)) [
                  | inl short ↦ same' ∙ rw (short) refl
                  | inr long ↦ same' ∙ rw (long) ((after_decrypt-Stops id s' n _).1 by_result)
                ]
          ]),
        )
  ]
