-- ===== src/Daemon/Handshake.antt =====
-- The session that InitiateSession begins and handleX3DHReceive completes.
use relaymeshnet.Base.{ℕ, ◌≡◌, refl, subst, sym, ap, ◌∙◌, false, List, [], ◌∷◌, ◌++◌, map, All}
use relaymeshnet.Base.{
  none, some, length, replicate, bytes_eq, bytes_eq_refl, take-append_exact, Bool-cases, inl, inr,
}
use relaymeshnet.Base.Words.{IsByte, IsAscii}
use relaymeshnet.Base.Maps.{lookup, lookup-insert}
use relaymeshnet.Crypto.{
  Primitives, DhKeypair, IdentityKeypair, PreKeyBundle, X3dhResult, Result, ok, err, clamp,
}
use relaymeshnet.Crypto.{
  generate_dh, new_pre_key_bundle, verify_bundle, x3dh_send, x3dh_receive, receive_secret, zero_key,
  is_zero,
}
use relaymeshnet.Crypto.Agreement.{IsPrimitives, x3dh_agreement}
use relaymeshnet.Crypto.Identity.Hex.{decode_hex-encode_hex}
use relaymeshnet.Crypto.Ratchet.{Suite, RatchetState, new_ratchet}
use relaymeshnet.Daemon.{Json, Node, PeerSession, started, handled, init_data, to_array}
use relaymeshnet.Daemon.{
  key_ik_pub, key_ek_pub, with_session, initiate_session, handle_incoming, handle_x3dh_receive,
}
use relaymeshnet.Daemon.Messages.{IsObject, IsJson, value_of_same, init_data-IsObject}

-- The session that a node has with a peer.
abbrev pub HasRatchet : Node → List ℕ → RatchetState → Type 0
HasRatchet n id r = (s : PeerSession) × (lookup id n.peers ≡ some s) × (s.ratchet ≡ r)

result_or : X3dhResult → Result X3dhResult → X3dhResult
result_or r (ok s) = s
result_or r (err e) = r

module _ (prim : Primitives) where
  x3dh_send_ok :
      (draw : List ℕ) (ik : IdentityKeypair) (b : PreKeyBundle) (r : X3dhResult)
      → x3dh_send prim (some draw) ik b ≡ ok r
      → (r.pre_key_id ≡ 0)
        × (r.ek_pub ≡ prim.base_mult (clamp draw))
        × (r.ad ≡ ik.pub_key ++ b.identity_key ++ r.ek_pub)
  unfolding x3dh_send generate_dh result_or
  x3dh_send_ok draw ik b r e = elim (Bool-cases (verify_bundle prim b)) [
    | inl valid ↦
        let given : X3dhResult = result_or r (x3dh_send prim (some draw) ik b) in
        let same : given ≡ r = ap (result_or r) e in
        subst
          (λ (q : X3dhResult).
            (q.pre_key_id ≡ 0)
            × (q.ek_pub ≡ prim.base_mult (clamp draw))
            × (q.ad ≡ ik.pub_key ++ b.identity_key ++ q.ek_pub))
          same (rw (valid) (refl, refl, refl))
    | inr invalid ↦ absurd (cc (e, invalid))
  ]

  -- The receiver computes with the ephemeral key and the number of its pre-key alone.
  x3dh_receive_secret :
      (ik : IdentityKeypair) (spk : DhKeypair) (pre_keys : List DhKeypair) (r r' : X3dhResult)
      → r.ek_pub ≡ r'.ek_pub
      → r.pre_key_id ≡ r'.pre_key_id
      → (x3dh_receive prim ik spk pre_keys r).0 ≡ (x3dh_receive prim ik spk pre_keys r').0
  unfolding x3dh_receive receive_secret
  x3dh_receive_secret ik spk pre_keys r r' e k = rw (e, k) refl

module _ (prim : Primitives) (suite : Suite) (json : Json) (law : IsJson json) where
  -- The init message of a session, at its receiver.
  handle_init :
      (draw id : List ℕ) (alice bob : Node) (r : X3dhResult)
      → All IsByte alice.identity.pub_key
      → All IsByte r.ek_pub
      → length r.ek_pub ≡ 32
      → IsObject (init_data prim suite json alice r)
      → (our_dh : DhKeypair) × (generate_dh prim (some draw) ≡ some our_dh)
        × (identity_pub : List ℕ) × (let received : X3dhResult = record {
          shared_secret = replicate 32 0;
          ad = alice.identity.pub_key ++ bob.identity.pub_key ++ r.ek_pub;
          ek_pub = r.ek_pub;
          pre_key_id = 0;
        } in
            let secret = (x3dh_receive prim bob.identity bob.spk bob.pre_keys received).0 in
            handle_incoming prim suite json
              (some draw)
              id
              (json.encode_map (init_data prim suite json alice r))
              bob
            ≡ handled
                (with_session prim id identity_pub
                  (new_ratchet prim secret received.ad our_dh r.ek_pub)
                  bob)
                none)
  unfolding generate_dh handle_incoming handle_x3dh_receive lookup bytes_eq x3dh_receive
  handle_init draw id alice bob r hi he size object =
      let m = init_data prim suite json alice r in
      let (from, text, typed) = law.type_read m object in
      let (fields, read, same) = law.map_read m object in
      let ik_field = value_of_same key_ik_pub fields m (same key_ik_pub) in
      let ek_field = value_of_same key_ek_pub fields m (same key_ek_pub) in
      let ik = decode_hex-encode_hex alice.identity.pub_key hi in
      let ek = decode_hex-encode_hex r.ek_pub he in
      let array : to_array r.ek_pub ≡ r.ek_pub =
        take-append_exact 32 r.ek_pub (replicate 32 0) size in
      let identity_pub : List ℕ = elim (lookup id bob.peers) [
        | some p ↦ p.identity_pub
        | none ↦ []
      ] in
      (
        _,
        refl,
        identity_pub,
        rw (typed, handle_incoming, handle_x3dh_receive, read, ik_field, ek_field, ik, ek, array)
            refl,
      )

  -- What `InitiateSession` stores and sends when X3DH gives a result.
  initiate_ok :
      (ek_draw dh_draw id : List ℕ) (bundle : PreKeyBundle) (n : Node) (r : X3dhResult)
      → x3dh_send prim (some ek_draw) n.identity bundle ≡ ok r
      → (our_dh : DhKeypair) × (initiate_session prim suite json
            (some ek_draw)
            (some dh_draw)
            id
            bundle
            n
          ≡ started
              (with_session prim id bundle.identity_key
                (new_ratchet prim r.shared_secret r.ad our_dh bundle.signed_pre_key)
                n)
              (json.encode_map (init_data prim suite json n r)))
  unfolding initiate_session generate_dh
  initiate_ok ek_draw dh_draw id bundle n r e =
      let ours : DhKeypair = record {
        pub_key = prim.base_mult (clamp dh_draw);
        priv_key = clamp dh_draw;
      } in
      (ours, rw (e, initiate_session) refl)

  with_session-HasRatchet :
      (id identity_pub : List ℕ) (r : RatchetState) (n : Node)
      → HasRatchet (with_session prim id identity_pub r n) id r
  with_session-HasRatchet id identity_pub r n =
      let s : PeerSession = record { peer_id = id; identity_pub = identity_pub; ratchet = r } in
      (s, lookup-insert id id s n.peers ∙ rw (bytes_eq_refl id) refl, refl)

-- X25519 gives 32 bytes.
abbrev pub IsCurve : Primitives → Type 0
IsCurve prim = (k : List ℕ) → All IsByte (prim.base_mult k) × (length (prim.base_mult k) ≡ 32)

module _ (prim : Primitives) (suite : Suite) (json : Json) (law : IsJson json)
    (IsPair : List ℕ → List ℕ → Type 0) (exact : IsPrimitives prim IsPair)
    (curve : IsCurve prim) where
  -- A node as NewNode makes it: its bundle is signed by its identity and names its own keys.
  pub record IsNode (n : Node) (otk : DhKeypair) (more : List DhKeypair) : Type 0 where
    pub signs : IsPair n.identity.pub_key n.identity.priv_key
    pub dh_pub : n.identity.dh_pub ≡ prim.base_mult n.identity.dh_key
    pub spk_pub : n.spk.pub_key ≡ prim.base_mult n.spk.priv_key
    pub otk_pub : otk.pub_key ≡ prim.base_mult otk.priv_key
    pub nonzero : is_zero otk.pub_key ≡ false
    pub keys : n.pre_keys ≡ otk ∷ more
    pub bundle :
        n.pre_key_store
        ≡ new_pre_key_bundle prim n.identity n.spk.pub_key
            (otk.pub_key ∷ map (λ (k : DhKeypair). k.pub_key) more)

  -- When `alice` initiates a session with the bundle of `bob`, a node with keys like those of NewNode,
  -- and `bob` handles the message that she sends, while the random sources work: both have a session
  -- with the other and the same associated data, and their root keys are the hashes of the same bytes
  -- but for the first 32, where `bob` has zeros in place of the first Diffie-Hellman product. It needs
  -- that the peer id of `alice` is ASCII and her public keys are bytes, that encoding/json reads back
  -- a map of ASCII texts with lower-case keys, in any order, that X25519 gives 32 bytes and commutes,
  -- and that Ed25519 verifies what it has signed.
  pub handshake :
      (ek_draw dh_draw bob_draw alice_id bob_id : List ℕ) (alice bob : Node) (otk : DhKeypair)
      (more : List DhKeypair)
      → IsNode bob otk more
      → All IsAscii alice.peer_id
      → All IsByte alice.identity.pub_key
      → All IsByte alice.identity.dh_pub
      → (alice' : Node) × (bob' : Node) × (payload : List ℕ) × (shared : List ℕ)
        × (a : RatchetState) × (b : RatchetState) × (initiate_session prim suite json
              (some ek_draw)
              (some dh_draw)
              bob_id
              bob.pre_key_store
              alice
            ≡ started alice' payload)
        × (handle_incoming prim suite json (some bob_draw) alice_id payload bob ≡ handled bob' none)
        × HasRatchet alice' bob_id a
        × HasRatchet bob' alice_id b
        × (a.ad ≡ b.ad)
        × (a.root_key ≡ prim.hash (prim.mult alice.identity.dh_key bob.spk.pub_key ++ shared))
        × (b.root_key ≡ prim.hash (zero_key ++ shared))
  unfolding new_ratchet new_pre_key_bundle
  handshake ek_draw dh_draw bob_draw alice_id bob_id alice bob otk more ok_bob ascii bytes
        dh_bytes =
      let (r, shared, sends, secret, receives) =
        x3dh_agreement prim IsPair exact ek_draw alice.identity bob.identity bob.spk otk more
          ok_bob.signs ok_bob.dh_pub ok_bob.spk_pub ok_bob.otk_pub ok_bob.nonzero in
      let (pre_key_id, ek_pub, ad) = x3dh_send_ok prim ek_draw alice.identity _ r sends in
      let (range, size) = curve (clamp ek_draw) in
      let ek_bytes : All IsByte r.ek_pub = rw (ek_pub) range in
      let bundle =
        new_pre_key_bundle prim bob.identity bob.spk.pub_key
          (otk.pub_key ∷ map (λ (k : DhKeypair). k.pub_key) more) in
      let (ours, starts) =
        initiate_ok prim suite json law ek_draw dh_draw bob_id bundle alice r sends in
      let (theirs, _, identity_pub, handles) =
        handle_init prim suite json law bob_draw alice_id alice bob r bytes ek_bytes
          (rw (ek_pub) size)
          (init_data-IsObject prim suite json alice r ascii bytes dh_bytes ek_bytes pre_key_id) in
      let received : X3dhResult = record {
        shared_secret = replicate 32 0;
        ad = alice.identity.pub_key ++ bob.identity.pub_key ++ r.ek_pub;
        ek_pub = r.ek_pub;
        pre_key_id = 0;
      } in
      let root =
        ap (λ (k : List DhKeypair). (x3dh_receive prim bob.identity bob.spk k received).0)
          ok_bob.keys
        ∙ x3dh_receive_secret prim bob.identity bob.spk (otk ∷ more) received r refl
            (sym pre_key_id)
        ∙ ap (λ (q : List ℕ × List ℕ). q.0) receives in
      (
        _,
        _,
        _,
        shared,
        _,
        _,
        ap
              (λ (b : PreKeyBundle).
                initiate_session prim suite json (some ek_draw) (some dh_draw) bob_id b alice)
              ok_bob.bundle
            ∙ starts,
        handles,
        with_session-HasRatchet prim suite json law bob_id _ _ alice,
        with_session-HasRatchet prim suite json law alice_id _ _ bob,
        ad,
        secret,
        root,
      )
