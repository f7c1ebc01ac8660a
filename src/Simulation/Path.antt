-- ===== src/Simulation/Path.antt =====
-- World.findPath of simulation/world.go.
use relaymeshnet.Base.{ℕ, ◌≡◌, refl, arith, Bool, false, ◌&&◌, ◌||◌, not, inl, inr}
use relaymeshnet.Base.{List, [], ◌∷◌, none, some, select, map, length, get_or}
use relaymeshnet.Base.{leb, ltb, bytes_eq, Bool-cases, if◌then◌else◌}
use relaymeshnet.Base.Maps.{lookup, insert, lookup-insert}
use relaymeshnet.Base.Float.{Float}
use relaymeshnet.Simulation.Node.{peer_id}
use relaymeshnet.Simulation.World.{World, has_connection, concat}

module _ (float : Float) (hash : List ℕ → List ℕ) where
  -- `PeerID` of a pointer.
  abbrev pub peer_of : World float → ℕ → List ℕ
  peer_of w p = peer_id float hash (w.store p)

  abbrev pub same_peer : World float → ℕ → ℕ → Bool
  same_peer w p q = bytes_eq (peer_of w p) (peer_of w q)

  -- The nodes of the map at a key; nil when it has none.
  abbrev pub neighbors_of : List ℕ → List (List ℕ × List ℕ) → List ℕ
  neighbors_of k m = elim (lookup k m) [ none ↦ [] | some ns ↦ ns ]

  unfoldable pub cache_neighbors :
      World float → ℕ → ℕ → List ℕ → List ℕ → List (List ℕ × List ℕ) → List (List ℕ × List ℕ)
  unfolding has_connection
  cache_neighbors w from to online [] m = m
  cache_neighbors w from to online (n ∷ ns) m =
      let conns = select (λ q. not (same_peer w q n) && has_connection float w n q) online in
      let m' = if same_peer w n from || same_peer w n to then m else insert (peer_of w n) conns m in
      cache_neighbors w from to online ns m'

  abbrev pub has_peer : World float → ℕ → List ℕ → Bool
  has_peer w p [] = false
  has_peer w p (q ∷ qs) = same_peer w q p || has_peer w p qs

  -- The pairs of relays that start with `r1`.
  abbrev pub pairs_from : World float → ℕ → ℕ → List (List ℕ × List ℕ) → ℕ → List (ℕ × ℕ)
  pairs_from w from to m r1 =
      map (λ r2. (r1, r2))
        (select
          (λ r2.
            not (same_peer w r2 from || same_peer w r2 to)
            && has_peer w to (neighbors_of (peer_of w r2) m))
          (neighbors_of (peer_of w r1) m))

  -- Two relays, when the configuration has three hops.
  unfoldable pub two_relays :
      (ℕ → ℕ) → World float → ℕ → ℕ → List ℕ → List (List ℕ × List ℕ) → List (List ℕ)
  two_relays intn w from to starts m =
      let pairs = concat (map (pairs_from w from to m) starts) in
      let (r1, r2) = get_or pairs (intn (length pairs)) (from, to) in
      if ltb 0 (length pairs) && leb 3 w.config.default_hops
      then peer_of w from ∷ peer_of w r1 ∷ peer_of w r2 ∷ peer_of w to ∷ []
      else []

  -- `intn n` is the number that `rand.Intn(n)` draws.
  unfoldable pub find_path : (ℕ → ℕ) → World float → ℕ → ℕ → List ℕ → List (List ℕ)
  unfolding cache_neighbors two_relays has_connection
  find_path intn w from to online =
      let m = cache_neighbors w from to online online [] in
      let starts = neighbors_of (peer_of w from) m in
      let ends = neighbors_of (peer_of w to) m in
      let relays = select (λ n. has_peer w n ends) starts in
      if has_connection float w from to
      then peer_of w from ∷ peer_of w to ∷ []
      else (if ltb 0 (length relays)
          then peer_of w from
            ∷ peer_of w (get_or relays (intn (length relays)) from)
            ∷ peer_of w to
            ∷ []
          else two_relays intn w from to starts m)

  -- The cache has no entry for the sender.
  cache_neighbors-from :
      (w : World float) (from to : ℕ) (online ns : List ℕ) (m : List (List ℕ × List ℕ))
      → lookup (peer_of w from) m ≡ none
      → lookup (peer_of w from) (cache_neighbors w from to online ns m) ≡ none
  unfolding cache_neighbors
  cache_neighbors-from w from to online [] m h = h
  cache_neighbors-from w from to online (n ∷ ns) m h =
      elim (Bool-cases (same_peer w n from || same_peer w n to)) [
        | inl skipped ↦ rw skipped (cache_neighbors-from w from to online ns m h)
        | inr cached ↦ rw cached (
            cache_neighbors-from w from to online ns _ (
              ground (
                arith,
                cached,
                h,
                lookup-insert (peer_of w n) (peer_of w from)
                    (select (λ q. not (same_peer w q n) && has_connection float w n q) online) m,
              )))
      ]

  no_neighbors :
      (k : List ℕ) (m : List (List ℕ × List ℕ)) → lookup k m ≡ none → neighbors_of k m ≡ []
  no_neighbors k m h = rw (neighbors_of, h) refl

  -- The path of two nodes is the direct one when they are connected, and otherwise there is none,
  -- whatever the other nodes are and whatever is drawn.
  pub find_path_direct :
      (intn : ℕ → ℕ) (w : World float) (from to : ℕ) (online : List ℕ)
      → find_path intn w from to online
        ≡ (if has_connection float w from to then peer_of w from ∷ peer_of w to ∷ [] else [])
  unfolding find_path two_relays
  find_path_direct intn w from to online = elim (Bool-cases (has_connection float w from to)) [
    | inl direct ↦ rw direct refl
    | inr far ↦
        let unknown = cache_neighbors-from w from to online online [] (unfold lookup in refl) in
        rw (far, no_neighbors _ _ unknown) refl
  ]
