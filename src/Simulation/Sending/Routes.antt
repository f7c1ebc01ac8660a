-- ===== src/Simulation/Sending/Routes.antt =====
-- The path that sendMsg makes for a message.
use mathlib.Core.List.{append_assoc}
use relaymeshnet.Base.{ℕ, zero, suc, ◌+◌, ◌-◌, ◌≤◌, ◌<◌, ◌≡◌, ◌∙◌, refl, sym, ap, arith, inl, inr}
use relaymeshnet.Base.{
  Bool, true, false, ◌&&◌, ◌||◌, not, ltb, ◌==◌, Bool-cases, Option-cases, if◌then◌else◌,
}
use relaymeshnet.Base.{List, [], ◌∷◌, ◌++◌, none, some, select, length, take, get_or, All}
use relaymeshnet.Base.{if_true, if_false, subst, length-append, take-append_exact, All-append}
use relaymeshnet.Base.Float.{Float}
use relaymeshnet.Simulation.Schedule.{is_online}
use relaymeshnet.Simulation.World.{World, has_connection, has_connection-online}
use relaymeshnet.Simulation.Path.{peer_of, find_path_direct}
use relaymeshnet.Simulation.Sending.{SendDraws, is_candidate, find_random_relay, insert_relay}
use relaymeshnet.Simulation.Sending.{force_relays, send_path}

get_or-select :
    (p : ℕ → Bool) (xs : List ℕ) (i d : ℕ)
    → i < length (select p xs)
    → p (get_or (select p xs) i d) ≡ true
get_or-select p [] i d h = absurd (omega arith)
get_or-select p (x ∷ xs) i d h = elim (Bool-cases (p x)) [
  | inr e ↦ rw e (get_or-select p xs i d (rw e at h))
  | inl e ↦ rw e (first e (λ j. get_or-select p xs j d) i (rw e at h))
]
  where
    first :
        p x ≡ true
        → ((j : ℕ) → j < length (select p xs) → p (get_or (select p xs) j d) ≡ true)
        → (i : ℕ) → i < length (x ∷ select p xs)
        → p (get_or (x ∷ select p xs) i d) ≡ true
    first e rest zero k = e
    first e rest (suc i) k = rest i (omega (arith, k))

some-injective : {a b : List (List ℕ)} → some a ≡ some b → a ≡ b
some-injective e = cc e

-- An element before the last one.
insert_before_last :
    (x : List ℕ) (ms : List (List ℕ)) (a b : List ℕ)
    → let path = x ∷ (ms ++ b ∷ []) in
      take (length path - 1) path ++ a ∷ b ∷ [] ≡ x ∷ ((ms ++ a ∷ []) ++ b ∷ [])
insert_before_last x ms a b =
    let one_less : length (x ∷ (ms ++ b ∷ [])) - 1 ≡ suc (length ms) =
      omega (arith, length-append ms (b ∷ [])) in
    rw one_less (
      ap (λ ys. x ∷ (ys ++ a ∷ b ∷ [])) (take-append_exact (length ms) ms (b ∷ []) refl)
      ∙ ap (◌∷◌ x) (sym (append_assoc ms (a ∷ []) (b ∷ []))))

module _ (float : Float) (hash : List ℕ → List ℕ) (w : World float) (from to : ℕ) where
  abbrev peer : ℕ → List ℕ
  peer p = peer_of float hash w p

  -- The node with the id is connected with just one of the two ends.
  pub record IsRelay (id : List ℕ) : Type 0 where
    pub node : ℕ
    pub named : id ≡ peer_of float hash w node
    pub not_both : (has_connection float w from node && has_connection float w node to) ≡ false
    pub one : (has_connection float w from node || has_connection float w node to) ≡ true

  pub record IsRoute (most : ℕ) (path : List (List ℕ)) : Type 0 where
    pub relays : List (List ℕ)
    pub shape : path ≡ peer_of float hash w from ∷ (relays ++ peer_of float hash w to ∷ [])
    pub few : length relays ≤ most
    pub each : All IsRelay relays

  is_candidate-IsRelay :
      (exclude : List (List ℕ)) (n : ℕ)
      → is_candidate float hash w from to exclude n ≡ true
      → IsRelay (peer_of float hash w n)
  unfolding is_candidate
  is_candidate-IsRelay exclude n h = record {
    node = n;
    named = refl;
    not_both = ground (arith, h);
    one = ground (arith, h);
  }

  find_random_relay-IsRelay :
      (intn : ℕ → ℕ) (online : List ℕ) (exclude : List (List ℕ)) (n : ℕ)
      → ((k : ℕ) → 0 < k → intn k < k)
      → find_random_relay float hash intn w from to online exclude ≡ some n
      → IsRelay (peer_of float hash w n)
  unfolding find_random_relay
  find_random_relay-IsRelay intn online exclude n draws h =
      let p = is_candidate float hash w from to exclude in
      let cs = select p online in
      elim (Bool-cases (length cs == 0)) [
        | inl e ↦ let found = rw e at h in absurd (cc found)
        | inr e ↦
            let found : some (get_or cs (intn (length cs)) from) ≡ some n = rw e at h in
            let member =
              get_or-select p online (intn (length cs)) from
                (draws (length cs) (ground (arith, e))) in
            is_candidate-IsRelay exclude n (cc (member, found))
      ]

  insert_relay-IsRoute :
      (most : ℕ) (path : List (List ℕ)) (id : List ℕ)
      → IsRelay id
      → IsRoute most path
      → IsRoute (suc most) (insert_relay float hash id (peer_of float hash w to) path)
  insert_relay-IsRoute most path id relay r = record {
    relays = r.relays ++ id ∷ [];
    shape = rw r.shape (insert_before_last _ r.relays id _);
    few = omega (arith, length-append r.relays (id ∷ []), r.few);
    each = All-append IsRelay r.relays (id ∷ []) r.each (relay, tt);
  }

  IsRoute-widen :
      (most wide : ℕ) (path : List (List ℕ)) → most ≤ wide → IsRoute most path → IsRoute wide path
  IsRoute-widen most wide path le r = record {
    relays = r.relays;
    shape = r.shape;
    few = omega (arith, le, r.few);
    each = r.each;
  }

  force_relays-IsRoute :
      (intn : ℕ → ℕ → ℕ) (online : List ℕ) (i count most : ℕ) (path : List (List ℕ))
      → ((j k : ℕ) → 0 < k → intn j k < k)
      → IsRoute most path
      → IsRoute (most + count) (force_relays float hash intn w from to online i count path)
  unfolding force_relays
  force_relays-IsRoute intn online i zero most path draws r =
      IsRoute-widen most (most + zero) path (omega arith) r
  force_relays-IsRoute intn online i (suc count) most path draws r =
      elim (Option-cases (find_random_relay float hash (intn i) w from to online path)) [
        | inl e ↦
            rw (force_relays, e)
              (IsRoute-widen (most + count) (most + suc count) _ (omega arith)
                (force_relays-IsRoute intn online (suc i) count most path draws r))
        | inr (n, e) ↦
            let relay = find_random_relay-IsRelay (intn i) online path n (draws i) e in
            rw (force_relays, e)
              (IsRoute-widen (suc most + count) (most + suc count) _ (omega arith) (
                force_relays-IsRoute intn online (suc i) count (suc most) _ draws
                  (insert_relay-IsRoute most path _ relay r)))
      ]

  pub send_path-near :
      (draws : SendDraws float hash) (online : List ℕ)
      → has_connection float w from to ≡ true
      → let least = w.config.min_relay_hops in
        let pair = peer_of float hash w from ∷ peer_of float hash w to ∷ [] in
        send_path float hash draws w from to online
        ≡ some (
            if ltb 0 least
            then force_relays float hash draws.relay_intn w from to online 0 least pair
            else pair)
  unfolding send_path
  send_path-near draws online near =
      let direct =
        find_path_direct float hash draws.path_intn w from to online ∙ if_true _ _ _ near in
      let (from_on, to_on) = has_connection-online float w from to near in
      let rounds : w.config.min_relay_hops - 0 ≡ w.config.min_relay_hops = omega arith in
      rw (send_path, direct, from_on, to_on, rounds) refl

  pub send_path-far :
      (draws : SendDraws float hash) (online : List ℕ)
      → has_connection float w from to ≡ false
      → send_path float hash draws w from to online ≡ none
  unfolding send_path
  send_path-far draws online far =
      let direct =
        find_path_direct float hash draws.path_intn w from to online ∙ if_false _ _ _ far in
      elim (Bool-cases (
        not (is_online (w.store from).schedule.status)
        || not (is_online (w.store to).schedule.status))) [
          | inl off ↦ rw (send_path, off) refl
          | inr on ↦ rw (send_path, direct, on) refl
        ]

  pair-IsRoute : IsRoute 0 (peer_of float hash w from ∷ peer_of float hash w to ∷ [])
  pair-IsRoute = record { relays = []; shape = refl; few = omega arith; each = tt }

  -- When a message can be sent, both ends are online and connected, and its path goes from the one to
  -- the other by at most `MinRelayHops` relays; each relay is connected with just one of the two ends,
  -- provided that the draws are below their bounds.
  pub send_path-IsRoute :
      (draws : SendDraws float hash) (online : List ℕ) (path : List (List ℕ))
      → ((j k : ℕ) → 0 < k → draws.relay_intn j k < k)
      → send_path float hash draws w from to online ≡ some path
      → (has_connection float w from to ≡ true) × IsRoute w.config.min_relay_hops path
  send_path-IsRoute draws online path bounded h =
      elim (Bool-cases (has_connection float w from to)) [
        | inr far ↦ absurd (cc (send_path-far draws online far, h))
        | inl near ↦
            let least = w.config.min_relay_hops in
            let pair = peer_of float hash w from ∷ peer_of float hash w to ∷ [] in
            (
              near,
              elim (Bool-cases (ltb 0 least)) [
                | inl some_relays ↦
                    let forced =
                      force_relays float hash draws.relay_intn w from to online 0 least pair in
                    let made : forced ≡ path =
                      sym (if_true _ forced pair some_relays)
                      ∙ some-injective (sym (send_path-near draws online near) ∙ h) in
                    subst (IsRoute least) made (
                      IsRoute-widen (0 + least) least forced (omega arith) (
                        force_relays-IsRoute draws.relay_intn online 0 least 0 pair bounded
                          pair-IsRoute))
                | inr no_relays ↦
                    let forced =
                      force_relays float hash draws.relay_intn w from to online 0 least pair in
                    let made : pair ≡ path =
                      sym (if_false _ forced pair no_relays)
                      ∙ some-injective (sym (send_path-near draws online near) ∙ h) in
                    subst (IsRoute least) made
                      (IsRoute-widen 0 least pair (omega arith) pair-IsRoute)
              ],
            )
      ]
