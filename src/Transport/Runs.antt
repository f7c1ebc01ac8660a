-- ===== src/Transport/Runs.antt =====
-- Two transports that connect, and the theorems at their network.
use relaymeshnet.Base.{ℕ, ◌≡◌, refl, ap, false, List, [], ◌∷◌, if◌then◌else◌, get_or}
use relaymeshnet.Transport.{Network, done, link, packet, connect, broadcast, new_mock_transport}
use relaymeshnet.Transport.Links.{linked, IsNetwork}
use relaymeshnet.Transport.Delivery.{SameLinks, is_link, offered}
use relaymeshnet.Transport.Broadcasting.{broadcast_lem}
use relaymeshnet.Transport.Reach.{Reachable, starts, connects, new_network, Reachable-IsNetwork}

abbrev ids : ℕ → List ℕ
ids x = x ∷ []

different : (x y : ℕ) → ids x ≡ ids y → x ≡ y
different x y e = ap (λ (i : List ℕ). get_or i 0 0) e

abbrev pair : Network
pair = link 1 (0 ∷ []) 0 (link 0 (1 ∷ []) 1 (new_network ids))

connect-pair : connect 0 1 (new_network ids) ≡ done pair
unfolding connect new_mock_transport
connect-pair = refl

pair-Reachable : Reachable (new_network ids) pair
unfolding new_mock_transport
pair-Reachable = connects 0 1 (new_network ids) pair starts refl refl connect-pair

Reachable-IsNetwork_example : IsNetwork pair
Reachable-IsNetwork_example = Reachable-IsNetwork ids pair different pair-Reachable

pair-IsNetwork : IsNetwork pair
pair-IsNetwork = Reachable-IsNetwork ids pair different pair-Reachable

broadcast_lem_example :
    (net' : Network) × (broadcast 7 0 (4 ∷ []) pair ≡ done net')
    × SameLinks pair net'
    × ((x : ℕ)
        → (net' x).inbox ≡ (
            if is_link (linked pair 0 (pair x).peer_id) x
            then offered (packet 7 0 (4 ∷ []) pair) (pair x).inbox
            else (pair x).inbox))
broadcast_lem_example = broadcast_lem 7 0 (4 ∷ []) pair pair-IsNetwork

pair-open : (pair 0).closed ≡ false
unfolding new_mock_transport
pair-open = refl
