-- ===== src/Simulation/Figures.antt =====
-- The figures of simulation/world.go that read the world: CountByBalance, TotalSupply, GiniBalance,
-- GiniReputation, JainFairness, CollisionRate and gini.
pub mod Bounds
use relaymeshnet.Base.{
  ℕ, zero, suc, ◌+◌, ◌*◌, Bool, true, false, ◌&&◌, List, [], ◌∷◌, map, select, length,
}
use relaymeshnet.Base.{ltb, ◌==◌, if◌then◌else◌}
use relaymeshnet.Base.Int.{ℤ, sub_ℕ}
use relaymeshnet.Base.Float.{Float}
use relaymeshnet.Simulation.World.{World, all_nodes}

module _ (float : Float) where
  -- `sort.Float64s`, which puts the numbers in increasing order.
  abbrev pub insert_sorted : float.F → List float.F → List float.F
  insert_sorted v [] = v ∷ []
  insert_sorted v (x ∷ xs) = if float.less v x then v ∷ x ∷ xs else x ∷ insert_sorted v xs

  abbrev pub sort : List float.F → List float.F
  sort [] = []
  sort (v ∷ vs) = insert_sorted v (sort vs)

  -- The sum from the accumulator on.
  abbrev pub sum_from : float.F → List float.F → float.F
  sum_from acc [] = acc
  sum_from acc (v ∷ vs) = sum_from (float.plus acc v) vs

  -- The loop over the sorted values, from index `i` on.
  unfoldable pub weigh : ℕ → ℕ → float.F → List float.F → float.F
  weigh n i g [] = g
  weigh n i g (v ∷ vs) =
      weigh n (suc i) (float.plus g (float.times (float.of_int (sub_ℕ (2 * i + 1) n)) v)) vs

  -- Between 0 and 1.
  unfoldable pub clamp_unit : float.F → float.F
  clamp_unit r =
      let lifted = if float.less r (float.ratio 0 1) then float.ratio 0 1 else r in
      if float.less (float.ratio 1 1) lifted then float.ratio 1 1 else lifted

  abbrev pub is_zero_float : float.F → Bool
  is_zero_float x = float.greater_eq x (float.ratio 0 1) && float.greater_eq (float.ratio 0 1) x

  unfoldable pub gini : List float.F → float.F
  unfolding weigh clamp_unit
  gini values =
      let n = length values in
      let sorted = sort values in
      let sum = sum_from (float.ratio 0 1) sorted in
      let g = weigh n 0 (float.ratio 0 1) sorted in
      if ltb n 2
      then float.ratio 0 1
      else (if is_zero_float sum
          then float.ratio 0 1
          else clamp_unit (float.over g (float.times (float.of_nat n) sum)))

  unfoldable pub gini_balance : World float → float.F
  unfolding gini all_nodes
  gini_balance w = gini (
      map
        (λ p.
          let v = float.plus (w.store p).balance (float.ratio 100 1) in
          if float.less v (float.ratio 0 1) then float.ratio 0 1 else v)
        (all_nodes float w))

  abbrev pub positive : List float.F → List float.F
  positive = select (λ v. float.less (float.ratio 0 1) v)

  unfoldable pub gini_reputation : World float → float.F
  unfolding gini all_nodes
  gini_reputation w =
      let values = positive (map (λ p. (w.store p).reputation) (all_nodes float w)) in
      if length values == 0 then float.ratio 0 1 else gini values

  unfoldable pub jain_fairness : World float → float.F
  unfolding all_nodes
  jain_fairness w =
      let values = positive (map (λ p. (w.store p).relay_bytes_out) (all_nodes float w)) in
      let sum = sum_from (float.ratio 0 1) values in
      let sum_sq = sum_from (float.ratio 0 1) (map (λ v. float.times v v) values) in
      if ltb (length values) 2
      then float.ratio 1 1
      else (if is_zero_float sum_sq
          then float.ratio 0 1
          else float.over (float.times sum sum) (float.times (float.of_nat (length values)) sum_sq))

  unfoldable pub collision_rate : World float → float.F
  collision_rate w =
      if w.total_sent == 0
      then float.ratio 0 1
      else float.over (float.of_nat w.total_collisions) (float.of_nat w.total_sent)

  unfoldable pub count_by_balance : float.F → float.F → World float → ℕ
  unfolding all_nodes
  count_by_balance low high w = length (
      select (λ p. float.greater_eq (w.store p).balance low && float.less (w.store p).balance high)
        (all_nodes float w))

  unfoldable pub total_supply : World float → float.F
  unfolding all_nodes
  total_supply w =
      sum_from (float.ratio 0 1) (positive (map (λ p. (w.store p).balance) (all_nodes float w)))
