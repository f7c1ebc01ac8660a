-- ===== src/Base/Maps.antt =====
-- Go's maps with byte arrays or strings as keys: an association list with one entry for a key.
-- Go leaves the order of iteration open; nothing stated of a map depends on it.
use relaymeshnet.Base.Tests.{bytes_eq, bytes_eq_refl, bytes_eq→eq, bytes_eq_sym, if◌then◌else◌}
use relaymeshnet.Base.Lists.{length, select}
use Prim.Native.Nat.{ℕ, ◌+◌}
use mathlib.Core.Path.{◌≡◌, refl}
use mathlib.Core.Bool.{Bool, not}
use mathlib.Core.Option.{Option, none, some}
use mathlib.Core.List.{List, [], ◌∷◌}
use native.Mathlib.Omega.{arith}

module _ {ℓ} {V : Type ℓ} where
  unfoldable pub lookup : List ℕ → List (List ℕ × V) → Option V
  lookup k [] = none
  lookup k ((j, v) ∷ m) = if bytes_eq j k then some v else lookup k m

  -- `m[k] = v`
  unfoldable pub insert : List ℕ → V → List (List ℕ × V) → List (List ℕ × V)
  insert k v [] = (k, v) ∷ []
  insert k v ((j, w) ∷ m) = if bytes_eq j k then (j, v) ∷ m else (j, w) ∷ insert k v m

  -- `delete(m, k)`
  unfoldable pub erase : List ℕ → List (List ℕ × V) → List (List ℕ × V)
  erase k [] = []
  erase k ((j, w) ∷ m) = if bytes_eq j k then erase k m else (j, w) ∷ erase k m

  -- `for k, v := range m { if drop(v) { delete(m, k) } }`
  unfoldable pub purge : (V → Bool) → List (List ℕ × V) → List (List ℕ × V)
  purge drops m = select (λ e. not (drops e.1)) m

  -- One entry for a key.
  abbrev pub IsMap : List (List ℕ × V) → Type ℓ
  IsMap [] = Unit {ℓ}
  IsMap ((k, v) ∷ m) = (lookup k m ≡ none) × IsMap m

module _ {ℓ} {V : Type ℓ} where
  pub lookup-insert :
      (k j : List ℕ) (v : V) (m : List (List ℕ × V))
      → lookup j (insert k v m) ≡ (if bytes_eq k j then some v else lookup j m)
  unfolding lookup insert
  lookup-insert k j v [] = refl
  lookup-insert k j v ((i, w) ∷ m) = ground (
    arith,
    bytes_eq→eq i k,
    bytes_eq→eq i j,
    bytes_eq→eq k j,
    bytes_eq_refl j,
    bytes_eq_refl k,
    lookup-insert k j v m,
  )

  pub lookup-erase :
      (k j : List ℕ) (m : List (List ℕ × V))
      → lookup j (erase k m) ≡ (if bytes_eq k j then none else lookup j m)
  unfolding lookup erase
  lookup-erase k j [] = ground arith
  lookup-erase k j ((i, w) ∷ m) = ground (
    arith,
    bytes_eq→eq i k,
    bytes_eq→eq i j,
    bytes_eq→eq k j,
    bytes_eq_refl j,
    bytes_eq_refl k,
    lookup-erase k j m,
  )

  pub insert-IsMap : (k : List ℕ) (v : V) (m : List (List ℕ × V)) → IsMap m → IsMap (insert k v m)
  unfolding lookup insert
  insert-IsMap k v [] h = (refl, tt)
  insert-IsMap k v ((j, w) ∷ m) h =
      ground (arith, lookup-insert k j v m, bytes_eq_sym k j, insert-IsMap k v m)

  purge_absent :
      (drops : V → Bool) (k : List ℕ) (m : List (List ℕ × V))
      → lookup k m ≡ none
      → lookup k (purge drops m) ≡ none
  unfolding lookup purge
  purge_absent drops k [] h = refl
  purge_absent drops k ((j, w) ∷ m) h = ground (arith, purge_absent drops k m)

  pub purge-IsMap : (drops : V → Bool) (m : List (List ℕ × V)) → IsMap m → IsMap (purge drops m)
  unfolding purge
  purge-IsMap drops [] h = tt
  purge-IsMap drops ((j, w) ∷ m) h = ground (arith, purge_absent drops j m, purge-IsMap drops m)

  -- What a value is kept as by `purge`.
  abbrev pub keep : (V → Bool) → Option V → Option V
  keep drops none = none
  keep drops (some v) = if drops v then none else some v

  pub lookup-purge :
      (drops : V → Bool) (k : List ℕ) (m : List (List ℕ × V))
      → IsMap m
      → lookup k (purge drops m) ≡ keep drops (lookup k m)
  unfolding lookup purge
  lookup-purge drops k [] h = refl
  lookup-purge drops k ((j, w) ∷ m) h =
      ground (arith, bytes_eq→eq j k, purge_absent drops j m, lookup-purge drops k m)

  pub length-purge :
      (drops : V → Bool) (m : List (List ℕ × V))
      → length (purge drops m) + length (select (λ e. drops e.1) m) ≡ length m
  unfolding purge
  length-purge drops [] = omega arith
  length-purge drops (e ∷ m) = ground (arith, length-purge drops m)

  pub erase-IsMap : (k : List ℕ) (m : List (List ℕ × V)) → IsMap m → IsMap (erase k m)
  unfolding erase
  erase-IsMap k [] h = tt
  erase-IsMap k ((j, w) ∷ m) h = ground (arith, lookup-erase k j m, erase-IsMap k m)
