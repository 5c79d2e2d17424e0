-- ===== src/Base/Dict.antt =====
-- Python's `dict` and `set` keyed by identifiers, in insertion order.

use mathlib.Core.Path.{◌≡◌, refl}
use mathlib.Core.Bool.{Bool, true, false, ◌||◌}
use mathlib.Core.Option.{Option, none, some}
use mathlib.Core.List.{List, [], ◌∷◌, ◌++◌}
use native.Mathlib.Omega.{arith}
use interview_assignment.Base.Tests.{if◌then◌else◌}
use interview_assignment.Base.Texts.{Text, text_eq, text_eq_iff, text_eq_refl}

abbrev pub Dict {ℓ} : Type ℓ → Type ℓ
Dict V = List (Text × V)

module _ {ℓ} {V : Type ℓ} where
  -- `d.get(k)`
  unfoldable pub lookup : Text → Dict V → Option V
  lookup k [] = none
  lookup k ((j, v) ∷ d) = if text_eq k j then some v else lookup k d

  -- `d[k] = v`
  unfoldable pub insert : Text → V → Dict V → Dict V
  insert k v [] = (k, v) ∷ []
  insert k v ((j, w) ∷ d) = if text_eq k j then (j, v) ∷ d else (j, w) ∷ insert k v d

  -- `d.pop(k, None)`
  unfoldable pub remove : Text → Dict V → Dict V
  remove k [] = []
  remove k ((j, w) ∷ d) = if text_eq k j then d else (j, w) ∷ remove k d

  pub lookup-insert :
      (j k : Text) (v : V) (d : Dict V)
      → lookup j (insert k v d) ≡ (if text_eq j k then some v else lookup j d)
  unfolding lookup insert
  lookup-insert j k v [] = refl
  lookup-insert j k v ((i, w) ∷ d) =
      ground (arith, text_eq_iff k i, text_eq_iff j i, text_eq_iff j k, lookup-insert j k v d)

  pub lookup-insert_self : (k : Text) (v : V) (d : Dict V) → lookup k (insert k v d) ≡ some v
  lookup-insert_self k v d = simp (lookup-insert, text_eq_refl)

-- A set of identifiers.
abbrev pub IdSet : Type 0
IdSet = List Text

unfoldable pub contains : Text → IdSet → Bool
contains k [] = false
contains k (j ∷ s) = text_eq k j || contains k s

-- `s.add(k)`
unfoldable pub add : Text → IdSet → IdSet
add k s = if contains k s then s else s ++ k ∷ []

-- `s.discard(k)`
unfoldable pub discard : Text → IdSet → IdSet
discard k [] = []
discard k (j ∷ s) = if text_eq k j then s else j ∷ discard k s

contains-append :
    (j k : Text) (s : IdSet) → contains j (s ++ k ∷ []) ≡ (contains j s || text_eq j k)
unfolding contains
contains-append j k [] = ground arith
contains-append j k (i ∷ s) = ground (arith, contains-append j k s)

pub contains-add : (j k : Text) (s : IdSet) → contains j (add k s) ≡ (contains j s || text_eq j k)
unfolding add
contains-add j k s = ground (arith, contains-append j k s, text_eq_iff j k)

pub contains-add_self : (k : Text) (s : IdSet) → contains k (add k s) ≡ true
contains-add_self k s = ground (arith, contains-add k k s, text_eq_refl k)
