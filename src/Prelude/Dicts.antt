-- ===== src/Prelude/Dicts.antt =====
-- Python's dict with texts as keys, in the order of insertion, and str.partition.
use Prim.Native.Nat.{ℕ}
use mathlib.Core.Option.{Option, none, some}
use mathlib.Core.List.{List, [], ◌∷◌}
use dmr.Prelude.Tests.{if◌then◌else◌, ◌==◌}
use dmr.Prelude.Texts.{Text, text_eq}

-- d[k] = v, in the place of the key if there is one.
unfoldable pub put : {A : Type 0} → Text → A → List (Text × A) → List (Text × A)
unfolding text_eq
put k v [] = (k, v) ∷ []
put k v ((j, w) ∷ kvs) = if text_eq j k then (k, v) ∷ kvs else (j, w) ∷ put k v kvs

-- d.get(k)
unfoldable pub get : {A : Type 0} → Text → List (Text × A) → Option A
unfolding text_eq
get k [] = none
get k ((j, w) ∷ kvs) = if text_eq j k then some w else get k kvs

unfoldable pub onto_key : ℕ → Option (Text × Text) → Option (Text × Text)
onto_key c none = none
onto_key c (some (k, v)) = some (c ∷ k, v)

-- What stands before the first separator and after it, if there is one.
unfoldable pub partition : ℕ → Text → Option (Text × Text)
unfolding onto_key
partition sep [] = none
partition sep (c ∷ t) = if c == sep then some ([], t) else onto_key c (partition sep t)
