-- ===== src/Base/Dict.antt =====
-- `HashMap<String, V>` as an association list; nothing depends on the order of its entries.
use mathlib.Core.List.{List, [], ◌∷◌, ◌++◌}
use mathlib.Core.Option.{Option, none, some}
use mathlib.Core.Path.{◌≡◌, refl}
use native.Mathlib.Omega.{arith}
use text.Mathlib.TextEquality.{eq_iff}
use Prim.Native.String.{String}
use lambda_durable_execution.Base.Tests.{if◌then◌else◌}
use lambda_durable_execution.Base.Text.{str_eq}

module _ {ℓ} {V : Type ℓ} where
  unfoldable pub get : String → List (String × V) → Option V
  get k [] = none
  get k ((j, v) ∷ m) = if str_eq j k then some v else get k m

  unfoldable pub insert : String → V → List (String × V) → List (String × V)
  insert key new [] = (key, new) ∷ []
  insert key new ((held, old) ∷ rest) =
      if str_eq held key then (key, new) ∷ rest else (held, old) ∷ insert key new rest

  -- What is read back after a write, under this key and under any other.
  pub get-insert :
      (key asked : String) (new : V) (m : List (String × V))
      → get asked (insert key new m) ≡ (if str_eq key asked then some new else get asked m)
  unfolding get insert
  get-insert key asked new [] = refl
  get-insert key asked new ((held, old) ∷ rest) =
      ground
        (arith, eq_iff held asked, eq_iff held key, eq_iff key asked, get-insert key asked new rest)

  pub get-insert_self : (k : String) (v : V) (m : List (String × V)) → get k (insert k v m) ≡ some v
  get-insert_self k v m = ground (arith, get-insert k k v m, eq_iff k k)

  -- `HashMap::remove`.
  unfoldable pub remove : String → List (String × V) → List (String × V)
  remove k [] = []
  remove k ((j, w) ∷ m) = if str_eq j k then m else (j, w) ∷ remove k m

  abbrev pub keys : List (String × V) → List String
  keys [] = []
  keys ((k, v) ∷ m) = k ∷ keys m

  abbrev pub values : List (String × V) → List V
  values [] = []
  values ((k, v) ∷ m) = v ∷ values m

  pub keys-insert_new :
      (k : String) (v : V) (m : List (String × V))
      → get k m ≡ none
      → keys (insert k v m) ≡ keys m ++ k ∷ []
  unfolding get insert
  keys-insert_new k v [] h = refl
  keys-insert_new k v ((j, w) ∷ m) h = ground (arith, keys-insert_new k v m)

  pub keys-insert_old :
      (k : String) (v w : V) (m : List (String × V))
      → get k m ≡ some w
      → keys (insert k v m) ≡ keys m
  unfolding get insert
  keys-insert_old k v w [] h = cc
  keys-insert_old k v w ((j, x) ∷ m) h = ground (arith, eq_iff j k, keys-insert_old k v w m)
