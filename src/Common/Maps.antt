-- ===== src/Common/Maps.antt =====
-- Go's `map[string]V` as an association list with at most one entry for a key. The order in which
-- `range` visits a map is the order of the list, so what is proved of one list is proved of an
-- arbitrary order of the same entries.
use Prim.Native.String.{String}
use mathlib.Core.Path.{◌≡◌, refl, ap}
use mathlib.Core.Logic.{inl, inr}
use mathlib.Core.Bool.{false}
use mathlib.Core.List.{List, [], ◌∷◌}
use mathlib.Core.Option.{Option, none, some}
use native.Mathlib.Omega.{arith}
use text.Mathlib.Text.{◌==◌}
use text.Mathlib.TextEquality.{eq_iff}
use text.Mathlib.TextPositions.{eq_refl}
use llm_inference_control_pl.Common.Tests.{if◌then◌else◌}
use llm_inference_control_pl.Common.Lists.{Elem}

abbrev pub Assoc {ℓ} : Type ℓ → Type ℓ
Assoc V = List (String × V)

module _ {ℓ} {V : Type ℓ} where
  -- v, ok := m[key]
  unfoldable pub lookup : (key : String) → Assoc V → Option V
  lookup key [] = none
  lookup key ((k, found) ∷ rest) =
      let later = lookup key rest in if k == key then some found else later

  -- m[key] = v
  unfoldable pub insert : (key : String) (value : V) → Assoc V → Assoc V
  insert key value [] = (key, value) ∷ []
  insert key value ((k, old) ∷ rest) =
      let later = insert key value rest in
      if k == key then (key, value) ∷ rest else (k, old) ∷ later

  -- delete(m, k)
  unfoldable pub delete : String → Assoc V → Assoc V
  delete k [] = []
  delete k ((j, v) ∷ m) = if j == k then m else (j, v) ∷ delete k m

  -- for _, v := range m
  abbrev pub values : Assoc V → List V
  values [] = []
  values ((j, v) ∷ m) = v ∷ values m

  -- k is none of the keys
  abbrev pub Absent : String → Assoc V → Type 0
  Absent k [] = Unit {0}
  Absent k ((j, v) ∷ m) = ((j == k) ≡ false) × Absent k m

  -- No key stands twice.
  abbrev pub IsMap : Assoc V → Type 0
  IsMap [] = Unit {0}
  IsMap ((j, v) ∷ m) = Absent j m × IsMap m

  pub lookup-Absent : (k : String) (m : Assoc V) → Absent k m → lookup k m ≡ none
  unfolding lookup
  lookup-Absent k [] h = refl
  lookup-Absent k ((j, v) ∷ m) h = ground (arith, lookup-Absent k m h.1)

  pub Absent-of_lookup : (k : String) (m : Assoc V) → lookup k m ≡ none → Absent k m
  unfolding lookup
  Absent-of_lookup k [] h = tt
  Absent-of_lookup k ((j, v) ∷ m) h = ground (arith, Absent-of_lookup k m)

  pub lookup-insert :
      (key sought : String) (value : V) (m : Assoc V)
      → lookup sought (insert key value m) ≡ (if key == sought then some value else lookup sought m)
  unfolding lookup insert
  lookup-insert key sought value [] = refl
  lookup-insert key sought value ((k, old) ∷ rest) =
      ground (
        arith,
        lookup-insert key sought value rest,
        eq_iff k key,
        eq_iff key sought,
        eq_iff k sought,
      )

  pub lookup-delete :
      (k j : String) (m : Assoc V)
      → IsMap m
      → lookup j (delete k m) ≡ (if k == j then none else lookup j m)
  unfolding lookup delete
  lookup-delete k j [] h = ground arith
  lookup-delete k j ((i, w) ∷ m) h = ground (
    arith,
    eq_iff k j,
    eq_iff i k,
    eq_iff i j,
    lookup-delete k j m h.1,
    lookup-Absent i m h.0,
    ap (λ (s : String). lookup s m) {x = i} {y = j},
  )

  Absent-insert :
      (i k : String) (v : V) (m : Assoc V) → (k == i) ≡ false → Absent i m → Absent i (insert k v m)
  unfolding insert
  Absent-insert i k v [] h a = (h, tt)
  Absent-insert i k v ((j, w) ∷ m) h a = ground (arith, Absent-insert i k v m h a.1)

  Absent-delete : (i k : String) (m : Assoc V) → Absent i m → Absent i (delete k m)
  unfolding delete
  Absent-delete i k [] a = tt
  Absent-delete i k ((j, w) ∷ m) a = ground (arith, Absent-delete i k m a.1)

  pub insert-IsMap : (k : String) (v : V) (m : Assoc V) → IsMap m → IsMap (insert k v m)
  unfolding insert
  insert-IsMap k v [] h = (tt, tt)
  insert-IsMap k v ((j, w) ∷ m) h = ground (
    arith,
    insert-IsMap k v m h.1,
    Absent-insert j k v m,
    eq_iff j k,
    eq_iff k j,
    ap (λ (s : String). Absent s m) {x = j} {y = k},
  )

  pub delete-IsMap : (k : String) (m : Assoc V) → IsMap m → IsMap (delete k m)
  unfolding delete
  delete-IsMap k [] h = tt
  delete-IsMap k ((j, w) ∷ m) h = ground (arith, delete-IsMap k m h.1, Absent-delete j k m h.0)

module _ {V : Type 0} where
  pub Absent-ne :
      (k j : String) (v : V) (m : Assoc V) → Absent k m → lookup j m ≡ some v → (k == j) ≡ false
  unfolding lookup
  Absent-ne k j v [] a h = absurd cc
  Absent-ne k j v ((i, w) ∷ m) a h =
      ground (arith, Absent-ne k j v m a.1, eq_iff i j, eq_iff k i, eq_iff k j)

  pub Elem-values : (k : String) (v : V) (m : Assoc V) → lookup k m ≡ some v → Elem v (values m)
  unfolding lookup
  Elem-values k v [] h = absurd cc
  Elem-values k v ((j, w) ∷ m) h = ground (arith, Elem-values k v m)

  pub lookup-of_Elem :
      (v : V) (m : Assoc V) → IsMap m → Elem v (values m) → (k : String) × (lookup k m ≡ some v)
  unfolding lookup
  lookup-of_Elem v [] h e = absurd e
  lookup-of_Elem v ((j, w) ∷ m) h (inl e) = (j, ground (arith, eq_refl j))
  lookup-of_Elem v ((j, w) ∷ m) h (inr e) =
      let (k, found) = lookup-of_Elem v m h.1 e in (k, ground (arith, Absent-ne j k v m h.0 found))
