-- ===== src/Prelude/JsMap.antt =====
-- The built-in `Map`, in insertion order: a write to a present key keeps its place, a new key goes
-- to the end.
use mathlib.Core.Path.{◌≡◌, refl, sym, subst}
use mathlib.Core.Logic.{inl, inr}
use mathlib.Core.Bool.{Bool, true, false, ◌&&◌}
use mathlib.Core.Option.{Option, none, some}
use mathlib.Core.List.{List, [], ◌∷◌, map}
use Prim.Native.Nat.{◌+◌, ◌≤◌}
use deckxcoin.Prelude.Lists.{length, All, All-imp}
use native.Mathlib.Omega.{arith}
use deckxcoin.Prelude.Tests.{if◌then◌else◌, Bool-cases}
use deckxcoin.Prelude.Eq.{Eq, ◌===◌, ===→eq, ===_refl}

abbrev pub JsMap : Type 0 → Type 0 → Type 0
JsMap K V = List (K × V)

module _ {K V : Type 0} ⦃e : Eq K⦄ where
  abbrev pub get : K → JsMap K V → Option V
  get k [] = none
  get k ((j, v) ∷ m) = if k === j then some v else get k m

  abbrev pub has : K → JsMap K V → Bool
  has k m = elim (get k m) [ none ↦ false | some _ ↦ true ]

  abbrev pub put : K → V → JsMap K V → JsMap K V
  put k v [] = (k, v) ∷ []
  put k v ((j, w) ∷ m) = if k === j then (j, v) ∷ m else (j, w) ∷ put k v m

  abbrev pub delete : K → JsMap K V → JsMap K V
  delete k [] = []
  delete k ((j, w) ∷ m) = if k === j then m else (j, w) ∷ delete k m

  -- No key stands twice, as in every `Map`.
  abbrev pub IsMap : JsMap K V → Type 0
  IsMap [] = Unit
  IsMap ((j, w) ∷ m) = (get j m ≡ none) × IsMap m

  pub get-put :
      (j k : K) (v : V) (m : JsMap K V) → get j (put k v m) ≡ (if j === k then some v else get j m)
  get-put j k v [] = refl
  get-put j k v ((i, w) ∷ m) =
      ground (arith, e.beq_iff j k, e.beq_iff j i, e.beq_iff k i, get-put j k v m)

  pub get-delete_ne : (j k : K) (m : JsMap K V) → (j === k) ≡ false → get j (delete k m) ≡ get j m
  get-delete_ne j k [] h = refl
  get-delete_ne j k ((i, w) ∷ m) h =
      ground (arith, e.beq_iff j k, e.beq_iff j i, e.beq_iff k i, get-delete_ne j k m)

  pub get-delete_self : (k : K) (m : JsMap K V) → IsMap m → get k (delete k m) ≡ none
  get-delete_self k [] h = refl
  get-delete_self k ((i, w) ∷ m) h = ground (arith, e.beq_iff k i, get-delete_self k m h.1)

  pub put-IsMap : (k : K) (v : V) (m : JsMap K V) → IsMap m → IsMap (put k v m)
  put-IsMap k v [] h = (refl, tt)
  put-IsMap k v ((i, w) ∷ m) h =
      ground (arith, e.beq_iff i k, e.beq_iff k i, put-IsMap k v m h.1, get-put i k v m)

  pub get-delete-none : (j k : K) (m : JsMap K V) → get j m ≡ none → get j (delete k m) ≡ none
  get-delete-none j k [] h = refl
  get-delete-none j k ((i, w) ∷ m) h = ground (arith, get-delete-none j k m)

  pub delete-IsMap : (k : K) (m : JsMap K V) → IsMap m → IsMap (delete k m)
  delete-IsMap k [] h = tt
  delete-IsMap k ((i, w) ∷ m) h = ground (arith, delete-IsMap k m h.1, get-delete-none i k m)

  pub get-delete :
      (j k : K) (m : JsMap K V) → IsMap m → get j (delete k m) ≡ (if j === k then none else get j m)
  get-delete j k m h = elim (Bool-cases (j === k)) [
    | inl same ↦ rw same (rw (===→eq j k same) (get-delete_self k m h))
    | inr other ↦ rw other (get-delete_ne j k m other)
  ]

  -- Whether the key's value is `v`.
  abbrev pub holds : ⦃f : Eq V⦄ → K → V → JsMap K V → Bool
  holds k v m = elim (get k m) [ none ↦ false | some w ↦ w === v ]

  -- `if (m.get(k) === v) m.delete(k)`
  abbrev pub delete_if : ⦃f : Eq V⦄ → K → V → JsMap K V → JsMap K V
  delete_if k v m = if holds k v m then delete k m else m

  pub get-delete_if :
      ⦃f : Eq V⦄ (j k : K) (v : V) (m : JsMap K V)
      → IsMap m
      → get j (delete_if k v m) ≡ (if (j === k) && holds j v m then none else get j m)
  get-delete_if j k v m h = elim (Bool-cases (j === k)) [
    | inl same ↦
        let e : j ≡ k = ===→eq j k same in
        subst (λ j. get j (delete_if k v m) ≡ (if (j === k) && holds j v m then none else get j m))
          (sym e) (ground (arith, ===_refl k, get-delete_self k m h))
    | inr other ↦ ground (arith, get-delete_ne j k m other)
  ]

  pub delete_if-IsMap :
      ⦃f : Eq V⦄ (k : K) (v : V) (m : JsMap K V) → IsMap m → IsMap (delete_if k v m)
  delete_if-IsMap k v m h = ground (arith, delete-IsMap k m h)

  abbrev pub values : JsMap K V → List V
  values m = map (λ (p : K × V). p.1) m

  pub get-cons :
      (j k : K) (v w : V) (m : JsMap K V)
      → get k m ≡ none
      → get j m ≡ some v
      → get j ((k, w) ∷ m) ≡ some v
  get-cons j k v w m h g = elim (Bool-cases (j === k)) [
    | inl same ↦ let g2 = subst (λ j. get j m ≡ some v) (===→eq j k same) g in absurd (ground arith)
    | inr other ↦ ground arith
  ]

  pub values-get :
      (f : V → K) (m : JsMap K V)
      → IsMap m
      → ((j : K) (v : V) → get j m ≡ some v → f v ≡ j)
      → All (λ v. get (f v) m ≡ some v) (values m)
  values-get f [] u h = tt
  values-get f ((k, w) ∷ m) u h = (
    rw (h k w (ground (arith, ===_refl k))) (ground (arith, ===_refl k)),
    All-imp (λ v g. get-cons (f v) k v w m u.0 g) (values m)
        (values-get f m u.1 (λ j v g. h j v (get-cons j k v w m u.0 g))),
  )

  pub length-put : (k : K) (v : V) (m : JsMap K V) → length (put k v m) ≤ length m + 1
  length-put k v [] = omega arith
  length-put k v ((j, w) ∷ m) = ground (arith, length-put k v m)

  pub length-delete :
      (k : K) (v : V) (m : JsMap K V) → get k m ≡ some v → length (delete k m) + 1 ≡ length m
  length-delete k v [] h = absurd (ground arith)
  length-delete k v ((j, w) ∷ m) h = ground (arith, length-delete k v m)

  pub values-All {ℓ} :
      (P : V → Type ℓ) (k : K) (v : V) (m : JsMap K V) → All P (values m) → get k m ≡ some v → P v
  values-All P k v [] h g = absurd (ground arith)
  values-All P k v ((j, w) ∷ m) h g = elim (Bool-cases (k === j)) [
    | inl same ↦ subst P (ground arith) h.0
    | inr other ↦ values-All P k v m h.1 (ground arith)
  ]
