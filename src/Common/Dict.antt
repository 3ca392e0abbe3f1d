-- ===== src/Common/Dict.antt =====
-- Python's dict with keys that are texts: an association list without double keys, in the order of
-- insertion.
use mathlib.Core.Path.{subst}
use mathlib.Core.Logic.{◌≢◌, inl, inr}
use mathlib.Core.Bool.{Bool, true, false}
use mathlib.Core.Option.{Option, none, some}
use mathlib.Core.List.{List, [], ◌∷◌}
use mathlib.Core.Path.{◌≡◌, refl, sym, ◌∙◌}
use Prim.Native.String.{String}
use native.Mathlib.Omega.{arith}
use text.Mathlib.Text.{◌==◌ as str_eq}
use text.Mathlib.TextEquality.{eq_iff}
use cs525_project.Common.Tests.{if◌then◌else◌, Bool-cases}
use cs525_project.Common.Lists.{All}

abbrev pub Dict {ℓ} : Type ℓ → Type ℓ
Dict V = List (String × V)

-- No key stands twice.
abbrev pub IsDistinct : List String → Type 0
IsDistinct [] = Unit
IsDistinct (k ∷ ks) = All (λ j. j ≢ k) ks × IsDistinct ks

pub str_eq_refl : (k : String) → str_eq k k ≡ true
str_eq_refl k = (eq_iff k k).1 refl

pub true≢false : true ≢ false
true≢false e = cc

pub str_eq_sound : (j k : String) → str_eq j k ≡ false → k ≢ j
str_eq_sound j k n p = true≢false (sym ((eq_iff j k).1 (sym p)) ∙ n)
  where
    true≢false : true ≢ false
    true≢false e = cc

abbrev pub elem : String → List String → Bool
elem i [] = false
elem i (k ∷ ks) = let rest = elem i ks in if str_eq k i then true else rest

pub elem-absent : (k : String) (ks : List String) → All (λ j. j ≢ k) ks → elem k ks ≡ false
elem-absent k [] h = refl
elem-absent k (j ∷ ks) h = ground (arith, eq_iff j k, h.0, elem-absent k ks h.1)

module _ {ℓ} {V : Type ℓ} where
  -- `d.get(k)`, `d[k] = v`, and `del d[k]` for a key that is there
  unfoldable pub lookup : String → Dict V → Option V
  lookup k [] = none
  lookup k ((j, v) ∷ m) = if str_eq j k then some v else lookup k m

  unfoldable pub insert : String → V → Dict V → Dict V
  insert k v [] = (k, v) ∷ []
  insert k v ((j, w) ∷ m) = if str_eq j k then (k, v) ∷ m else (j, w) ∷ insert k v m

  unfoldable pub delete : String → Dict V → Dict V
  delete k [] = []
  delete k ((j, w) ∷ m) = let rest = delete k m in if str_eq j k then m else (j, w) ∷ rest

  -- `list(d.keys())[:]`
  abbrev pub keys : Dict V → List String
  keys [] = []
  keys ((j, w) ∷ m) = j ∷ keys m

  pub lookup-absent : (k : String) (m : Dict V) → All (λ j. j ≢ k) (keys m) → lookup k m ≡ none
  unfolding lookup
  lookup-absent k [] h = refl
  lookup-absent k ((j, v) ∷ m) h = ground (arith, eq_iff j k, h.0, lookup-absent k m h.1)

  pub lookup-delete_self :
      (k : String) (m : Dict V) → IsDistinct (keys m) → lookup k (delete k m) ≡ none
  unfolding lookup delete
  lookup-delete_self k [] d = refl
  lookup-delete_self k ((j, v) ∷ m) d = elim (Bool-cases (str_eq j k)) [
    | inl e ↦
        (let same = (eq_iff j k).0 e in
          let gone : lookup k m ≡ none =
            lookup-absent k m (subst (λ i. All (λ l. l ≢ i) (keys m)) same d.0) in
          rw e gone)
    | inr n ↦ rw (n, n) (lookup-delete_self k m d.1)
  ]

  pub lookup-delete_other : (k i : String) (m : Dict V) → i ≢ k → lookup i (delete k m) ≡ lookup i m
  unfolding lookup delete
  lookup-delete_other k i [] n = refl
  lookup-delete_other k i ((j, v) ∷ m) n =
      ground (arith, eq_iff j k, eq_iff j i, lookup-delete_other k i m n)

  pub All-delete :
      (P : String → Type 0) (k : String) (m : Dict V) → All P (keys m) → All P (keys (delete k m))
  unfolding delete
  All-delete P k [] h = tt
  All-delete P k ((j, v) ∷ m) h = elim (Bool-cases (str_eq j k)) [
    | inl e ↦ rw e h.1
    | inr n ↦ rw n (h.0, All-delete P k m h.1)
  ]

  pub delete-IsDistinct :
      (k : String) (m : Dict V) → IsDistinct (keys m) → IsDistinct (keys (delete k m))
  unfolding delete
  delete-IsDistinct k [] d = tt
  delete-IsDistinct k ((j, v) ∷ m) d = elim (Bool-cases (str_eq j k)) [
    | inl e ↦ rw e d.1
    | inr n ↦ rw n (All-delete (λ i. i ≢ j) k m d.0, delete-IsDistinct k m d.1)
  ]

  -- Every key is in the table.
  abbrev pub Present : Dict V → List String → Type ℓ
  Present m ks = All (λ k. lookup k m ≢ none) ks

  pub Present-delete :
      (k : String) (m : Dict V) (ks : List String)
      → All (λ j. j ≢ k) ks
      → Present m ks
      → Present (delete k m) ks
  Present-delete k m [] n h = tt
  Present-delete k m (j ∷ ks) n h =
      (λ gone. h.0 (sym (lookup-delete_other k j m n.0) ∙ gone), Present-delete k m ks n.1 h.1)

  pub Present-cons :
      (k : String) (v : V) (m : Dict V) (ks : List String)
      → All (λ j. j ≢ k) ks
      → Present m ks
      → Present ((k, v) ∷ m) ks
  unfolding lookup
  Present-cons k v m [] n h = tt
  Present-cons k v m (j ∷ ks) n h =
      ((λ gone. h.0 (ground (arith, eq_iff k j, n.0, gone))), Present-cons k v m ks n.1 h.1)

  pub keys-Present : (m : Dict V) → IsDistinct (keys m) → Present m (keys m)
  unfolding lookup
  keys-Present [] d = tt
  keys-Present ((k, v) ∷ m) d = (
    (λ gone. some≢none v (sym (rw (str_eq_refl k)) ∙ gone)),
    Present-cons k v m (keys m) d.0 (keys-Present m d.1),
  )
    where
      some≢none : (x : V) → Path (Option V) (some x) none → ⊥
      some≢none x e = cc

  pub elem-lookup : (i : String) (m : Dict V) → elem i (keys m) ≡ false → lookup i m ≡ none
  unfolding lookup
  elem-lookup i [] h = refl
  elem-lookup i ((k, v) ∷ m) h = elim (Bool-cases (str_eq k i)) [
    | inl e ↦ ground arith
    | inr n ↦ rw n (elem-lookup i m (ground arith))
  ]

  pub All-insert :
      (P : String → Type 0) (k : String) (v : V) (m : Dict V)
      → P k
      → All P (keys m)
      → All P (keys (insert k v m))
  unfolding insert
  All-insert P k v [] p h = (p, tt)
  All-insert P k v ((j, w) ∷ m) p h = elim (Bool-cases (str_eq j k)) [
    | inl e ↦ rw e (p, h.1)
    | inr n ↦ rw n (h.0, All-insert P k v m p h.1)
  ]

  pub insert-IsDistinct :
      (k : String) (v : V) (m : Dict V) → IsDistinct (keys m) → IsDistinct (keys (insert k v m))
  unfolding insert
  insert-IsDistinct k v [] d = (tt, tt)
  insert-IsDistinct k v ((j, w) ∷ m) d = elim (Bool-cases (str_eq j k)) [
    | inl e ↦
        (let same = (eq_iff j k).0 e in rw e (subst (λ i. All (λ l. l ≢ i) (keys m)) same d.0, d.1))
    | inr n ↦
        rw n (All-insert (λ i. i ≢ j) k v m (str_eq_sound j k n) d.0, insert-IsDistinct k v m d.1)
  ]

  pub lookup-insert_self : (k : String) (v : V) (m : Dict V) → lookup k (insert k v m) ≡ some v
  unfolding lookup insert
  lookup-insert_self k v [] = rw (str_eq_refl k)
  lookup-insert_self k v ((j, w) ∷ m) =
      ground (arith, eq_iff j k, eq_iff k k, lookup-insert_self k v m)

  pub lookup-insert_other :
      (k i : String) (v : V) (m : Dict V) → i ≢ k → lookup i (insert k v m) ≡ lookup i m
  unfolding lookup insert
  lookup-insert_other k i v [] n = ground (arith, eq_iff k i)
  lookup-insert_other k i v ((j, w) ∷ m) n =
      ground (arith, eq_iff j k, eq_iff j i, eq_iff k i, lookup-insert_other k i v m n)

  pub lookup-insert :
      (k i : String) (v : V) (m : Dict V)
      → lookup i (insert k v m) ≡ (if str_eq k i then some v else lookup i m)
  lookup-insert k i v m = elim (Bool-cases (str_eq k i)) [
    | inl e ↦ rw e (
        subst (λ x. lookup x (insert k v m) ≡ some v) ((eq_iff k i).0 e) (lookup-insert_self k v m))
    | inr n ↦ rw n (lookup-insert_other k i v m (str_eq_sound k i n))
  ]
