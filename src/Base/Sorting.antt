-- ===== src/Base/Sorting.antt =====
-- What is documented of Go's sort.Slice: the items are the same, and none stands before one that is
-- less. It need not keep the order of equal items.
use mathlib.Core.Path.{◌≡◌, refl, ap, ◌∙◌, sym}
use mathlib.Core.Bool.{Bool, false}
use mathlib.Core.List.{List, [], ◌∷◌, ◌++◌, Perm}
use mathlib.Core.List.Perm
use mathlib.Core.List
use native.Mathlib.Bridge.{from_ℕ}
use Prim.Native.Nat.{ℕ, zero, suc}
use espur.Base.Lists.{length, take, drop, All}

module _ {ℓ} {A : Type ℓ} where
  -- No item is `less` than one before it.
  abbrev pub Ordered : (A → A → Bool) → List A → Type 0
  Ordered less [] = Unit {0}
  Ordered less (x ∷ xs) = All (λ y. less y x ≡ false) xs × Ordered less xs

  length-from_ℕ : (xs : List A) → length xs ≡ from_ℕ (List.length xs)
  length-from_ℕ [] = refl
  length-from_ℕ (x ∷ xs) = ap suc (length-from_ℕ xs)

  pub Perm-length : {xs ys : List A} → Perm xs ys → length xs ≡ length ys
  Perm-length {xs} {ys} p =
      length-from_ℕ xs ∙ (ap from_ℕ (Perm.length-eq p) ∙ sym (length-from_ℕ ys))

  pub Ordered-take :
      (less : A → A → Bool) (n : ℕ) (xs : List A) → Ordered less xs → Ordered less (take n xs)
  Ordered-take less zero xs h = tt
  Ordered-take less (suc n) [] h = tt
  Ordered-take less (suc n) (x ∷ xs) h = (All-take n xs h.0, Ordered-take less n xs h.1)
    where
      All-take :
          (n : ℕ) (ys : List A)
          → All (λ y. less y x ≡ false) ys
          → All (λ y. less y x ≡ false) (take n ys)
      All-take zero ys h = tt
      All-take (suc n) [] h = tt
      All-take (suc n) (y ∷ ys) h = (h.0, All-take n ys h.1)

  -- What is cut off an ordered list is not less than what is kept.
  pub Ordered-drop :
      (less : A → A → Bool) (n : ℕ) (xs : List A)
      → Ordered less xs
      → All (λ x. All (λ y. less y x ≡ false) (drop n xs)) (take n xs)
  Ordered-drop less zero xs h = tt
  Ordered-drop less (suc n) [] h = tt
  Ordered-drop less (suc n) (x ∷ xs) h = (All-drop n xs h.0, Ordered-drop less n xs h.1)
    where
      All-drop :
          (n : ℕ) (ys : List A)
          → All (λ y. less y x ≡ false) ys
          → All (λ y. less y x ≡ false) (drop n ys)
      All-drop zero ys h = h
      All-drop (suc n) [] h = tt
      All-drop (suc n) (y ∷ ys) h = All-drop n ys h.1

pub record Sorts {ℓ} {A : Type ℓ} (less : A → A → Bool) (sort : List A → List A) : Type ℓ where
  pub same_items : (xs : List A) → Perm (sort xs) xs
  pub in_order : (xs : List A) → Ordered less (sort xs)
