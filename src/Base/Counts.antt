-- ===== src/Base/Counts.antt =====
-- How many elements of a list pass a test.
use Prim.Native.Nat.{ℕ, suc}
use mathlib.Core.Path.{◌≡◌, refl, ap}
use mathlib.Core.Bool.{Bool, true, false}
use mathlib.Core.List.{List, [], ◌∷◌, ◌++◌, append-nil}
use veshell.Base.Tests.{if◌then◌else◌}

module _ {ℓ} {A : Type ℓ} (test : A → Bool) where
  unfoldable pub count_if : List A → ℕ
  count_if [] = 0
  count_if (x ∷ xs) = let rest = count_if xs in if test x then suc rest else rest

  -- An element that is not counted changes nothing at the end.
  pub count_if-emit :
      (xs : List A) (e : A) → test e ≡ false → count_if (xs ++ (e ∷ [])) ≡ count_if xs
  unfolding count_if
  count_if-emit [] e h = rw h refl
  count_if-emit (x ∷ xs) e h = ap (λ n. if test x then suc n else n) (count_if-emit xs e h)

  pub count_if-emit_if :
      (xs : List A) (b : Bool) (e : A)
      → test e ≡ false
      → count_if (xs ++ (if b then e ∷ [] else [])) ≡ count_if xs
  count_if-emit_if xs true e h = count_if-emit xs e h
  count_if-emit_if xs false e h = ap count_if (append-nil xs)
