-- ===== src/Prelude/Sets.antt =====
-- A JavaScript `Set` of identifiers as the list of its members, each once. Identifiers are opaque
-- strings that the program only compares, so they are natural numbers.
use Prim.Native.Nat.{ℕ, suc, ◌≤◌}
use mathlib.Core.Path.{◌≡◌, refl}
use mathlib.Core.Bool.{Bool, true, false, ◌||◌}
use mathlib.Core.List.{List, [], ◌∷◌}
use native.Mathlib.Omega.{arith}
use rayi.Prelude.Tests.{◌==◌, if◌then◌else◌, Bool-cases}
use rayi.Prelude.Lists.{length, All}
use mathlib.Core.Logic.{inl, inr}

abbrev pub Identifier : Type 0
Identifier = ℕ

-- `set.has(x)`, and `list.includes(x)`.
abbrev pub has : List Identifier → Identifier → Bool
has [] x = false
has (y ∷ ys) x = y == x || has ys x

-- `set.add(x)`.
abbrev pub add_member : Identifier → List Identifier → List Identifier
add_member x s = if has s x then s else x ∷ s

-- `new Set(list)`.
unfoldable pub set_of : List Identifier → List Identifier
set_of [] = []
set_of (x ∷ xs) = add_member x (set_of xs)

-- No member twice.
abbrev pub IsDistinct : List Identifier → Type 0
IsDistinct [] = Unit
IsDistinct (x ∷ xs) = (has xs x ≡ false) × IsDistinct xs

abbrev pub IsSubset : List Identifier → List Identifier → Type 0
IsSubset xs ys = All (λ x. has ys x ≡ true) xs

pub set_of-IsDistinct : (xs : List Identifier) → IsDistinct (set_of xs)
unfolding set_of
set_of-IsDistinct [] = tt
set_of-IsDistinct (x ∷ xs) = ground (arith, set_of-IsDistinct xs)

pub has-set_of : (xs : List Identifier) (x : Identifier) → has (set_of xs) x ≡ has xs x
unfolding set_of
has-set_of [] x = refl
has-set_of (y ∷ ys) x = ground (arith, has-set_of ys x, has-set_of ys y)

remove : Identifier → List Identifier → List Identifier
remove x [] = []
remove x (y ∷ ys) = if y == x then ys else y ∷ remove x ys

length-remove :
    (x : Identifier) (ys : List Identifier)
    → has ys x ≡ true
    → length ys ≡ suc (length (remove x ys))
unfolding remove
length-remove x [] h = cc
length-remove x (y ∷ ys) h = ground (arith, length-remove x ys)

has-remove :
    (x z : Identifier) (ys : List Identifier)
    → (z == x) ≡ false
    → has ys z ≡ true
    → has (remove x ys) z ≡ true
unfolding remove
has-remove x z [] n h = cc
has-remove x z (y ∷ ys) n h = ground (arith, has-remove x z ys)

subset-remove :
    (x : Identifier) (xs ys : List Identifier)
    → has xs x ≡ false
    → IsSubset xs ys
    → IsSubset xs (remove x ys)
subset-remove x [] ys n h = tt
subset-remove x (z ∷ xs) ys n h =
    (has-remove x z ys (ground arith) h.0, subset-remove x xs ys (ground arith) h.1)

-- A set has at most as many members as a set that it is part of.
pub length-subset :
    (xs ys : List Identifier) → IsDistinct xs → IsSubset xs ys → length xs ≤ length ys
length-subset [] ys d h = omega arith
length-subset (x ∷ xs) ys d h = omega (
  arith,
  length-remove x ys h.0,
  length-subset xs (remove x ys) d.1 (subset-remove x xs ys d.0 h.1),
)

pub has_of_subset :
    (xs ys : List Identifier) (x : Identifier) → IsSubset xs ys → has xs x ≡ true → has ys x ≡ true
has_of_subset [] ys x h m = cc
has_of_subset (y ∷ xs) ys x h m = elim (Bool-cases (y == x)) [
  | inl same ↦ ground (arith, h.0)
  | inr other ↦ has_of_subset xs ys x h.1 (ground arith)
]
