-- ===== src/Base/Strings.antt =====
-- Go's strings, as their bytes: `==`, strings.HasPrefix and strings.Contains.
use aphros.Base.Tests.{◌==◌}
use Prim.Native.Nat.{ℕ, Ordering}
use Prim.Native.Char.{code}
use Prim.Native.String.{String, compare}
use mathlib.Core.Path.{◌≡◌, refl}
use native.Mathlib.Omega.{arith}
use mathlib.Core.Bool.{Bool, true, false, ◌&&◌, ◌||◌}
use mathlib.Core.List.{List, [], ◌∷◌}

abbrev pub same_string : List ℕ → List ℕ → Bool
same_string [] [] = true
same_string [] (b ∷ bs) = false
same_string (a ∷ as_) [] = false
same_string (a ∷ as_) (b ∷ bs) = (a == b) && same_string as_ bs

abbrev pub has_prefix : List ℕ → List ℕ → Bool
has_prefix s [] = true
has_prefix [] (p ∷ ps) = false
has_prefix (c ∷ s) (p ∷ ps) = (c == p) && has_prefix s ps

abbrev pub contains : List ℕ → List ℕ → Bool
contains [] sub = has_prefix [] sub
contains (c ∷ s) sub = has_prefix (c ∷ s) sub || contains s sub

pub same_string→≡ : (a b : List ℕ) → same_string a b ≡ true → a ≡ b
same_string→≡ [] [] h = refl
same_string→≡ [] (b ∷ bs) h = cc
same_string→≡ (a ∷ as_) [] h = cc
same_string→≡ (a ∷ as_) (b ∷ bs) h =
    let tails = same_string→≡ as_ bs (ground arith) in let heads : a ≡ b = ground arith in cc

-- The bytes of an ASCII text, and `==` on texts.
abbrev pub bytes_of : String → List ℕ
bytes_of String.[] = []
bytes_of (String.◌∷◌ c s) = code c ∷ bytes_of s

abbrev pub same_name : String → String → Bool
same_name a b = elim (compare a b) [ Ordering.eq ↦ true | _ ↦ false ]
