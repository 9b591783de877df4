-- ===== src/Base/Bytes.antt =====
-- encoding/binary's BigEndian: fixed-width numbers as bytes, the most significant first.
use Prim.Native.Nat.{ℕ, zero, suc, ◌+◌, ◌*◌, ◌/◌, ◌%◌, ◌^◌, ◌<◌}
use mathlib.Core.Path.{◌≡◌, refl}
use mathlib.Core.List.{List, [], ◌∷◌, ◌++◌}
use native.Mathlib.Omega.{arith}
use aphros.Base.Lists.{length, length-append}

-- `put_be w v` is `v` on `w` bytes.
unfoldable pub put_be : ℕ → ℕ → List ℕ
put_be zero v = []
put_be (suc w) v = put_be w (v / 256) ++ ((v % 256) ∷ [])

unfoldable pub read_be : ℕ → List ℕ → ℕ
read_be acc [] = acc
read_be acc (b ∷ bs) = read_be (acc * 256 + b) bs

abbrev pub get_be : List ℕ → ℕ
get_be = read_be 0

pub length-put_be : (w v : ℕ) → length (put_be w v) ≡ w
unfolding put_be
length-put_be zero v = refl
length-put_be (suc w) v =
    omega
      (arith, length-append {0} (put_be w (v / 256)) ((v % 256) ∷ []), length-put_be w (v / 256))

read_be_snoc :
    (acc : ℕ) (bs : List ℕ) (b : ℕ) → read_be acc (bs ++ (b ∷ [])) ≡ read_be acc bs * 256 + b
unfolding read_be
read_be_snoc acc [] b = refl
read_be_snoc acc (x ∷ bs) b = read_be_snoc (acc * 256 + x) bs b

pub get_be-put_be : (w v : ℕ) → v < 256 ^ w → get_be (put_be w v) ≡ v
unfolding put_be
get_be-put_be zero v h = unfold read_be in omega arith
get_be-put_be (suc w) v h =
    omega (
      arith,
      read_be_snoc 0 (put_be w (v / 256)) (v % 256),
      get_be-put_be w (v / 256) (ground arith),
    )
