-- ===== src/Prelude/Bytes.antt =====
-- Byte strings, and numbers in big-endian order (`to_be_bytes`, `from_be_bytes`).
use Prim.Native.Nat.{ℕ, zero, suc, ◌+◌, ◌-◌, ◌*◌, ◌/◌, ◌%◌, ◌^◌, ◌<◌, ◌≤◌}
use mathlib.Core.Path.{◌≡◌, refl, ap, ◌∙◌}
use mathlib.Core.List.{List, [], ◌∷◌, ◌++◌}
use native.Mathlib.Omega.{arith}
use mathlib.Core.Bool.{Bool, true, false, ◌&&◌}
use mathlib.Core.Logic.{◌↔◌}
use amt.Prelude.Tests.{◌==◌}
use native.Mathlib.Nat.{pow-suc}
use amt.Prelude.Lists.{
  length, length-append, length-take, length-drop, All, All-append, All-take, All-drop, take, drop,
  get_or,
}

abbrev pub IsByte : ℕ → Type 0
IsByte b = b < 256

-- `bytes[i]`. Every read of the source stands behind a length check, so 0 is never returned.
abbrev pub byte_at : List ℕ → ℕ → ℕ
byte_at bs i = get_or bs i 0

-- `bytes[first..last]`.
abbrev pub slice : List ℕ → ℕ → ℕ → List ℕ
slice bs first last = take (last - first) (drop first bs)

-- `==` on slices and arrays of bytes.
abbrev pub bytes_eq : List ℕ → List ℕ → Bool
bytes_eq [] [] = true
bytes_eq (a ∷ as') (b ∷ bs) = a == b && bytes_eq as' bs
bytes_eq _ _ = false

pub bytes_eq_iff : (xs ys : List ℕ) → (bytes_eq xs ys ≡ true) ↔ (xs ≡ ys)
bytes_eq_iff [] [] = (λ h. refl, λ h. refl)
bytes_eq_iff [] (y ∷ ys) = (λ h. cc, λ h. cc)
bytes_eq_iff (x ∷ xs) [] = (λ h. cc, λ h. cc)
bytes_eq_iff (x ∷ xs) (y ∷ ys) = ground (arith, bytes_eq_iff xs ys)

-- The `k` bytes of `n`, the most significant first.
abbrev pub to_be : ℕ → ℕ → List ℕ
to_be zero n = []
to_be (suc k) n = to_be k (n / 256) ++ (n % 256 ∷ [])

abbrev pub from_be_onto : ℕ → List ℕ → ℕ
from_be_onto acc [] = acc
from_be_onto acc (b ∷ bs) = from_be_onto (acc * 256 + b) bs

abbrev pub from_be : List ℕ → ℕ
from_be bs = from_be_onto 0 bs

from_be_onto-append :
    (acc : ℕ) (xs ys : List ℕ) → from_be_onto acc (xs ++ ys) ≡ from_be_onto (from_be_onto acc xs) ys
from_be_onto-append acc [] ys = refl
from_be_onto-append acc (x ∷ xs) ys = from_be_onto-append (acc * 256 + x) xs ys

pub length-to_be : (k n : ℕ) → length (to_be k n) ≡ k
length-to_be zero n = refl
length-to_be (suc k) n =
    length-append (to_be k (n / 256)) (n % 256 ∷ []) ∙ omega (arith, length-to_be k (n / 256))

pub to_be-IsByte : (k n : ℕ) → All IsByte (to_be k n)
to_be-IsByte zero n = tt
to_be-IsByte (suc k) n =
    All-append IsByte (to_be k (n / 256)) (n % 256 ∷ []) (to_be-IsByte k (n / 256)) (omega arith)

below_pow : (k n : ℕ) → n < 256 ^ suc k → n / 256 < 256 ^ k
below_pow k n h = omega (arith, pow-suc 256 k)

pub from_be-to_be : (k n : ℕ) → n < 256 ^ k → from_be (to_be k n) ≡ n
from_be-to_be zero n h = omega arith
from_be-to_be (suc k) n h =
    from_be_onto-append 0 (to_be k (n / 256)) (n % 256 ∷ [])
    ∙ omega (arith, from_be-to_be k (n / 256) (below_pow k n h))

from_be_onto-lt :
    (acc m : ℕ) (bs : List ℕ) → All IsByte bs → acc < m → from_be_onto acc bs < m * 256 ^ length bs
from_be_onto-lt acc m [] h hm = omega arith
from_be_onto-lt acc m (b ∷ bs) h hm = omega (
  arith,
  from_be_onto-lt (acc * 256 + b) (m * 256) bs h.1 (omega (arith, h.0)),
  ap (λ (t : ℕ). m * t) (pow-suc 256 (length bs)),
)

-- Bytes read big-endian stay within the width that they fill.
pub from_be-lt : (bs : List ℕ) → All IsByte bs → from_be bs < 256 ^ length bs
from_be-lt bs h = omega (arith, from_be_onto-lt 0 1 bs h (omega arith))

-- A cut that the input is long enough for has its full length.
pub slice_fits :
    (input : List ℕ) (n m : ℕ)
    → All IsByte input
    → n + m ≤ length input
    → All IsByte (take m (drop n input)) × (length (take m (drop n input)) ≡ m)
slice_fits input n m h le = (
  All-take IsByte m _ (All-drop IsByte n input h),
  omega (arith, length-take m (drop n input), length-drop n input),
)

-- A big-endian read of `m` bytes.
pub read_fits :
    (input : List ℕ) (n m : ℕ)
    → All IsByte input
    → n + m ≤ length input
    → from_be (take m (drop n input)) < 256 ^ m
read_fits input n m h le =
    let (bytes, full) = slice_fits input n m h le in rw full at (from_be-lt _ bytes)
