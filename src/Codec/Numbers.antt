-- ===== src/Codec/Numbers.antt =====
-- Byte arrays as numbers, the first byte the most significant: how the model reads a `[u8; 32]`.
use native.Mathlib.Nat.{pow-suc}
use vprogs.Base.{
  ℕ, zero, suc, ◌+◌, ◌*◌, ◌/◌, ◌%◌, ◌^◌, ◌<◌, ◌≡◌, refl, sym, subst, ap, ◌∙◌, List, [], ◌∷◌, ◌++◌,
  arith, length, length-append,
}

abbrev pub AreBytes : List ℕ → Type 0
AreBytes [] = Unit
AreBytes (b ∷ bs) = (b < 256) × AreBytes bs

unfoldable pub to_bytes : ℕ → ℕ → List ℕ
to_bytes zero n = []
to_bytes (suc k) n = to_bytes k (n / 256) ++ n % 256 ∷ []

unfoldable pub from_bytes : ℕ → List ℕ → ℕ
from_bytes acc [] = acc
from_bytes acc (b ∷ bs) = from_bytes (acc * 256 + b) bs

pub length-to_bytes : (k n : ℕ) → length (to_bytes k n) ≡ k
unfolding to_bytes
length-to_bytes zero n = refl
length-to_bytes (suc k) n =
    omega (arith, length-append (to_bytes k (n / 256)) (n % 256 ∷ []), length-to_bytes k (n / 256))

AreBytes-snoc : (bs : List ℕ) (b : ℕ) → AreBytes bs → b < 256 → AreBytes (bs ++ b ∷ [])
AreBytes-snoc [] b p h = (h, tt)
AreBytes-snoc (c ∷ bs) b p h = (p.0, AreBytes-snoc bs b p.1 h)

pub to_bytes-AreBytes : (k n : ℕ) → AreBytes (to_bytes k n)
unfolding to_bytes
to_bytes-AreBytes zero n = tt
to_bytes-AreBytes (suc k) n =
    AreBytes-snoc (to_bytes k (n / 256)) (n % 256) (to_bytes-AreBytes k (n / 256)) (omega arith)

pub AreBytes-append : (xs ys : List ℕ) → AreBytes (xs ++ ys) → AreBytes xs × AreBytes ys
AreBytes-append [] ys p = (tt, p)
AreBytes-append (x ∷ xs) ys p =
    ((p.0, (AreBytes-append xs ys p.1).0), (AreBytes-append xs ys p.1).1)

from_bytes-snoc :
    (acc : ℕ) (bs : List ℕ) (b : ℕ) → from_bytes acc (bs ++ b ∷ []) ≡ from_bytes acc bs * 256 + b
unfolding from_bytes
from_bytes-snoc acc [] b = refl
from_bytes-snoc acc (c ∷ bs) b = from_bytes-snoc (acc * 256 + c) bs b

pub from_bytes-to_bytes : (k n : ℕ) → n < 256 ^ k → from_bytes 0 (to_bytes k n) ≡ n
unfolding to_bytes
from_bytes-to_bytes zero n h = unfold from_bytes in omega arith
from_bytes-to_bytes (suc k) n h = omega (
  arith,
  from_bytes-snoc 0 (to_bytes k (n / 256)) (n % 256),
  from_bytes-to_bytes k (n / 256) (omega (arith, pow-suc 256 k)),
)

from_bytes-lt :
    (j acc : ℕ) (bs : List ℕ)
    → AreBytes bs
    → acc < 256 ^ j
    → from_bytes acc bs < 256 ^ (length bs + j)
unfolding from_bytes
from_bytes-lt j acc [] p h = subst (λ (t : ℕ). acc < 256 ^ t) (omega arith) h
from_bytes-lt j acc (b ∷ bs) p h =
    subst (λ (t : ℕ). from_bytes (acc * 256 + b) bs < 256 ^ t) (omega arith)
      (from_bytes-lt (suc j) (acc * 256 + b) bs p.1 (omega (arith, pow-suc 256 j, p.0)))

pub from_bytes-bound :
    (k : ℕ) (bs : List ℕ) → length bs ≡ k → AreBytes bs → from_bytes 0 bs < 256 ^ k
from_bytes-bound k bs e p =
    subst (λ (t : ℕ). from_bytes 0 bs < 256 ^ t) (omega (arith, e))
      (from_bytes-lt 0 0 bs p (omega arith))

from_bytes-injective :
    (a c : ℕ) (bs cs : List ℕ)
    → AreBytes bs
    → AreBytes cs
    → length bs ≡ length cs
    → from_bytes a bs ≡ from_bytes c cs
    → (a ≡ c) × (bs ≡ cs)
unfolding from_bytes
from_bytes-injective a c [] [] p q e h = (h, refl)
from_bytes-injective a c [] (d ∷ cs) p q e h = absurd (omega arith)
from_bytes-injective a c (b ∷ bs) [] p q e h = absurd (omega arith)
from_bytes-injective a c (b ∷ bs) (d ∷ cs) p q e h =
    let (same, tails) =
      from_bytes-injective (a * 256 + b) (c * 256 + d) bs cs p.1 q.1 (omega arith) h in
    let heads : b ≡ d = omega (arith, same, p.0, q.0) in
    (omega (arith, same, p.0, q.0), ap (λ (t : ℕ). t ∷ bs) heads ∙ ap (λ (t : List ℕ). d ∷ t) tails)

pub to_bytes-from_bytes :
    (k : ℕ) (bs : List ℕ) → length bs ≡ k → AreBytes bs → to_bytes k (from_bytes 0 bs) ≡ bs
to_bytes-from_bytes k bs e p =
    (from_bytes-injective 0 0 (to_bytes k (from_bytes 0 bs)) bs
      (to_bytes-AreBytes k (from_bytes 0 bs)) p (length-to_bytes k (from_bytes 0 bs) ∙ sym e)
      (from_bytes-to_bytes k (from_bytes 0 bs) (from_bytes-bound k bs e p))).1
