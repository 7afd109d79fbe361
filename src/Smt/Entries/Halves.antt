-- ===== src/Smt/Entries/Halves.antt =====
-- core/smt/src: entries that share the upper bits of their keys fall into two halves at the next bit.
use vprogs.Base.{
  ℕ, suc, ◌+◌, ◌-◌, ◌*◌, ◌/◌, ◌^◌, ◌<◌, ◌≤◌, ◌≡◌, refl, sym, ap, ◌∙◌, inl, inr, List, [], ◌∷◌, ◌++◌,
  true, false, arith, ltb, ◌==◌, Bool-cases, length, ap₂, take, drop, take-append, drop-append,
}
use vprogs.Base.Bits.{digit}
use vprogs.Base.Order.{lt_or_ge}
use native.Mathlib.Nat.{pow-suc, div-div-eq-div-mul, div-add-mod, mul-le-mul_left, one-le-pow}
use vprogs.Smt.{Commitment, empty_hash, split_point, get_msb}
use vprogs.Smt.Updater.{with_existing}
use vprogs.Smt.Entries.{
  set_entry, set_entries, Above, Ascending, Under, keep, set_entry-append_left,
  set_entry-append_right, set_entries-append, with_existing_past,
}

-- The keys agree with `prefix` above their last `low` bits.
abbrev pub Shares : ℕ → ℕ → List Commitment → Type 0
Shares low prefix [] = Unit
Shares low prefix (e ∷ es) = (e.key / 2 ^ low ≡ prefix) × Shares low prefix es

-- One bit further down.
key_next :
    (low prefix key : ℕ)
    → key / 2 ^ suc low ≡ prefix
    → key / 2 ^ low ≡ prefix + prefix + digit key low
key_next low prefix key h =
    let e : key / 2 ^ low / 2 ≡ prefix =
      div-div-eq-div-mul key (2 ^ low) 2 ∙ ap (λ (t : ℕ). key / t) (sym (pow-suc 2 low)) ∙ h in
    omega arith

div_mono : (n a b j k : ℕ) → 1 ≤ n → k ≤ j → j / n ≡ a → k / n ≡ b → a < b → ⊥
div_mono n a b j k one h p q l = omega (
  arith,
  div-add-mod j n,
  div-add-mod k n,
  mul-le-mul_left n l,
  ap (λ (t : ℕ). n * t) p,
  ap (λ (t : ℕ). n * t) q,
)

pub below_prefix : (low a b j k : ℕ) → j / 2 ^ low ≡ a → k / 2 ^ low ≡ b → a < b → j < k
below_prefix low a b j k p q h = elim (lt_or_ge j k) [
  | inl less ↦ less
  | inr more ↦ absurd (div_mono (2 ^ low) a b j k (one-le-pow low 2 (omega arith)) more p q h)
]

Shares-Above :
    (low a b k : ℕ) (es : List Commitment) → k / 2 ^ low ≡ a → a < b → Shares low b es → Above k es
Shares-Above low a b k [] p h s = tt
Shares-Above low a b k (e ∷ es) p h s =
    (below_prefix low a b k e.key p s.0 h, Shares-Above low a b k es p h s.1)

Shares-Under :
    (low a b k : ℕ) (es : List Commitment) → k / 2 ^ low ≡ b → a < b → Shares low a es → Under k es
Shares-Under low a b k [] p h s = tt
Shares-Under low a b k (e ∷ es) p h s =
    (below_prefix low a b e.key k s.0 p h, Shares-Under low a b k es p h s.1)

Above-append : (k : ℕ) (es fs : List Commitment) → Above k (es ++ fs) → Above k es × Above k fs
Above-append k [] fs a = (tt, a)
Above-append k (e ∷ es) fs a = ((a.0, (Above-append k es fs a.1).0), (Above-append k es fs a.1).1)

pub Ascending-append :
    (es fs : List Commitment) → Ascending (es ++ fs) → Ascending es × Ascending fs
Ascending-append [] fs a = (tt, a)
Ascending-append (e ∷ es) fs a = (
  ((Above-append e.key es fs a.0).0, (Ascending-append es fs a.1).0),
  (Ascending-append es fs a.1).1,
)

-- The two halves of the entries at the bit `low` from the end.
pub record Halves (low prefix : ℕ) (es : List Commitment) : Type 0 where
  pub left : List Commitment
  pub right : List Commitment
  pub parts : es ≡ left ++ right
  pub left_shares : Shares low (prefix + prefix) left
  pub right_shares : Shares low (prefix + prefix + 1) right

-- Behind an entry with the bit set there is none without it.
all_right :
    (low prefix k : ℕ) (es : List Commitment)
    → k / 2 ^ low ≡ prefix + prefix + 1
    → Above k es
    → Shares (suc low) prefix es
    → Shares low (prefix + prefix + 1) es
all_right low prefix k [] p a s = tt
all_right low prefix k (e ∷ es) p a s = (
  elim (lt_or_ge (e.key / 2 ^ low) (prefix + prefix + 1)) [
    | inl less ↦ absurd (omega (arith, below_prefix low _ _ e.key k refl p less, a.0))
    | inr more ↦ omega (arith, key_next low prefix e.key s.0)
  ],
  all_right low prefix k es p a.1 s.1,
)

pub halves :
    (low prefix : ℕ) (es : List Commitment)
    → Ascending es
    → Shares (suc low) prefix es
    → Halves low prefix es
halves low prefix [] a s = record {
  left = [];
  right = [];
  parts = refl;
  left_shares = tt;
  right_shares = tt;
}
halves low prefix (e ∷ es) a s = go (halves low prefix es a.1 s.1)
  where
    next : e.key / 2 ^ low ≡ prefix + prefix + digit e.key low
    next = key_next low prefix e.key s.0

    go : Halves low prefix es → Halves low prefix (e ∷ es)
    go h = elim (lt_or_ge (digit e.key low) 1) [
      | inl clear ↦ record {
        left = e ∷ h.left;
        right = h.right;
        parts = ap (λ (t : List Commitment). e ∷ t) h.parts;
        left_shares = (omega (arith, next), h.left_shares);
        right_shares = h.right_shares;
      }
      | inr raised ↦
          let up : e.key / 2 ^ low ≡ prefix + prefix + 1 = omega (arith, next) in
          record {
            left = [];
            right = e ∷ es;
            parts = refl;
            left_shares = tt;
            right_shares = (up, all_right low prefix e.key es up a.0 s.1);
          }
    ]

-- The bit of a key in either half.
bit_left : (low prefix k : ℕ) → k / 2 ^ low ≡ prefix + prefix → (digit k low == 1) ≡ false
bit_left low prefix k h = ground arith

bit_right : (low prefix k : ℕ) → k / 2 ^ low ≡ prefix + prefix + 1 → (digit k low == 1) ≡ true
bit_right low prefix k h = ground arith

module _ (low prefix level : ℕ) (at : 255 - level ≡ low) where
  split_right :
      (fs : List Commitment) → Shares low (prefix + prefix + 1) fs → split_point level fs ≡ 0
  split_right [] s = refl
  split_right (f ∷ fs) s = rw (at, bit_right low prefix f.key s.0)

  pub split_point_lem :
      (es fs : List Commitment)
      → Shares low (prefix + prefix) es
      → Shares low (prefix + prefix + 1) fs
      → split_point level (es ++ fs) ≡ length es
  split_point_lem [] fs s t = split_right fs t
  split_point_lem (e ∷ es) fs s t =
      rw (at, bit_left low prefix e.key s.0) (ap suc (split_point_lem es fs s.1 t))

  split_point_left :
      (es : List Commitment) (h : Halves low prefix es) → split_point level es ≡ length h.left
  split_point_left es h =
      ap (split_point level) h.parts ∙ split_point_lem h.left h.right h.left_shares h.right_shares

  pub take_left :
      (es : List Commitment) (h : Halves low prefix es) → take (split_point level es) es ≡ h.left
  take_left es h =
      ap₂ take (split_point_left es h) h.parts ∙ take-append (length h.left) h.left h.right refl

  pub drop_right :
      (es : List Commitment) (h : Halves low prefix es) → drop (split_point level es) es ≡ h.right
  drop_right es h =
      ap₂ drop (split_point_left es h) h.parts ∙ drop-append (length h.left) h.left h.right refl

-- Keys of a half agree with the prefix of the whole.
halve : (low key a b : ℕ) → key / 2 ^ low ≡ a → a / 2 ≡ b → key / 2 ^ suc low ≡ b
halve low key a b h k =
    let e : key / 2 ^ low / 2 ≡ key / 2 ^ suc low =
      div-div-eq-div-mul key (2 ^ low) 2 ∙ ap (λ (t : ℕ). key / t) (sym (pow-suc 2 low)) in
    sym e ∙ ap (λ (t : ℕ). t / 2) h ∙ k

pub Shares-halve :
    (low a b : ℕ) (es : List Commitment) → a / 2 ≡ b → Shares low a es → Shares (suc low) b es
Shares-halve low a b [] k s = tt
Shares-halve low a b (e ∷ es) k s = (halve low e.key a b s.0 k, Shares-halve low a b es k s.1)

pub get_msb-left :
    (low prefix level k : ℕ)
    → 255 - level ≡ low
    → k / 2 ^ low ≡ prefix + prefix
    → get_msb k level ≡ false
get_msb-left low prefix level k at h = rw at (bit_left low prefix k h)

pub get_msb-right :
    (low prefix level k : ℕ)
    → 255 - level ≡ low
    → k / 2 ^ low ≡ prefix + prefix + 1
    → get_msb k level ≡ true
get_msb-right low prefix level k at h = rw at (bit_right low prefix k h)

-- Setting entries of both halves sets them in their own halves.
set_left :
    (low prefix : ℕ) (es fs cs : List Commitment)
    → Shares low (prefix + prefix) cs
    → Shares low (prefix + prefix + 1) fs
    → set_entries (es ++ fs) cs ≡ set_entries es cs ++ fs
unfolding set_entries
set_left low prefix es fs [] s t = refl
set_left low prefix es fs (c ∷ cs) s t =
    ap (λ (u : List Commitment). set_entries u cs)
      (set_entry-append_left c es fs
        (Shares-Above low (prefix + prefix) (prefix + prefix + 1) c.key fs s.0 (omega arith) t))
    ∙ set_left low prefix (set_entry c es) fs cs s.1 t

set_right :
    (low prefix : ℕ) (es fs cs : List Commitment)
    → Shares low (prefix + prefix) es
    → Shares low (prefix + prefix + 1) cs
    → set_entries (es ++ fs) cs ≡ es ++ set_entries fs cs
unfolding set_entries
set_right low prefix es fs [] s t = refl
set_right low prefix es fs (c ∷ cs) s t =
    ap (λ (u : List Commitment). set_entries u cs)
      (set_entry-append_right c es fs
        (Shares-Under low (prefix + prefix) (prefix + prefix + 1) c.key es t.0 (omega arith) s))
    ∙ set_right low prefix es (set_entry c fs) cs s t.1

keep-Shares :
    (low prefix : ℕ) (c : Commitment) (es : List Commitment)
    → c.key / 2 ^ low ≡ prefix
    → Shares low prefix es
    → Shares low prefix (keep c es)
keep-Shares low prefix c es h s = elim (Bool-cases (c.value_hash == empty_hash)) [
  | inl gone ↦ rw gone s
  | inr kept ↦ rw kept (h, s)
]

set_entry-Shares :
    (low prefix : ℕ) (c : Commitment) (es : List Commitment)
    → c.key / 2 ^ low ≡ prefix
    → Shares low prefix es
    → Shares low prefix (set_entry c es)
unfolding set_entry
set_entry-Shares low prefix c [] h s = keep-Shares low prefix c [] h tt
set_entry-Shares low prefix c (e ∷ es) h s = elim (Bool-cases (ltb c.key e.key)) [
  | inl below ↦ rw below (keep-Shares low prefix c (e ∷ es) h s)
  | inr above ↦ rw above (elim (Bool-cases (c.key == e.key)) [
    | inl same ↦ rw same (keep-Shares low prefix c es h s.1)
    | inr apart ↦ rw apart (s.0, set_entry-Shares low prefix c es h s.1)
  ])
]

pub set_entries-Shares :
    (low prefix : ℕ) (es cs : List Commitment)
    → Shares low prefix es
    → Shares low prefix cs
    → Shares low prefix (set_entries es cs)
unfolding set_entries
set_entries-Shares low prefix es [] s t = s
set_entries-Shares low prefix es (c ∷ cs) s t =
    set_entries-Shares low prefix (set_entry c es) cs (set_entry-Shares low prefix c es t.0 s) t.1

pub set_entries_halves :
    (low prefix : ℕ) (es fs cs ds : List Commitment)
    → Shares low (prefix + prefix) es
    → Shares low (prefix + prefix + 1) fs
    → Shares low (prefix + prefix) cs
    → Shares low (prefix + prefix + 1) ds
    → set_entries (es ++ fs) (cs ++ ds) ≡ set_entries es cs ++ set_entries fs ds
set_entries_halves low prefix es fs cs ds s t u v =
    set_entries-append (es ++ fs) cs ds
    ∙ ap (λ (w : List Commitment). set_entries w ds) (set_left low prefix es fs cs u t)
    ∙ set_right low prefix (set_entries es cs) fs ds
        (set_entries-Shares low (prefix + prefix) es cs s u) v

pub with_existing-Shares :
    (low prefix : ℕ) (cs : List Commitment) (k v : ℕ)
    → k / 2 ^ low ≡ prefix
    → Shares low prefix cs
    → Shares low prefix (with_existing cs k v)
with_existing-Shares low prefix [] k v h s = (h, tt)
with_existing-Shares low prefix (c ∷ cs) k v h s = elim (Bool-cases (ltb c.key k)) [
  | inl less ↦
      rw (with_existing_past c cs k v less) (s.0, with_existing-Shares low prefix cs k v h s.1)
  | inr more ↦ elim (Bool-cases (c.key == k)) [
    | inl same ↦ rw (more, same) s
    | inr apart ↦ rw (more, apart) (h, s)
  ]
]
