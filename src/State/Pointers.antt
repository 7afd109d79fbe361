-- ===== src/State/Pointers.antt =====
-- The rollback pointers of one batch: what the latest pointers are once they are restored.
use vprogs.Base.{
  ℕ, ◌+◌, ◌≤◌, ◌<◌, ◌≡◌, refl, ◌∙◌, inl, inr, List, [], ◌∷◌, Option, none, some, arith, ltb, ◌==◌,
  ==_iff, Bool-cases, if◌then◌else◌,
}
use vprogs.Base.Order.{update}
use vprogs.State.{put_entry}

-- The latest pointer of an old version, where 0 stands for none.
abbrev pub pointer : ℕ → Option ℕ
pointer old = if old == 0 then none else some old

abbrev pub restored : List (ℕ × ℕ) → (ℕ → Option ℕ) → ℕ → Option ℕ
restored [] latest = latest
restored ((k, old) ∷ entries) latest = restored entries (update latest k (pointer old))

-- The keys rise from `l` on.
abbrev pub SortedFrom : ℕ → List (ℕ × ℕ) → Type 0
SortedFrom l [] = Unit
SortedFrom l ((k, old) ∷ entries) = (l ≤ k) × SortedFrom (k + 1) entries

pub restored_agree :
    (entries : List (ℕ × ℕ)) (f g : ℕ → Option ℕ)
    → ((r : ℕ) → f r ≡ g r)
    → (r : ℕ) → restored entries f r ≡ restored entries g r
restored_agree [] f g h r = h r
restored_agree ((k, old) ∷ entries) f g h r =
    restored_agree entries (update f k (pointer old)) (update g k (pointer old))
      (λ q. rw (h q) refl) r

update_swap :
    (f : ℕ → Option ℕ) (k a : ℕ) (x y : Option ℕ)
    → k < a
    → (r : ℕ) → update (update f k x) a y r ≡ update (update f a y) k x r
update_swap f k a x y h r = ground arith

restored_fresh :
    (entries : List (ℕ × ℕ)) (l : ℕ) (f : ℕ → Option ℕ) (k : ℕ) (x : Option ℕ)
    → k < l
    → SortedFrom l entries
    → (r : ℕ) → restored entries (update f k x) r ≡ (if r == k then x else restored entries f r)
restored_fresh [] l f k x h s r = refl
restored_fresh ((a, old) ∷ entries) l f k x h s r =
    restored_agree entries (update (update f k x) a (pointer old))
      (update (update f a (pointer old)) k x)
      (update_swap f k a x (pointer old) (omega (arith, s.0))) r
    ∙ restored_fresh entries (a + 1) (update f a (pointer old)) k x (omega (arith, s.0)) s.1 r

pub restored-put_entry :
    (entries : List (ℕ × ℕ)) (l : ℕ) (f : ℕ → Option ℕ) (k old : ℕ)
    → SortedFrom l entries
    → (r : ℕ)
    → restored (put_entry k old entries) f r
      ≡ (if r == k then pointer old else restored entries f r)
unfolding put_entry
restored-put_entry [] l f k old s r = refl
restored-put_entry ((a, w) ∷ entries) l f k old s r = elim (Bool-cases (k == a)) [
  | inl same ↦
      let q : k ≡ a = (==_iff k a).0 same in
      rw same (
        restored_fresh entries (a + 1) f k (pointer old) (omega arith) s.1 r
        ∙ rw (restored_fresh entries (a + 1) f a (pointer w) (omega arith) s.1 r, q) (ground arith))
  | inr other ↦ elim (Bool-cases (ltb k a)) [
    | inl less ↦
        rw (other, less)
          (restored_fresh ((a, w) ∷ entries) a f k (pointer old) (ground arith) (omega arith, s.1)
            r)
    | inr more ↦
        rw (other, more) (restored-put_entry entries (a + 1) (update f a (pointer w)) k old s.1 r)
  ]
]

pub SortedFrom-put_entry :
    (entries : List (ℕ × ℕ)) (l k old : ℕ)
    → l ≤ k
    → SortedFrom l entries
    → SortedFrom l (put_entry k old entries)
unfolding put_entry
SortedFrom-put_entry [] l k old h s = (h, tt)
SortedFrom-put_entry ((a, w) ∷ entries) l k old h s = elim (Bool-cases (k == a)) [
  | inl same ↦ let q : k ≡ a = (==_iff k a).0 same in rw same (h, rw q s.1)
  | inr other ↦ elim (Bool-cases (ltb k a)) [
    | inl less ↦ rw (other, less) (h, (ground arith, s.1))
    | inr more ↦
        rw (other, more) (s.0, SortedFrom-put_entry entries (a + 1) k old (ground arith) s.1)
  ]
]
