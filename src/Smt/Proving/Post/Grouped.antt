-- ===== src/Smt/Proving/Post/Grouped.antt =====
-- core/smt/src/proving/members_by_leaf.rs: the members by leaf, where the leaves take them in order.
use vprogs.Base.{
  ℕ, zero, suc, ◌+◌, ◌-◌, ◌<◌, ◌≤◌, ◌≡◌, refl, sym, subst, ap, ap₂, ◌∙◌, inl, inr, List, [], ◌∷◌,
  true, false, arith, ltb, ◌==◌, if◌then◌else◌, length, Bool-cases,
}
use vprogs.Base.Order.{update}
use vprogs.Smt.Proving.Traversal.{Membership}
use vprogs.Smt.Proving.Post.{
  leaf_of, bump, count_members, prefix_sum, fill_indices, shift_right, members_by_leaf, slice,
  members_at,
}
use vprogs.Smt.Proving.Post.Scanned.{iota}

-- The members of leaf `l` are at `first l..first (suc l)`.
module _ (len : ℕ) (first : ℕ → ℕ) (mono : (i j : ℕ) → i ≤ j → first i ≤ first j) where
  abbrev pub InOrder : ℕ → List Membership → Type 0
  InOrder i [] = Unit
  InOrder i (m ∷ ms) =
      (first (leaf_of m) ≤ i)
      × (i < first (suc (leaf_of m)))
      × (leaf_of m < len)
      × InOrder (suc i) ms

  -- The place of the next member of the leaf.
  abbrev next : ℕ → ℕ → ℕ
  next i j = if ltb i (first j) then first j else if ltb i (first (suc j)) then i else first (suc j)

  next_here : (i j : ℕ) → first j ≤ i → i < first (suc j) → next i j ≡ i
  next_here i j h k =
      let a : ltb i (first j) ≡ false = ground (arith, h) in
      let b : ltb i (first (suc j)) ≡ true = ground (arith, k) in rw a (rw b refl)

  next_steps : (i j : ℕ) → first j ≤ i → i < first (suc j) → next (suc i) j ≡ suc i
  next_steps i j h k = elim (Bool-cases (ltb (suc i) (first (suc j)))) [
    | inl e ↦ let a : ltb (suc i) (first j) ≡ false = ground (arith, h) in rw a (rw e refl)
    | inr e ↦
        let a : ltb (suc i) (first j) ≡ false = ground (arith, h) in
        rw a (rw e (ground (arith, e, k)))
  ]

  next_stays :
      (i j l : ℕ) → first l ≤ i → i < first (suc l) → (l == j) ≡ false → next (suc i) j ≡ next i j
  next_stays i j l h k e = elim (Bool-cases (ltb l j)) [
    | inl less ↦
        let below : first (suc l) ≤ first j = mono (suc l) j (ground (arith, less)) in
        let a : ltb i (first j) ≡ true = ground (arith, below, k) in
        rw a (elim (Bool-cases (ltb (suc i) (first j))) [
          | inl f ↦ rw f refl
          | inr f ↦ rw f (elim (Bool-cases (ltb (suc i) (first (suc j)))) [
            | inl g ↦ rw g (ground (arith, f, below, k))
            | inr g ↦ rw g (ground (arith, f, g, below, k, mono j (suc j) (omega arith)))
          ])
        ])
    | inr more ↦
        let above : first (suc j) ≤ first l = mono (suc j) l (ground (arith, more, e)) in
        let wide : first j ≤ first (suc j) = mono j (suc j) (omega arith) in
        let a : ltb i (first j) ≡ false = ground (arith, above, wide, h) in
        let b : ltb (suc i) (first j) ≡ false = ground (arith, above, wide, h) in
        let c : ltb i (first (suc j)) ≡ false = ground (arith, above, h) in
        let d : ltb (suc i) (first (suc j)) ≡ false = ground (arith, above, h) in
        rw (a, b, c, d) refl
  ]

  next_bound : (i j : ℕ) → next i j ≤ first (suc j)
  next_bound i j = elim (Bool-cases (ltb i (first j))) [
    | inl e ↦ rw e (mono j (suc j) (omega arith))
    | inr e ↦ elim (Bool-cases (ltb i (first (suc j)))) [
      | inl f ↦ rw (e, f) (ground (arith, f))
      | inr f ↦ rw (e, f) (omega arith)
    ]
  ]

  next_past : (i j : ℕ) → first (suc j) ≤ i → next i j ≡ first (suc j)
  next_past i j h =
      let wide : first j ≤ first (suc j) = mono j (suc j) (omega arith) in
      let a : ltb i (first j) ≡ false = ground (arith, wide, h) in
      let b : ltb i (first (suc j)) ≡ false = ground (arith, h) in rw (a, b) refl

  counted :
      (i : ℕ) (ms : List Membership) (offsets : ℕ → ℕ) (j : ℕ)
      → InOrder i ms
      → first len ≡ i + length ms
      → j < len
      → count_members len ms offsets (suc j) ≡ offsets (suc j) + (first (suc j) - next i j)
  unfolding count_members
  counted i [] offsets j h n b =
      let bound : first (suc j) ≤ first len = mono (suc j) len (omega (arith, b)) in
      rw (next_past i j (omega (arith, bound, n))) (omega arith)
  counted i (m ∷ ms) offsets j h n b = elim (Bool-cases (leaf_of m == j)) [
    | inl e ↦
        let same : leaf_of m ≡ j = ground (arith, e) in
        let inside : ltb (leaf_of m) len ≡ true = ground (arith, h.2) in
        let low : first j ≤ i = subst (λ (t : ℕ). first t ≤ i) same h.0 in
        let high : i < first (suc j) = subst (λ (t : ℕ). i < first (suc t)) same h.1 in
        let hit : (suc j == leaf_of m + 1) ≡ true = ground (arith, e) in
        rw inside (
          counted (suc i) ms (bump offsets (leaf_of m + 1)) j h.3 (omega (arith, n)) b
          ∙ ground (arith, hit, next_here i j low high, next_steps i j low high, low, high, same))
    | inr e ↦
        let inside : ltb (leaf_of m) len ≡ true = ground (arith, h.2) in
        let miss : (suc j == leaf_of m + 1) ≡ false = ground (arith, e) in
        rw inside (
          counted (suc i) ms (bump offsets (leaf_of m + 1)) j h.3 (omega (arith, n)) b
          ∙ rw (next_stays i j (leaf_of m) h.0 h.1 e) (ground (arith, miss)))
  ]

  counted_zero :
      (ms : List Membership) (offsets : ℕ → ℕ) → count_members len ms offsets 0 ≡ offsets 0
  unfolding count_members
  counted_zero [] offsets = refl
  counted_zero (m ∷ ms) offsets = elim (Bool-cases (ltb (leaf_of m) len)) [
    | inl e ↦
        let miss : (0 == leaf_of m + 1) ≡ false = ground arith in
        rw e (counted_zero ms (bump offsets (leaf_of m + 1)) ∙ rw miss refl)
    | inr e ↦ rw e (counted_zero ms offsets)
  ]

  prefix_past : (n j : ℕ) (f : ℕ → ℕ) → n < j → prefix_sum n f j ≡ f j
  unfolding prefix_sum
  prefix_past zero j f h = refl
  prefix_past (suc n) j f h =
      let miss : (j == suc n) ≡ false = ground (arith, h) in
      rw miss (prefix_past n j f (omega (arith, h)))

  prefix_first :
      (n j : ℕ) (f : ℕ → ℕ)
      → f 0 ≡ first 0
      → ((i : ℕ) → i < n → f (suc i) ≡ first (suc i) - first i)
      → j ≤ n
      → prefix_sum n f j ≡ first j
  unfolding prefix_sum
  prefix_first zero j f z h b = ap f (omega (arith, b)) ∙ z ∙ ap first (omega (arith, b))
  prefix_first (suc n) j f z h b = elim (Bool-cases (j == suc n)) [
    | inl e ↦
        rw
          (
            e,
            prefix_past n (suc n) f (omega arith),
            h n (omega arith),
            prefix_first n n f z (λ i c. h i (omega (arith, c))) (omega arith),
          )
          (omega (arith, mono n (suc n) (omega arith), ap first (last e)))
    | inr e ↦ rw e (prefix_first n j f z (λ i c. h i (omega (arith, c))) (ground (arith, e, b)))
  ]
    where
      last : (j == suc n) ≡ true → suc n ≡ j
      last e = ground (arith, e)

  filled_lem :
      (i : ℕ) (ms : List Membership) (indices offsets : ℕ → ℕ)
      → InOrder i ms
      → ((x : ℕ) → x < i → indices x ≡ x)
      → ((j : ℕ) → j < len → offsets j ≡ next i j)
      → ((x : ℕ) → x < i + length ms → (fill_indices len ms i (indices, offsets)).0 x ≡ x)
        × ((j : ℕ)
            → j < len
            → (fill_indices len ms i (indices, offsets)).1 j ≡ next (i + length ms) j)
  unfolding fill_indices
  filled_lem i [] indices offsets h f g =
      (λ x b. f x (omega (arith, b)), λ j b. g j b ∙ ap (λ (t : ℕ). next t j) (omega arith))
  filled_lem i (m ∷ ms) indices offsets h f g =
      let (p, q) =
        filled_lem (suc i) ms (update indices (offsets (leaf_of m)) i) (bump offsets (leaf_of m))
          h.3 written moved in
      (
        λ x b. ap (λ (t : (ℕ → ℕ) × (ℕ → ℕ)). t.0 x) step ∙ p x (omega (arith, b)),
        λ j b.
            ap (λ (t : (ℕ → ℕ) × (ℕ → ℕ)). t.1 j) step
            ∙ q j b
            ∙ ap (λ (t : ℕ). next t j) (omega arith),
      )
    where
      step :
          fill_indices len (m ∷ ms) i (indices, offsets)
          ≡ fill_indices len ms
              (suc i)
              (update indices (offsets (leaf_of m)) i, bump offsets (leaf_of m))
      step = let inside : ltb (leaf_of m) len ≡ true = ground (arith, h.2) in rw inside refl

      place : offsets (leaf_of m) ≡ i
      place = g (leaf_of m) h.2 ∙ next_here i (leaf_of m) h.0 h.1

      written : (x : ℕ) → x < suc i → update indices (offsets (leaf_of m)) i x ≡ x
      written x b = elim (Bool-cases (x == offsets (leaf_of m))) [
        | inl e ↦ rw e (ground (arith, e, place))
        | inr e ↦ rw e (f x (ground (arith, e, place, b)))
      ]

      moved : (j : ℕ) → j < len → bump offsets (leaf_of m) j ≡ next (suc i) j
      moved j b = elim (Bool-cases (j == leaf_of m)) [
        | inl e ↦
            let same : leaf_of m ≡ j = ground (arith, e) in
            rw e (
              ap (λ (t : ℕ). t + 1) place
              ∙ omega arith
              ∙ sym (next_steps i (leaf_of m) h.0 h.1)
              ∙ ap (next (suc i)) same)
        | inr e ↦
            let apart : (leaf_of m == j) ≡ false = ground (arith, e) in
            rw e (g j b ∙ sym (next_stays i j (leaf_of m) h.0 h.1 apart))
      ]

  shift_past : (n j : ℕ) (f : ℕ → ℕ) → n < j → shift_right n f j ≡ f j
  unfolding shift_right
  shift_past zero j f h = refl
  shift_past (suc n) j f h =
      let miss : (j == suc n) ≡ false = ground (arith, h) in
      shift_past n j (update f (suc n) (f n)) (omega (arith, h)) ∙ rw miss refl

  shifted : (n j : ℕ) (f : ℕ → ℕ) → j < n → shift_right n f (suc j) ≡ f j
  unfolding shift_right
  shifted zero j f h = absurd (omega (arith, h))
  shifted (suc n) j f h = elim (Bool-cases (j == n)) [
    | inl e ↦
        let same : j ≡ n = ground (arith, e) in
        let hit : (suc j == suc n) ≡ true = ground (arith, e) in
        shift_past n (suc j) (update f (suc n) (f n)) (omega (arith, same))
        ∙ rw hit (ap f (sym same))
    | inr e ↦
        let miss : (j == suc n) ≡ false = ground (arith, h) in
        shifted n j (update f (suc n) (f n)) (ground (arith, e, h)) ∙ rw miss refl
  ]

  module _ (ms : List Membership) (z : first 0 ≡ 0) (h : InOrder 0 ms)
      (n : first len ≡ length ms) where
    abbrev arrays : (ℕ → ℕ) × (ℕ → ℕ)
    arrays = fill_indices len ms 0 (λ i. 0, prefix_sum len (count_members len ms (λ i. 0)))

    begun : (j : ℕ) → j < len → prefix_sum len (count_members len ms (λ i. 0)) j ≡ next 0 j
    begun j b =
        prefix_first len j (count_members len ms (λ i. 0)) (counted_zero ms (λ i. 0) ∙ sym z)
          (λ i c.
            counted 0 ms (λ k. 0) i h (omega (arith, n)) c
            ∙ ap (λ (t : ℕ). 0 + (first (suc i) - t)) (next_start i)
            ∙ omega arith)
          (omega (arith, b))
        ∙ sym (next_start j)
      where
        next_start : (i : ℕ) → next 0 i ≡ first i
        next_start i = elim (Bool-cases (ltb 0 (first i))) [
          | inl e ↦ rw e refl
          | inr e ↦ elim (Bool-cases (ltb 0 (first (suc i)))) [
            | inl f ↦ rw (e, f) (ground (arith, e))
            | inr f ↦ rw (e, f) (ground (arith, e, f, mono i (suc i) (omega arith)))
          ]
        ]

    offset_first : (j : ℕ) → j ≤ len → (members_by_leaf len ms).offsets j ≡ first j
    unfolding members_by_leaf
    offset_first j b = elim (Bool-cases (j == 0)) [
      | inl e ↦ rw e (sym z ∙ ap first (start e))
      | inr e ↦ rw e (
          ap (shift_right len arrays.1) (later e)
          ∙ shifted len (j - 1) arrays.1 (ground (arith, e, b))
          ∙ (filled_lem 0 ms (λ i. 0) _ h (λ x c. absurd (omega (arith, c))) begun).1 (j - 1)
              (ground (arith, e, b))
          ∙ next_past (0 + length ms) (j - 1)
              (omega (arith, n, mono (suc (j - 1)) len (ground (arith, e, b))))
          ∙ ap first (sym (later e)))
    ]
      where
        start : (j == 0) ≡ true → 0 ≡ j
        start e = ground (arith, e)

        later : (j == 0) ≡ false → j ≡ suc (j - 1)
        later e = ground (arith, e)

    index_same : (x : ℕ) → x < length ms → (members_by_leaf len ms).indices x ≡ x
    unfolding members_by_leaf
    index_same x b =
        (filled_lem 0 ms (λ i. 0) _ h (λ y c. absurd (omega (arith, c))) begun).0 x
          (omega (arith, b))

    slice-iota :
        (start count : ℕ)
        → start + count ≤ length ms
        → slice (members_by_leaf len ms).indices start count ≡ iota start count
    slice-iota start zero b = refl
    slice-iota start (suc count) b =
        ap₂ (λ (x : ℕ) (xs : List ℕ). x ∷ xs) (index_same start (omega (arith, b)))
          (slice-iota (suc start) count (omega (arith, b)))

    -- Each leaf has the members of its part.
    pub members_at-iota :
        (j : ℕ)
        → j < len
        → members_at (members_by_leaf len ms) j ≡ iota (first j) (first (suc j) - first j)
    members_at-iota j b =
        rw (offset_first j (omega (arith, b)), offset_first (suc j) (omega (arith, b)))
          (slice-iota (first j) (first (suc j) - first j)
            (omega (arith, n, mono j (suc j) (omega arith), mono (suc j) len (omega (arith, b)))))
