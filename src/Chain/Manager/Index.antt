-- ===== src/Chain/Manager/Index.antt =====
-- The reverse index of storage/canonical-chain/src/manager.rs agrees with the log.
use vprogs.Base.{
  ℕ, zero, suc, ◌+◌, ◌-◌, ◌≤◌, ◌<◌, ◌≡◌, ◌⊎◌, refl, ◌∙◌, sym, ap, inl, inr, true, false, List, [],
  ◌∷◌, Option, none, some, arith, ◌==◌, ==_iff, ==_refl, ==_ne, Bool-cases, if◌then◌else◌, length,
  get_elem?,
}
use mathlib.Core.Option.{some-injective}
use vprogs.Base.Order.{update}
use vprogs.Chain.Oracle.{snoc}
use vprogs.Chain.Manager.{BatchMetadata}

pub length-snoc {ℓ} : {A : Type ℓ} (xs : List A) (a : A) → length (snoc xs a) ≡ suc (length xs)
length-snoc [] a = refl
length-snoc (x ∷ xs) a = ap suc (length-snoc xs a)

pub get_elem?-snoc :
    {A : Type 0} (xs : List A) (a : A) (i : ℕ)
    → get_elem? (snoc xs a) i ≡ (if i == length xs then some a else get_elem? xs i)
get_elem?-snoc [] a zero = refl
get_elem?-snoc [] a (suc i) = ground arith
get_elem?-snoc (x ∷ xs) a zero = ground arith
get_elem?-snoc (x ∷ xs) a (suc i) = get_elem?-snoc xs a i ∙ ground arith

pub get_elem?_bound :
    {A : Type 0} (xs : List A) (i : ℕ) (a : A) → get_elem? xs i ≡ some a → i < length xs
get_elem?_bound [] i a e = cc
get_elem?_bound (x ∷ xs) zero a e = omega arith
get_elem?_bound (x ∷ xs) (suc i) a e = omega (arith, get_elem?_bound xs i a e)

module _ {M : Type 0} ⦃meta : BatchMetadata M⦄ where
  -- Each indexed hash is that of a live entry, and each live entry is indexed under its id.
  pub record Indexed (base : ℕ) (entries : List M) (index : ℕ → Option ℕ) : Type 0 where
    pub live :
        (h k : ℕ)
        → index h ≡ some k
        → (e : M) × (base ≤ k) × (get_elem? entries (k - base) ≡ some e) × (meta.block_hash e ≡ h)
    pub complete :
        (i : ℕ) (e : M) → get_elem? entries i ≡ some e → index (meta.block_hash e) ≡ some (base + i)

  pub empty-Indexed : (base : ℕ) → Indexed base [] (λ h. none)
  empty-Indexed base = record { live = λ h k e. cc; complete = λ i e p. cc }

  -- An entry with an unseen hash takes the next id.
  pub snoc-Indexed :
      (base : ℕ) (entries : List M) (index : ℕ → Option ℕ) (e : M)
      → Indexed base entries index
      → index (meta.block_hash e) ≡ none
      → Indexed base
          (snoc entries e)
          (update index (meta.block_hash e) (some (base + length entries)))
  snoc-Indexed base entries index e x fresh = record { live = live_snoc; complete = complete_snoc }
    where
      n : ℕ
      n = length entries

      live_snoc :
          (h k : ℕ)
          → update index (meta.block_hash e) (some (base + n)) h ≡ some k
          → (d : M) × (base ≤ k)
            × (get_elem? (snoc entries e) (k - base) ≡ some d)
            × (meta.block_hash d ≡ h)
      live_snoc h k p = elim (Bool-cases (h == meta.block_hash e)) [
        | inl same ↦
            let q : base + n ≡ k = ground arith in
            let r : (k - base == n) ≡ true = ground arith in
            (
              e,
              omega arith,
              get_elem?-snoc entries e (k - base) ∙ rw r,
              sym ((==_iff h (meta.block_hash e)).0 same),
            )
        | inr other ↦
            let (d, a, b, c) = x.live h k (rw other at p) in
            let r : (k - base == n) ≡ false =
              ground (arith, get_elem?_bound entries (k - base) d) in
            (d, a, get_elem?-snoc entries e (k - base) ∙ rw r b, c)
      ]

      complete_snoc :
          (i : ℕ) (d : M)
          → get_elem? (snoc entries e) i ≡ some d
          → update index (meta.block_hash e) (some (base + n)) (meta.block_hash d) ≡ some (base + i)
      complete_snoc i d p = elim (Bool-cases (i == n)) [
        | inl last ↦
            let q : e ≡ d = ground (arith, get_elem?-snoc entries e i) in
            rw (← q, ==_refl (meta.block_hash e))
              (ap (λ (t : ℕ). some (base + t)) (sym ((==_iff i n).0 last)))
        | inr old ↦
            let q : get_elem? entries i ≡ some d = ground (arith, get_elem?-snoc entries e i) in
            let u = x.complete i d q in
            let r : (meta.block_hash d == meta.block_hash e) ≡ false =
              ==_ne (meta.block_hash d) (meta.block_hash e) (λ same. cc (ap index same)) in
            rw r u
      ]

  -- Dropping the front entry with its key.
  pub tail-Indexed :
      (base : ℕ) (e : M) (entries : List M) (index : ℕ → Option ℕ)
      → Indexed base (e ∷ entries) index
      → Indexed (base + 1) entries (update index (meta.block_hash e) none)
  tail-Indexed base e entries index x = record {
    live = λ h k p. live_tail h k p (Bool-cases (h == meta.block_hash e));
    complete = complete_tail;
  }
    where
      later :
          (h k : ℕ) (d : M) (j : ℕ)
          → (h == meta.block_hash e) ≡ false
          → base ≤ k
          → k - base ≡ j
          → get_elem? (e ∷ entries) j ≡ some d
          → meta.block_hash d ≡ h
          → (d : M) × (base + 1 ≤ k)
            × (get_elem? entries (k - (base + 1)) ≡ some d)
            × (meta.block_hash d ≡ h)
      later h k d zero other a q b c =
          absurd (ground (arith, ap meta.block_hash (some-injective e d b)))
      later h k d (suc j) other a q b c =
          let r : k - (base + 1) ≡ j = omega arith in (d, omega arith, rw r b, c)

      live_tail :
          (h k : ℕ)
          → update index (meta.block_hash e) none h ≡ some k
          → ((h == meta.block_hash e) ≡ true) ⊎ ((h == meta.block_hash e) ≡ false)
          → (d : M) × (base + 1 ≤ k)
            × (get_elem? entries (k - (base + 1)) ≡ some d)
            × (meta.block_hash d ≡ h)
      live_tail h k p (inl same) = absurd (ground arith)
      live_tail h k p (inr other) =
          let (d, a, b, c) = x.live h k (rw other at p) in later h k d (k - base) other a refl b c

      complete_tail :
          (i : ℕ) (d : M)
          → get_elem? entries i ≡ some d
          → update index (meta.block_hash e) none (meta.block_hash d) ≡ some (base + 1 + i)
      complete_tail i d p =
          let u = x.complete (suc i) d p in
          let w = x.complete zero e refl in
          let r : (meta.block_hash d == meta.block_hash e) ≡ false =
            ==_ne (meta.block_hash d) (meta.block_hash e) (λ same. ground (arith, ap index same)) in
          rw r (u ∙ ap some (omega arith))
