-- ===== src/Scheduler/Cancellation/Chain.antt =====
-- scheduling/scheduler/src/cancellation_context.rs, `canceled_parent_context`: what the walk does to
-- one context, by whether the chain of parents comes to it.
use vprogs.Base.{
  ℕ, zero, suc, ◌<◌, ◌≤◌, ◌≡◌, ◌≢◌, ◌⊎◌, refl, sym, ap, ◌∙◌, subst, inl, inr, Bool, true, false,
  Option, none, some, arith, min, leb, ==_ne, ==_refl,
}
use native.Mathlib.Nat.{le_trans, le_of_lt, le_of_eq, le_refl}
use vprogs.Base.Order.{update}
use vprogs.Scheduler.Cancellation.{canceled_parent_context, upgrade}

-- A parent comes before its child.
abbrev pub Descends : (ℕ → Option ℕ) → Type 0
Descends parent = (x y : ℕ) → parent x ≡ some y → y < x

-- The chain from a context leads down to `c`, each threshold on it the first index of the child.
pub data Reaches (parent : ℕ → Option ℕ) (first threshold : ℕ → ℕ) (c : ℕ) : ℕ → Type 0 where
  here : Reaches parent first threshold c c
  up :
      {x : ℕ} (y : ℕ)
      → parent x ≡ some y
      → y < x
      → first y ≤ first x
      → threshold y ≡ first x
      → Reaches parent first threshold c y
      → Reaches parent first threshold c x

-- The chain from a context passes `c` by.
pub data Skips (parent : ℕ → Option ℕ) (c : ℕ) : ℕ → Type 0 where
  below : {x : ℕ} → x < c → Skips parent c x
  over : {x : ℕ} → c < x → ((y : ℕ) → parent x ≡ some y → Skips parent c y) → Skips parent c x

pub Reaches-le :
    {parent : ℕ → Option ℕ} {first threshold : ℕ → ℕ} {c x : ℕ}
    → Reaches parent first threshold c x
    → (c ≤ x) × (first c ≤ first x)
Reaches-le here = omega arith
Reaches-le (up y p h f t r) = omega (arith, Reaches-le r)

Reaches-threshold :
    {parent : ℕ → Option ℕ} {first threshold : ℕ → ℕ} {c y : ℕ} (x : ℕ)
    → first y ≤ first x
    → threshold y ≡ first x
    → Reaches parent first threshold c y
    → threshold c ≤ first x
Reaches-threshold x f t here = omega arith
Reaches-threshold x f t (up {x = y} z p h g u r) = omega (arith, Reaches-threshold y g u r)

-- Changes above a context leave its chain.
pub Reaches-agree :
    {parent parent' : ℕ → Option ℕ} {first first' threshold threshold' : ℕ → ℕ} {c x : ℕ} (n : ℕ)
    → ((y : ℕ) → y < n → parent' y ≡ parent y)
    → ((y : ℕ) → y < n → first' y ≡ first y)
    → ((y : ℕ) → y < n → threshold' y ≡ threshold y)
    → x < n
    → Reaches parent first threshold c x
    → Reaches parent' first' threshold' c x
Reaches-agree n p f t h here = here
Reaches-agree {x} n p f t h (up y e l g u r) =
    up y (p x h ∙ e) l (omega (arith, f x h, f y (omega arith)))
      (t y (omega arith) ∙ u ∙ sym (f x h)) (Reaches-agree n p f t (omega arith) r)

lt_trans : {a b c : ℕ} → a < b → b < c → a < c
lt_trans h k = omega arith

pub Skips-agree :
    {parent parent' : ℕ → Option ℕ} {c x : ℕ} (n : ℕ)
    → ((y : ℕ) → y < n → parent' y ≡ parent y)
    → Descends parent
    → x < n
    → Skips parent c x
    → Skips parent' c x
Skips-agree n p d h (below l) = below l
Skips-agree {parent} {x} n p d h (over l s) = over l λ y e.
    let stays : parent x ≡ some y = sym (p x h) ∙ e in
    Skips-agree n p d (lt_trans (d x y stays) h) (s y stays)

some_eq : {a b : ℕ} → some a ≡ some b → a ≡ b
some_eq h = cc

none_some : {a : ℕ} → none ≡ some a → ⊥
none_some h = cc

ne_of_lt : {a b : ℕ} → a < b → a ≢ b
ne_of_lt h q = omega arith

upgrade-some :
    (held : ℕ → Bool) (parent : Option ℕ) (y : ℕ) → upgrade held parent ≡ some y → parent ≡ some y
upgrade-some held none y e = e
upgrade-some held (some x) y e = ground (arith, e)

update_apart :
    (threshold : ℕ → ℕ) (x c index : ℕ) → c ≢ x → update threshold x index c ≡ threshold c
update_apart threshold x c index h = rw (==_ne c x h)

update_at : (threshold : ℕ → ℕ) (x index : ℕ) → update threshold x index x ≡ index
update_at threshold x index = rw (==_refl x)

module _ (held : ℕ → Bool) (parent : ℕ → Option ℕ) (first : ℕ → ℕ) (index : ℕ) where
  abbrev pub walk : ℕ → ℕ → (ℕ → ℕ) → (ℕ → ℕ) × Option ℕ
  walk fuel x threshold = canceled_parent_context held parent first fuel x index threshold

  abbrev Stops : ℕ → ℕ → (ℕ → ℕ) → Type 0
  Stops fuel x threshold =
      (first x ≤ index) × (walk (suc fuel) x threshold ≡ (update threshold x index, some x))

  abbrev Ends : ℕ → ℕ → (ℕ → ℕ) → Type 0
  Ends fuel x threshold =
      (index < first x)
      × (upgrade held (parent x) ≡ none)
      × (walk (suc fuel) x threshold ≡ (update threshold x index, none))

  abbrev Goes : ℕ → ℕ → (ℕ → ℕ) → Type 0
  Goes fuel x threshold =
      (index < first x)
      × (y : ℕ) × (upgrade held (parent x) ≡ some y)
      × (walk (suc fuel) x threshold ≡ walk fuel y (update threshold x index))

  -- One step of the walk.
  walk_cases :
      (fuel x : ℕ) (threshold : ℕ → ℕ)
      → Stops fuel x threshold ⊎ Ends fuel x threshold ⊎ Goes fuel x threshold
  unfolding canceled_parent_context
  walk_cases fuel x threshold = go (leb (first x) index) (upgrade held (parent x)) refl refl
    where
      go :
          (b : Bool) (next : Option ℕ)
          → leb (first x) index ≡ b
          → upgrade held (parent x) ≡ next
          → Stops fuel x threshold ⊎ Ends fuel x threshold ⊎ Goes fuel x threshold
      go true next e f = inl (ground (arith, e), rw (e, canceled_parent_context))
      go false none e f = inr (inl (ground (arith, e), f, rw (e, f, canceled_parent_context)))
      go false (some y) e f =
          inr (inr (ground (arith, e), y, f, rw (e, f, canceled_parent_context)))

  module _ (descends : Descends parent) (c : ℕ) where
    -- The walk leaves `c`, and the context it ends at passes it by.
    abbrev pub Untouched : (ℕ → ℕ) → ℕ → (ℕ → ℕ) × Option ℕ → Type 0
    Untouched threshold bound result =
        (result.0 c ≡ threshold c) × ((z : ℕ) → result.1 ≡ some z → (z ≤ bound) × Skips parent c z)

    Untouched-further :
        (threshold : ℕ → ℕ) (x y : ℕ) (result : (ℕ → ℕ) × Option ℕ)
        → c ≢ x
        → y < x
        → Untouched (update threshold x index) y result
        → Untouched threshold x result
    Untouched-further threshold x y result apart less (kept, passed) = (
      kept ∙ update_apart threshold x c index apart,
      λ z e. (le_trans (passed z e).0 (le_of_lt less), (passed z e).1),
    )

    walk_below :
        (fuel x : ℕ) (threshold : ℕ → ℕ) → x < c → Untouched threshold x (walk fuel x threshold)
    walk_below zero x threshold h = unfold canceled_parent_context in (refl, λ z e. cc)
    walk_below (suc fuel) x threshold h = elim (walk_cases fuel x threshold) [
      | inl (l, e) ↦ subst (Untouched threshold x) (sym e) (
        update_apart threshold x c index (λ q. omega arith),
        λ z f. let same : x ≡ z = some_eq f in (omega arith, below (omega arith)),
      )
      | inr (inl (l, u, e)) ↦
          subst (Untouched threshold x) (sym e)
            (update_apart threshold x c index (λ q. omega arith), λ z f. cc)
      | inr (inr (l, y, u, e)) ↦
          let less : y < x = descends x y (upgrade-some held (parent x) y u) in
          subst (Untouched threshold x) (sym e) (
            Untouched-further threshold x y (walk fuel y (update threshold x index))
              (λ q. omega arith) less (walk_below fuel y (update threshold x index) (omega arith)))
    ]

    pub walk-Skips :
        (fuel x : ℕ) (threshold : ℕ → ℕ)
        → Skips parent c x
        → Untouched threshold x (walk fuel x threshold)
    walk-Skips fuel x threshold (below h) = walk_below fuel x threshold h
    walk-Skips zero x threshold (over h s) = unfold canceled_parent_context in (refl, λ z e. cc)
    walk-Skips (suc fuel) x threshold (over h s) = elim (walk_cases fuel x threshold) [
      | inl (l, e) ↦ subst (Untouched threshold x) (sym e) (
        update_apart threshold x c index (λ q. omega arith),
        λ z f. (le_of_eq (sym (some_eq f)), subst (Skips parent c) (some_eq f) (over h s)),
      )
      | inr (inl (l, u, e)) ↦
          subst (Untouched threshold x) (sym e)
            (update_apart threshold x c index (λ q. omega arith), λ z f. cc)
      | inr (inr (l, y, u, e)) ↦
          let next : parent x ≡ some y = upgrade-some held (parent x) y u in
          subst (Untouched threshold x) (sym e) (
            Untouched-further threshold x y (walk fuel y (update threshold x index))
              (λ q. omega arith) (descends x y next)
              (walk-Skips fuel y (update threshold x index) (s y next)))
    ]

    -- Where the chain comes to `c`, the walk ends above it or at it, with the threshold lowered
    -- to the index, or goes past it and cuts it off.
    abbrev pub Kept : (ℕ → ℕ) → ℕ → (ℕ → ℕ) × Option ℕ → Type 0
    Kept threshold bound result =
        (result.0 c ≡ min (threshold c) index)
        × (z : ℕ) × (result.1 ≡ some z)
        × (z ≤ bound)
        × (first z ≤ index)
        × (result.0 z ≡ index)
        × Reaches parent first result.0 c z

    abbrev pub Cut : ℕ → (ℕ → ℕ) × Option ℕ → Type 0
    Cut bound result =
        (index < first c)
        × (result.0 c ≡ index)
        × ((z : ℕ) → result.1 ≡ some z → (z ≤ bound) × Skips parent c z)

    Reaches-stored :
        (threshold : ℕ → ℕ) (x y : ℕ)
        → y < x
        → Reaches parent first threshold c y
        → Reaches parent first (update threshold x index) c y
    Reaches-stored threshold x y h r =
        Reaches-agree x (λ z l. refl) (λ z l. refl)
          (λ z l. update_apart threshold x z index (λ q. omega arith)) h r

    apart_of : {threshold : ℕ → ℕ} (x y : ℕ) → y < x → Reaches parent first threshold c y → c ≢ x
    apart_of x y less r q = omega (arith, Reaches-le r)

    found :
        {threshold : ℕ → ℕ} {x : ℕ} (y : ℕ)
        → parent x ≡ some y
        → Reaches parent first threshold c y
        → ((p : ℕ) → c ≤ p → held p ≡ true)
        → upgrade held (parent x) ≡ some y
    found y p r alive = rw (p, alive y (Reaches-le r).0)

    further :
        (x y : ℕ) (threshold : ℕ → ℕ)
        → y < x
        → Reaches parent first threshold c y
        → (result next : (ℕ → ℕ) × Option ℕ) → result ≡ next
        → Kept (update threshold x index) y next ⊎ Cut y next
        → Kept threshold x result ⊎ Cut x result
    further x y threshold less r result next e (inl (k, z, f, b, l, t, reach)) = inl (
        subst (Kept threshold x) (sym e) (
          k ∙ ap (λ (u : ℕ). min u index) (update_apart threshold x c index (apart_of x y less r)),
          z,
          f,
          le_trans b (le_of_lt less),
          l,
          t,
          reach,
        ))
    further x y threshold less r result next e (inr (l, t, past)) =
        inr (
          subst (Cut x) (sym e)
            (l, t, λ z q. (le_trans (past z q).0 (le_of_lt less), (past z q).1)))

    pub walk-Reaches :
        (fuel x : ℕ) (threshold : ℕ → ℕ)
        → ((p : ℕ) → c ≤ p → held p ≡ true)
        → x < fuel
        → index ≤ threshold x
        → Reaches parent first threshold c x
        → Kept threshold x (walk fuel x threshold) ⊎ Cut x (walk fuel x threshold)
    walk-Reaches zero x threshold alive f l r = absurd (omega arith)
    walk-Reaches (suc fuel) x threshold alive f l here = elim (walk_cases fuel x threshold) [
      | inl (stop, e) ↦ inl (
          subst (Kept threshold x) (sym e) (
            update_at threshold x index ∙ omega arith,
            x,
            refl,
            le_refl x,
            stop,
            update_at threshold x index,
            here,
          ))
      | inr (inl (past, u, e)) ↦
          inr (subst (Cut x) (sym e) (past, update_at threshold x index, λ z q. cc))
      | inr (inr (past, y, u, e)) ↦
          let less : y < x = descends x y (upgrade-some held (parent x) y u) in
          let gone : Untouched (update threshold x index) y
              (walk fuel y (update threshold x index)) =
            walk_below fuel y (update threshold x index) less in
          inr (
            subst (Cut x) (sym e) (
              past,
              gone.0 ∙ update_at threshold x index,
              λ z q. (le_trans (gone.1 z q).0 (le_of_lt less), (gone.1 z q).1),
            ))
    ]
    walk-Reaches (suc fuel) x threshold alive f l (up y p less g t r) =
        elim (walk_cases fuel x threshold) [
          | inl (stop, e) ↦ inl (
              subst (Kept threshold x) (sym e) (
                update_apart threshold x c index (apart_of x y less r)
                    ∙ omega (arith, Reaches-threshold x g t r),
                x,
                refl,
                le_refl x,
                stop,
                update_at threshold x index,
                up y p less g (update_apart threshold x y index (λ q. omega arith) ∙ t)
                    (Reaches-stored threshold x y less r),
              ))
          | inr (inl (past, u, e)) ↦ absurd (none_some (sym u ∙ found y p r alive))
          | inr (inr (past, z, u, e)) ↦
              let same : z ≡ y = some_eq (sym u ∙ found y p r alive) in
              further x y threshold less r (walk (suc fuel) x threshold)
                (walk fuel y (update threshold x index))
                (e ∙ ap (λ (k : ℕ). walk fuel k (update threshold x index)) same)
                (walk-Reaches fuel y (update threshold x index) alive (omega arith)
                  (omega (arith, update_apart threshold x y index (ne_of_lt less), t))
                  (Reaches-stored threshold x y less r))
        ]
