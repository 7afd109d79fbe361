-- ===== src/Codec/SortUnique.antt =====
-- core/codec/src/sort_unique.rs: items in order with their places, and an error on duplicates.
--
-- An item is a number. The sort of the library is an insertion sort: the order of equal items, which
-- the code leaves open, is lost in the error.
use vprogs.Base.{
  ℕ, suc, List, [], ◌∷◌, Bool, false, Option, none, some, ltb, ◌==◌, if◌then◌else◌, and_then,
}

abbrev pub enumerate : ℕ → List ℕ → List (ℕ × ℕ)
enumerate i [] = []
enumerate i (item ∷ items) = (item, i) ∷ enumerate (suc i) items

abbrev pub insert_item : ℕ × ℕ → List (ℕ × ℕ) → List (ℕ × ℕ)
insert_item a [] = a ∷ []
insert_item a (b ∷ bs) = if ltb b.0 a.0 then b ∷ insert_item a bs else a ∷ b ∷ bs

abbrev pub sort_items : List (ℕ × ℕ) → List (ℕ × ℕ)
sort_items [] = []
sort_items (a ∷ items) = insert_item a (sort_items items)

abbrev pub repeats : Option ℕ → ℕ → Bool
repeats none item = false
repeats (some prev) item = prev == item

-- The walk over the sorted order, after the item before.
abbrev pub collect_unique : Option ℕ → List (ℕ × ℕ) → Option (List ℕ × List ℕ)
collect_unique prev [] = some ([], [])
collect_unique prev (a ∷ items) =
    let rest = collect_unique (some a.0) items in
    if repeats prev a.0
    then none
    else and_then rest λ (sorted, order). some (a.0 ∷ sorted, a.1 ∷ order)

unfoldable pub sort_unique : List ℕ → Option (List ℕ × List ℕ)
sort_unique items = collect_unique none (sort_items (enumerate 0 items))
