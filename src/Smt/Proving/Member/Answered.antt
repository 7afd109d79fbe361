-- ===== src/Smt/Proving/Member/Answered.antt =====
-- core/smt/src/proving: the members of a built proof answer for the tree.
use vprogs.Base.{
  ℕ, zero, suc, ◌+◌, ◌<◌, ◌≡◌, refl, subst, ap, ap₂, ◌∙◌, List, [], ◌∷◌, ◌++◌, true, Option, some,
  arith, ltb, leb, take, get_elem?, length, length-append, take-append,
}
use vprogs.Smt.{Key, Node, Commitment, depth, root_key}
use vprogs.Smt.Updater.{existing}
use vprogs.Smt.Entries.{Ascending, Live}
use vprogs.Smt.Entries.Halves.{Shares}
use vprogs.Smt.Reference.{Holds}
use vprogs.Smt.Proving.Traversal.{Proof}
use vprogs.Smt.Proving.Lays.{as_entries}
use vprogs.Smt.Proving.Builder.{built, build}
use vprogs.Smt.Proving.Root.{built-tips}
use vprogs.Smt.Proving.Post.Roots.{build-Lays, built-GroupMembers}
use vprogs.Smt.Proving.Member.{strictly_sorted, check_sorted_queried_keys}
use vprogs.Smt.Proving.Member.Answers.{Answer, Answers, Lays-Answers}

Answers-at :
    (p : Proof) (o i k : ℕ) (ks : List ℕ) (es : List Commitment)
    → Answers p o ks es
    → get_elem? ks i ≡ some k
    → Answer p (o + i) k es
Answers-at p o i k [] es a e = absurd (cc e)
Answers-at p o zero k (l ∷ ks) es a e =
    let same : l ≡ k = cc in
    subst (λ (t : ℕ). Answer p t k es) (omega arith) (subst (λ (t : ℕ). Answer p o t es) same a.0)
Answers-at p o (suc i) k (l ∷ ks) es a e =
    subst (λ (t : ℕ). Answer p t k es) (omega arith) (Answers-at p (suc o) i k ks es a.1 e)

strictly_sorted-Ascending : (ks : List ℕ) → Ascending (as_entries ks) → strictly_sorted ks ≡ true
strictly_sorted-Ascending [] a = refl
strictly_sorted-Ascending (k ∷ []) a = refl
strictly_sorted-Ascending (k ∷ l ∷ ks) a =
    let less : ltb k l ≡ true = ground (arith, a.0.0) in
    rw (less, strictly_sorted-Ascending (l ∷ ks) a.1) refl

sorted_keys :
    (p : Proof) (ks more : List ℕ)
    → Ascending (as_entries ks)
    → p.keys ≡ ks ++ more
    → length p.memberships ≡ length ks
    → check_sorted_queried_keys p ≡ true
unfolding check_sorted_queried_keys
sorted_keys p ks more a e n =
    let long : leb (length p.memberships) (length p.keys) ≡ true =
      ground (arith, n, ap (λ (t : List ℕ). length t) e, length-append ks more) in
    let queried : take (length p.memberships) p.keys ≡ ks =
      ap₂ take n e ∙ take-append (length ks) ks more refl in
    rw (long, queried) (strictly_sorted-Ascending ks a)

-- Where a tree holds a list of live entries, with ascending keys of 256 bits, and a proof is built
-- for keys of 256 bits in strictly ascending order, the building succeeds, the keys pass the check
-- that they are sorted, and the member at the place of each of the keys is found without an error:
-- it has that key, and its value is the one that the entries have for the key, or the empty hash
-- where they have none.
pub member-build :
    (hash_parts : List ℕ → List ℕ → ℕ) (node : Key → Option (ℕ × Node)) (es : List Commitment)
    (keys_input : List ℕ) (i k : ℕ)
    → Ascending es
    → Live es
    → Shares depth 0 es
    → Holds hash_parts (λ key. existing (node key)) depth root_key es
    → Ascending (as_entries keys_input)
    → Shares depth 0 (as_entries keys_input)
    → get_elem? keys_input i ≡ some k
    → (proof : Proof) × (build node keys_input ≡ some proof)
      × (check_sorted_queried_keys proof ≡ true)
      × Answer proof i k es
member-build hash_parts node es keys_input i k a l s h b t q =
    let (c, shape, mss, ns, e, adds, f, y, r, cl, size) =
      build-Lays hash_parts node es keys_input a l s h (some_key keys_input q) (b, t) in
    (
      built c ns,
      e,
      sorted_keys (built c ns) keys_input adds.new_keys b adds.keyed size,
      subst (λ (j : ℕ). Answer (built c ns) j k es) (from_zero i)
          (Answers-at (built c ns) 0 i k keys_input es
            (Lays-Answers hash_parts (built c ns) depth 0 0 0 0 es keys_input shape mss refl (b, t)
              f y (built-tips keys_input c shape mss ns adds)
              (built-GroupMembers hash_parts keys_input (λ j. 0) es c shape mss ns (b, t) adds y
                cl))
            q),
    )
  where
    some_key : (ks : List ℕ) → get_elem? ks i ≡ some k → 0 < length ks
    some_key [] e = absurd (cc e)
    some_key (x ∷ ks) e = omega arith

    from_zero : (j : ℕ) → 0 + j ≡ j
    from_zero j = omega arith
