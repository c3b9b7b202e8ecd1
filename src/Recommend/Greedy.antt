-- ===== src/Recommend/Greedy.antt =====
-- Taking the shortest first, whatever fits: no other choice within the budget has more items.
use aion2_hub.Prelude.{
  ℕ, ◌-◌, ◌≤◌, inl, inr, List, [], ◌∷◌, leb, if◌then◌else◌, length, arith, Bool-cases,
}
use aion2_hub.Prelude.Sort.{
  Selection, Selection-All, Selection-sort_by, sort_by, sort_by-sums, sort_by-IsAscending,
  IsAscending, total,
}

module _ {ℓ} {A : Type ℓ} (key : A → ℕ) where
  unfoldable pub greedy : ℕ → List A → List A
  greedy b [] = []
  greedy b (x ∷ xs) =
      let skipped = greedy b xs in
      let rest = greedy (b - key x) xs in if leb (key x) b then x ∷ rest else skipped

  -- The picks are candidates in their order, and fit into the budget.
  pub greedy-Selection : (b : ℕ) (xs : List A) → Selection (greedy b xs) xs
  unfolding greedy
  greedy-Selection b [] = Selection.nothing
  greedy-Selection b (x ∷ xs) = elim (Bool-cases (leb (key x) b)) [
    | inl e ↦ rw e (Selection.take x (greedy-Selection (b - key x) xs))
    | inr e ↦ rw e (Selection.skip x (greedy-Selection b xs))
  ]

  pub total-greedy : (b : ℕ) (xs : List A) → total key (greedy b xs) ≤ b
  unfolding greedy
  total-greedy b [] = omega arith
  total-greedy b (x ∷ xs) = ground (arith, total-greedy (b - key x) xs, total-greedy b xs)

  Selection-tail : {y : A} {s l : List A} → Selection (y ∷ s) l → Selection s l
  Selection-tail (Selection.skip x r) = Selection.skip x (Selection-tail r)
  Selection-tail (Selection.take x r) = Selection.skip x r

  -- The best choice from an ascending list is made from its front.
  pub greedy-max :
      (b : ℕ) (xs : List A) {s : List A}
      → IsAscending key xs
      → Selection s xs
      → total key s ≤ b
      → length s ≤ length (greedy b xs)
  unfolding greedy
  greedy-max b [] h Selection.nothing le = omega arith
  greedy-max b (x ∷ xs) h (Selection.take {s = s} x' r) le =
      let fits : key x ≤ b = omega arith in
      ground (arith, greedy-max (b - key x) xs {s = s} h.1 r (omega arith))
  greedy-max b (x ∷ xs) {s = []} h r le = omega arith
  greedy-max b (x ∷ xs) {s = y ∷ s} h (Selection.skip x' r) le =
      let least = Selection-All (λ z. key x ≤ key z) r h.0 in
      ground (
        arith,
        least.0,
        greedy-max b xs {s = y ∷ s} h.1 r le,
        greedy-max (b - key x) xs {s = s} h.1 (Selection-tail r) (omega (arith, least.0)),
      )

module _ {ℓ} {A : Type ℓ} (key : A → ℕ) (b : ℕ) (items : List A) where
  -- From any list, sorted first: no selection within the budget is longer.
  pub greedy_sorted-max :
      {s : List A}
      → Selection s items
      → total key s ≤ b
      → length s ≤ length (greedy key b (sort_by key items))
  greedy_sorted-max {s} r le =
      let best =
        greedy-max key b (sort_by key items) {s = sort_by key s} (sort_by-IsAscending key items)
          (Selection-sort_by key r) (omega (arith, sort_by-sums key s)) in
      omega (arith, best, sort_by-sums key s)
