-- ===== src/Notices/Lines/Blocks.antt =====
-- The blocks of a difference of two texts: `buildLineDiffJson` of
-- apps/desktop/src/main/notices/diff.ts.
use mathlib.Core.List.{append-nil, append_assoc}
use aion2_hub.Prelude.{
  ◌≡◌, refl, sym, ap, ◌∙◌, inl, inr, String, Bool, true, false, not, Bool-cases, List, [], ◌∷◌,
  ◌++◌, if◌then◌else◌,
}
use aion2_hub.Prelude.Sort.{All}
use aion2_hub.Text.{◌<+>◌}
use aion2_hub.Notices.Lines.{
  ChangeKind, Change, NoticeLineDiffBlock, split_lines, ends_with_lf, ensure_trailing_newline,
  same_kind, push_lines, push_some, blocks_of, build_line_diff_json,
}
use aion2_hub.Notices.Lines.Splits.{split_lines-append, split_lines-empty}

abbrev pub not_added : ChangeKind → Bool
not_added k = not (same_kind k ChangeKind.added)

abbrev pub not_removed : ChangeKind → Bool
not_removed k = not (same_kind k ChangeKind.removed)

-- The texts of the changes of some kinds, end to end, and the lines of such blocks.
abbrev pub joined_text : (ChangeKind → Bool) → List Change → String
joined_text keep [] = String.[]
joined_text keep (c ∷ cs) =
    if keep c.kind then c.value <+> joined_text keep cs else joined_text keep cs

abbrev pub lines_where : (ChangeKind → Bool) → List NoticeLineDiffBlock → List String
lines_where keep [] = []
lines_where keep (b ∷ bs) = (if keep b.kind then b.lines else []) ++ lines_where keep bs

-- No two blocks in a row have one type.
abbrev pub IsAlternating : List NoticeLineDiffBlock → Type 0
IsAlternating [] = Unit
IsAlternating (b ∷ []) = Unit
IsAlternating (b ∷ c ∷ bs) = (same_kind b.kind c.kind ≡ false) × IsAlternating (c ∷ bs)

-- What `diffLines` gives for two texts: changes of whole lines, which make up the first text
-- without those that are added, and the second without those that are removed.
pub record IsLineDiff (a b : String) (cs : List Change) : Type 0 where
  pub from_text : joined_text not_added cs ≡ a
  pub to_text : joined_text not_removed cs ≡ b
  pub whole_lines : All (λ (c : Change). ends_with_lf c.value ≡ true) cs

same_kind-eq : (a b : ChangeKind) → same_kind a b ≡ true → a ≡ b
same_kind-eq ChangeKind.same ChangeKind.same e = refl
same_kind-eq ChangeKind.same ChangeKind.added e = cc
same_kind-eq ChangeKind.same ChangeKind.removed e = cc
same_kind-eq ChangeKind.added ChangeKind.same e = cc
same_kind-eq ChangeKind.added ChangeKind.added e = refl
same_kind-eq ChangeKind.added ChangeKind.removed e = cc
same_kind-eq ChangeKind.removed ChangeKind.same e = cc
same_kind-eq ChangeKind.removed ChangeKind.added e = cc
same_kind-eq ChangeKind.removed ChangeKind.removed e = refl

module _ (keep : ChangeKind → Bool) where
  abbrev kept : ChangeKind → List String → List String
  kept k ls = if keep k then ls else []

  kept-append : (k : ChangeKind) (xs ys : List String) → kept k (xs ++ ys) ≡ kept k xs ++ kept k ys
  kept-append k xs ys = elim (Bool-cases (keep k)) [ inl e ↦ rw e refl | inr e ↦ rw e refl ]

  lines_where-push :
      (k : ChangeKind) (ls : List String) (bs : List NoticeLineDiffBlock)
      → lines_where keep (push_lines k ls bs) ≡ lines_where keep bs ++ kept k ls
  unfolding push_lines
  lines_where-push k ls [] = append-nil (kept k ls)
  lines_where-push k ls (b ∷ []) = elim (Bool-cases (same_kind b.kind k)) [
    | inl e ↦
        rw (e, append-nil (kept b.kind (b.lines ++ ls)), append-nil (kept b.kind b.lines))
          (kept-append b.kind b.lines ls
            ∙ ap (λ j. kept b.kind b.lines ++ kept j ls) (same_kind-eq b.kind k e))
    | inr e ↦ rw (e, append-nil (kept k ls), append-nil (kept b.kind b.lines)) refl
  ]
  lines_where-push k ls (b ∷ c ∷ bs) =
      ap (λ l. kept b.kind b.lines ++ l) (lines_where-push k ls (c ∷ bs))
      ∙ sym (append_assoc (kept b.kind b.lines) (lines_where keep (c ∷ bs)) (kept k ls))

  lines_where-push_some :
      (k : ChangeKind) (ls : List String) (bs : List NoticeLineDiffBlock)
      → lines_where keep (push_some k ls bs) ≡ lines_where keep bs ++ kept k ls
  lines_where-push_some k [] bs = elim (Bool-cases (keep k)) [
    | inl e ↦ rw e (sym (append-nil (lines_where keep bs)))
    | inr e ↦ rw e (sym (append-nil (lines_where keep bs)))
  ]
  lines_where-push_some k (l ∷ ls) bs = lines_where-push k (l ∷ ls) bs

  split_lines-joined_text :
      (c : Change) (cs : List Change)
      → ends_with_lf c.value ≡ true
      → split_lines (joined_text keep (c ∷ cs))
        ≡ kept c.kind (split_lines c.value) ++ split_lines (joined_text keep cs)
  split_lines-joined_text c cs e = elim (Bool-cases (keep c.kind)) [
    | inl h ↦ rw h (split_lines-append c.value (joined_text keep cs) e)
    | inr h ↦ rw h refl
  ]

  pub lines_where-blocks_of :
      (cs : List Change) (bs : List NoticeLineDiffBlock)
      → All (λ (c : Change). ends_with_lf c.value ≡ true) cs
      → lines_where keep (blocks_of cs bs)
        ≡ lines_where keep bs ++ split_lines (joined_text keep cs)
  unfolding blocks_of
  lines_where-blocks_of [] bs a = rw split_lines-empty (sym (append-nil (lines_where keep bs)))
  lines_where-blocks_of (c ∷ cs) bs a =
      let added = kept c.kind (split_lines c.value) in
      lines_where-blocks_of cs (push_some c.kind (split_lines c.value) bs) a.1
      ∙ ap (λ l. l ++ split_lines (joined_text keep cs))
          (lines_where-push_some c.kind (split_lines c.value) bs)
      ∙ append_assoc (lines_where keep bs) added (split_lines (joined_text keep cs))
      ∙ ap (λ l. lines_where keep bs ++ l) (sym (split_lines-joined_text c cs a.0))

-- The type of the first block stays when lines are pushed to the end.
push_lines-first :
    (k : ChangeKind) (ls : List String) (b : NoticeLineDiffBlock) (bs : List NoticeLineDiffBlock)
    → (d : NoticeLineDiffBlock) × (rest : List NoticeLineDiffBlock) × (push_lines k ls (b ∷ bs)
        ≡ d ∷ rest)
      × (d.kind ≡ b.kind)
unfolding push_lines
push_lines-first k ls b [] = elim (Bool-cases (same_kind b.kind k)) [
  | inl e ↦ (record b { lines = b.lines ++ ls }, [], rw e refl, refl)
  | inr e ↦ (b, record { kind = k; lines = ls } ∷ [], rw e refl, refl)
]
push_lines-first k ls b (c ∷ bs) = (b, push_lines k ls (c ∷ bs), refl, refl)

IsAlternating-cons :
    (b d : NoticeLineDiffBlock) (rest bs : List NoticeLineDiffBlock)
    → bs ≡ d ∷ rest
    → same_kind b.kind d.kind ≡ false
    → IsAlternating bs
    → IsAlternating (b ∷ bs)
IsAlternating-cons b d rest bs e h a = rw e (h, rw e at a)

push_lines-IsAlternating :
    (k : ChangeKind) (ls : List String) (bs : List NoticeLineDiffBlock)
    → IsAlternating bs
    → IsAlternating (push_lines k ls bs)
unfolding push_lines
push_lines-IsAlternating k ls [] a = tt
push_lines-IsAlternating k ls (b ∷ []) a = elim (Bool-cases (same_kind b.kind k)) [
  | inl e ↦ rw e tt
  | inr e ↦ rw e (e, tt)
]
push_lines-IsAlternating k ls (b ∷ c ∷ bs) a =
    let (d, rest, e, h) = push_lines-first k ls c bs in
    IsAlternating-cons b d rest (push_lines k ls (c ∷ bs)) e (rw h a.0)
      (push_lines-IsAlternating k ls (c ∷ bs) a.1)

push_some-IsAlternating :
    (k : ChangeKind) (ls : List String) (bs : List NoticeLineDiffBlock)
    → IsAlternating bs
    → IsAlternating (push_some k ls bs)
push_some-IsAlternating k [] bs a = a
push_some-IsAlternating k (l ∷ ls) bs a = push_lines-IsAlternating k (l ∷ ls) bs a

blocks_of-IsAlternating :
    (cs : List Change) (bs : List NoticeLineDiffBlock)
    → IsAlternating bs
    → IsAlternating (blocks_of cs bs)
unfolding blocks_of
blocks_of-IsAlternating [] bs a = a
blocks_of-IsAlternating (c ∷ cs) bs a =
    blocks_of-IsAlternating cs _ (push_some-IsAlternating c.kind (split_lines c.value) bs a)

-- If `diffLines` gives changes of whole lines that make up both texts, then the lines of the blocks
-- that are not added are those of the old text, the lines of the blocks that are not removed are
-- those of the new one, both in order, and no two blocks in a row have one type. The texts are
-- those that the code hands to `diffLines`, where each line ends with "\n".
pub build_line_diff_json-lines :
    (diff_lines : String → String → List Change) (from_text to_text : String)
    → IsLineDiff
        (ensure_trailing_newline from_text)
        (ensure_trailing_newline to_text)
        (diff_lines (ensure_trailing_newline from_text) (ensure_trailing_newline to_text))
    → (lines_where not_added (build_line_diff_json diff_lines from_text to_text)
        ≡ split_lines (ensure_trailing_newline from_text))
      × (lines_where not_removed (build_line_diff_json diff_lines from_text to_text)
          ≡ split_lines (ensure_trailing_newline to_text))
      × IsAlternating (build_line_diff_json diff_lines from_text to_text)
unfolding build_line_diff_json
build_line_diff_json-lines diff_lines from_text to_text d =
    let cs = diff_lines (ensure_trailing_newline from_text) (ensure_trailing_newline to_text) in
    (
      lines_where-blocks_of not_added cs [] d.whole_lines ∙ ap split_lines d.from_text,
      lines_where-blocks_of not_removed cs [] d.whole_lines ∙ ap split_lines d.to_text,
      blocks_of-IsAlternating cs [] tt,
    )
