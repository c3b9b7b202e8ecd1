-- ===== src/Tests/Differences.antt =====
-- Differences of texts on concrete input.
use aion2_hub.Prelude.{◌≡◌, refl, String, ◌===◌, ◌&&◌, List, [], ◌∷◌, if◌then◌else◌}
use aion2_hub.Text.{is_empty, ◌<+>◌}
use aion2_hub.Notices.Lines.{
  ChangeKind, Change, NoticeLineDiffBlock, crlf_to_lf, cr_to_lf, split_lf, pop_empty, split_lines,
  ends_with_lf, ensure_trailing_newline, blocks_of, build_line_diff_json, push_lines,
}
use aion2_hub.Notices.Lines.Blocks.{
  IsLineDiff, IsAlternating, lines_where, not_added, not_removed, build_line_diff_json-lines,
}

abbrev change : ChangeKind → String → Change
change k v = record { kind = k; value = v }

-- Two texts that share their first line, and any others by leaving out one and adding the other.
abbrev line_diff : String → String → List Change
line_diff a b =
    if a === "a\nb\n" && b === "a\nc\n"
    then change ChangeKind.same "a\n"
      ∷ change ChangeKind.removed "b\n"
      ∷ change ChangeKind.added "c\n"
      ∷ []
    else change ChangeKind.removed a ∷ change ChangeKind.added b ∷ []

abbrev old_text : String
old_text = "a\r\nb"

abbrev new_text : String
new_text = "a\nc\n"

abbrev text_blocks : List NoticeLineDiffBlock
text_blocks =
    record { kind = ChangeKind.same; lines = "a" ∷ [] }
    ∷ record { kind = ChangeKind.removed; lines = "b" ∷ [] }
    ∷ record { kind = ChangeKind.added; lines = "c" ∷ [] }
    ∷ []

text_blocks_run : build_line_diff_json line_diff old_text new_text ≡ text_blocks
unfolding build_line_diff_json ensure_trailing_newline split_lines push_lines blocks_of split_lf
    pop_empty crlf_to_lf cr_to_lf ends_with_lf is_empty ◌<+>◌ ◌===◌
text_blocks_run = refl

text_diff :
    IsLineDiff
      (ensure_trailing_newline old_text)
      (ensure_trailing_newline new_text)
      (line_diff (ensure_trailing_newline old_text) (ensure_trailing_newline new_text))
unfolding ensure_trailing_newline crlf_to_lf cr_to_lf ends_with_lf ◌<+>◌ ◌===◌
text_diff = record { from_text = refl; to_text = refl; whole_lines = (refl, (refl, (refl, tt))) }

build_line_diff_json-lines_example :
    (lines_where not_added (build_line_diff_json line_diff old_text new_text)
      ≡ split_lines (ensure_trailing_newline old_text))
    × (lines_where not_removed (build_line_diff_json line_diff old_text new_text)
        ≡ split_lines (ensure_trailing_newline new_text))
    × IsAlternating (build_line_diff_json line_diff old_text new_text)
build_line_diff_json-lines_example =
    build_line_diff_json-lines line_diff old_text new_text text_diff
