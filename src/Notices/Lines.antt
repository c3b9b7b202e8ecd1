-- ===== src/Notices/Lines.antt =====
-- The differences of two texts, by lines: apps/desktop/src/main/notices/diff.ts, and the same code
-- in apps/worker/src/notices/diff.ts. `diffLines` of the package `diff` is a parameter.
pub mod Splits
pub mod Blocks
use Prim.Native.Char.{Char, code}
use aion2_hub.Prelude.{
  ◌≡◌, refl, String, Bool, true, false, ◌&&◌, ◌==◌, List, [], ◌∷◌, ◌++◌, if◌then◌else◌,
}
use aion2_hub.Text.{◌<+>◌, is_empty}

pub data ChangeKind : Type 0 where
  same added removed : ChangeKind

-- A change of `diffLines`, as `added` and `removed` tell its kind.
pub record Change : Type 0 where
  pub kind : ChangeKind
  pub value : String

pub record NoticeLineDiffBlock : Type 0 where
  pub kind : ChangeKind
  pub lines : List String

abbrev pub starts_with_lf : String → Bool
starts_with_lf String.[] = false
starts_with_lf (String.◌∷◌ c s) = code c == 10

-- `replaceAll("\r\n", "\n")`: what is left out is the "\r".
unfoldable pub crlf_to_lf : String → String
crlf_to_lf String.[] = String.[]
crlf_to_lf (String.◌∷◌ c s) =
    let rest = crlf_to_lf s in if code c == 13 && starts_with_lf s then rest else String.◌∷◌ c rest

-- `replaceAll("\r", "\n")`.
unfoldable pub cr_to_lf : String → String
cr_to_lf String.[] = String.[]
cr_to_lf (String.◌∷◌ c s) = String.◌∷◌ (if code c == 13 then "\n" else c) (cr_to_lf s)

abbrev pub normalized_lines : String → String
normalized_lines s = cr_to_lf (crlf_to_lf s)

abbrev pub with_first : Char → List String → List String
with_first c [] = String.◌∷◌ c String.[] ∷ []
with_first c (l ∷ ls) = String.◌∷◌ c l ∷ ls

-- `split("\n")`.
unfoldable pub split_lf : String → List String
split_lf String.[] = String.[] ∷ []
split_lf (String.◌∷◌ c s) =
    let rest = split_lf s in if code c == 10 then String.[] ∷ rest else with_first c rest

-- `if (parts.at(-1) === "") parts.pop()`.
unfoldable pub pop_empty : List String → List String
pop_empty [] = []
pop_empty (l ∷ []) = if is_empty l then [] else l ∷ []
pop_empty (l ∷ m ∷ ls) = l ∷ pop_empty (m ∷ ls)

unfoldable pub split_lines : String → List String
unfolding split_lf pop_empty crlf_to_lf cr_to_lf
split_lines s = pop_empty (split_lf (normalized_lines s))

unfoldable pub ends_with_lf : String → Bool
ends_with_lf String.[] = false
ends_with_lf (String.◌∷◌ c String.[]) = code c == 10
ends_with_lf (String.◌∷◌ c (String.◌∷◌ d s)) = ends_with_lf (String.◌∷◌ d s)

unfoldable pub ensure_trailing_newline : String → String
unfolding ends_with_lf crlf_to_lf cr_to_lf
ensure_trailing_newline s =
    let normalized = normalized_lines s in
    if ends_with_lf normalized then normalized else normalized <+> "\n"

abbrev pub same_kind : ChangeKind → ChangeKind → Bool
same_kind ChangeKind.same ChangeKind.same = true
same_kind ChangeKind.added ChangeKind.added = true
same_kind ChangeKind.removed ChangeKind.removed = true
same_kind a b = false

-- The lines go to the last block, if it has their type, and to a new one otherwise.
unfoldable pub push_lines :
    ChangeKind → List String → List NoticeLineDiffBlock → List NoticeLineDiffBlock
push_lines kind lines [] = record { kind = kind; lines = lines } ∷ []
push_lines kind lines (b ∷ []) =
    if same_kind b.kind kind
    then record b { lines = b.lines ++ lines } ∷ []
    else b ∷ record { kind = kind; lines = lines } ∷ []
push_lines kind lines (b ∷ c ∷ bs) = b ∷ push_lines kind lines (c ∷ bs)

-- `if (lines.length === 0) continue`.
abbrev pub push_some :
    ChangeKind → List String → List NoticeLineDiffBlock → List NoticeLineDiffBlock
push_some kind [] blocks = blocks
push_some kind (l ∷ ls) blocks = push_lines kind (l ∷ ls) blocks

unfoldable pub blocks_of : List Change → List NoticeLineDiffBlock → List NoticeLineDiffBlock
unfolding push_lines split_lines
blocks_of [] blocks = blocks
blocks_of (c ∷ cs) blocks = blocks_of cs (push_some c.kind (split_lines c.value) blocks)

unfoldable pub build_line_diff_json :
    (String → String → List Change) → String → String → List NoticeLineDiffBlock
unfolding ensure_trailing_newline blocks_of
build_line_diff_json diff_lines from_text to_text =
    blocks_of (diff_lines (ensure_trailing_newline from_text) (ensure_trailing_newline to_text)) []
