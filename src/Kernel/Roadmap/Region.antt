-- ===== src/Kernel/Roadmap/Region.antt =====
-- src/kernel/roadmap/assemble.js: the rendering of the block and its merge into the document.
pub mod Merge
use omp_spec_kit.Prelude.{
  ℕ, ◌+◌, Text, text, text_beq, starts_with, length, drop, take, index_of_text, index_of_text_from,
  Bool, true, false, not, Option, none, some, is_some, List, [], ◌∷◌, ◌++◌, if◌then◌else◌, Result,
  ok, err,
}
use omp_spec_kit.Kernel.Types.{NodeKind}
use omp_spec_kit.Kernel.Roadmap.{Graph, Item, ItemStatus, collect_items, derive_scope}

abbrev pub newline : Text
newline = 10 ∷ []

abbrev pub status_name : ItemStatus → Text
status_name ItemStatus.planned = text "planned"
status_name ItemStatus.in_progress = text "in progress"
status_name ItemStatus.done = text "done"

-- The kinds of items; the other branch of the source is never taken.
abbrev pub kind_short_label : NodeKind → Text
kind_short_label NodeKind.functional_requirement = text "FR"
kind_short_label NodeKind.use_case = text "UC"
kind_short_label _ = text "US"

abbrev pub item_line : Item → Text
item_line item =
    text "- ["
    ++ (status_name item.status
        ++ (text "] "
            ++ (item.local_id
                ++ (text " — "
                    ++ (item.title ++ (text " (" ++ (kind_short_label item.kind ++ text ")")))))))

abbrev pub is_current : Option Text → Text → Bool
is_current none slug = false
is_current (some current) slug = text_beq slug current

abbrev pub spec_header : Option Text → Text → List Text
spec_header current slug =
    if is_current current slug
    then []
    else if is_some current
    then [] ∷ (text "### " ++ slug) ∷ []
    else (text "### " ++ slug) ∷ []

unfoldable pub block_lines : Option Text → List Item → List Text
block_lines current [] = []
block_lines current (item ∷ items) =
    spec_header current item.spec_slug ++ (item_line item ∷ block_lines (some item.spec_slug) items)

-- `lines.join("\n") + "\n"`
unfoldable pub join_lines : List Text → Text
join_lines [] = []
join_lines (line ∷ lines) = line ++ (newline ++ join_lines lines)

unfoldable pub render_block : List Item → Text
render_block items = join_lines (block_lines none items)

unfoldable pub start_marker : Text
start_marker = text "<!-- roadmap:auto:start -->"

unfoldable pub end_marker : Text
end_marker = text "<!-- roadmap:auto:end -->"

pub data RoadmapError : Type 0 where
  not_a_roadmap_spec invalid_input missing_start missing_end duplicate_markers : RoadmapError

abbrev pub merge_parts : Text → Text → ℕ → Option ℕ → Result RoadmapError Text
merge_parts document_text generated_block from none = err RoadmapError.missing_end
merge_parts document_text generated_block from (some end_idx) =
    if is_some (index_of_text_from start_marker document_text from)
    then err RoadmapError.duplicate_markers
    else ok
        (take from document_text ++ (newline ++ (generated_block ++ drop end_idx document_text)))

abbrev pub merge_after : Text → Text → Option ℕ → Result RoadmapError Text
merge_after document_text generated_block none = err RoadmapError.missing_start
merge_after document_text generated_block (some start_idx) =
    let from = start_idx + length start_marker in
    merge_parts document_text generated_block from
      (index_of_text_from end_marker document_text from)

unfoldable pub merge_region : Text → Text → Result RoadmapError Text
merge_region document_text generated_block =
    merge_after document_text generated_block (index_of_text start_marker document_text)

pub record Assembled : Type 0 where
  pub content : Text
  pub scope : List Text
  pub item_count : ℕ

abbrev pub assembled :
    List Text → List Item → Result RoadmapError Text → Result RoadmapError Assembled
assembled scope items (err e) = err e
assembled scope items (ok content) =
    ok (record { content = content; scope = scope; item_count = length items })

-- `none` stands for a document that is not a string.
unfoldable pub assemble_roadmap :
    (Text → Text) → Graph → Text → Option Text → Result RoadmapError Assembled
assemble_roadmap lower g spec_slug none =
    if not (starts_with spec_slug (text "roadmap-"))
    then err RoadmapError.not_a_roadmap_spec
    else err RoadmapError.invalid_input
assemble_roadmap lower g spec_slug (some document_text) =
    let scope = derive_scope g spec_slug in
    let items = collect_items lower g scope in
    if not (starts_with spec_slug (text "roadmap-"))
    then err RoadmapError.not_a_roadmap_spec
    else assembled scope items (merge_region document_text (render_block items))
