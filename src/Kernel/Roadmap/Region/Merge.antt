-- ===== src/Kernel/Roadmap/Region/Merge.antt =====
-- What the merge of a block into a document keeps and replaces.
use omp_spec_kit.Prelude.{
  ℕ, ◌+◌, Text, Free, length, length-append, drop, take, take-append, drop-append, index_of_text,
  index_of_text_from, index_of_text_sound, index_of_text-agree, index_of_text-drop,
  index_of_text-Free, Bool-cases, Option, none, some, is_some, is_some-false, ◌∷◌, ◌++◌,
  append_assoc, ok, err, ◌≡◌, ◌↔◌, refl, index_of_text-start, sym, ap, ◌∙◌, inl, inr, arith,
  if◌then◌else◌, Result,
}
use mathlib.Core.Option
use omp_spec_kit.Kernel.Roadmap.Region.{
  newline, start_marker, end_marker, RoadmapError, merge_parts, merge_after, merge_region,
}

merge_region-eq :
    (doc block : Text) (i j : ℕ)
    → index_of_text start_marker doc ≡ some i
    → index_of_text_from end_marker doc (i + length start_marker) ≡ some j
    → index_of_text_from start_marker doc (i + length start_marker) ≡ none
    → merge_region doc block
      ≡ ok (take (i + length start_marker) doc ++ (newline ++ (block ++ drop j doc)))
unfolding merge_region
merge_region-eq doc block i j found later single =
    ap (merge_after doc block) found
    ∙ ap (merge_parts doc block (i + length start_marker)) later
    ∙ ap
        (λ o.
          if◌then◌else◌ {A = Result RoadmapError Text} (is_some o)
            (err RoadmapError.duplicate_markers)
            (ok (take (i + length start_marker) doc ++ (newline ++ (block ++ drop j doc)))))
        single

merge_parts-ok :
    (doc block content : Text) (from : ℕ) (o : Option ℕ)
    → merge_parts doc block from o ≡ ok content
    → (j : ℕ) × (o ≡ some j) × (index_of_text_from start_marker doc from ≡ none)
merge_parts-ok doc block content from none h = absurd (cc)
merge_parts-ok doc block content from (some j) h =
    elim (Bool-cases (is_some (index_of_text_from start_marker doc from))) [
      | inl twice ↦ absurd (
          let h' : ◌≡◌ {A = Result RoadmapError Text} (err RoadmapError.duplicate_markers)
              (ok content) =
            rw twice at h in
          cc)
      | inr once ↦ (j, refl, is_some-false _ once)
    ]

merge_after-ok :
    (doc block content : Text) (o : Option ℕ)
    → merge_after doc block o ≡ ok content
    → (i : ℕ) × (j : ℕ) × (o ≡ some i)
      × (index_of_text_from end_marker doc (i + length start_marker) ≡ some j)
      × (index_of_text_from start_marker doc (i + length start_marker) ≡ none)
merge_after-ok doc block content none h = absurd (cc)
merge_after-ok doc block content (some i) h =
    let (j, later, single) = merge_parts-ok doc block content _ _ h in (i, j, refl, later, single)

drop-marker :
    (front rest : Text)
    → drop (length front + length start_marker) (front ++ (start_marker ++ rest)) ≡ rest
drop-marker front rest =
    rw (← append_assoc front start_marker rest, ← length-append front start_marker)
      (drop-append (front ++ start_marker) rest)

-- A document with one region: the text up to the start marker, the text between, and the text after
-- the end marker.
pub record Parts : Type 0 where
  pub front : Text
  pub old : Text
  pub tail : Text

unfoldable pub document_of : Parts → Text
document_of p = p.front ++ (start_marker ++ (p.old ++ (end_marker ++ p.tail)))

-- The markers stand where the search finds them, and no start marker follows the first.
unfoldable pub IsRegion : Parts → Type 0
IsRegion p =
    (index_of_text start_marker (document_of p) ≡ some (length p.front))
    × (index_of_text end_marker (p.old ++ (end_marker ++ p.tail)) ≡ some (length p.old))
    × (index_of_text start_marker (p.old ++ (end_marker ++ p.tail)) ≡ none)

abbrev pub with_block : Parts → Text → Parts
with_block p block = record p { old = newline ++ block }

-- Text up to the start marker and with it, and what follows.
module _ (p : Parts) where
  split_at_start : document_of p ≡ (p.front ++ start_marker) ++ (p.old ++ (end_marker ++ p.tail))
  unfolding document_of
  split_at_start = sym (append_assoc p.front start_marker (p.old ++ (end_marker ++ p.tail)))

  length-start : length p.front + length start_marker ≡ length (p.front ++ start_marker)
  length-start = sym (length-append p.front start_marker)

  take-start : take (length p.front + length start_marker) (document_of p) ≡ p.front ++ start_marker
  take-start = rw (split_at_start, length-start) (take-append (p.front ++ start_marker) _)

  drop-start :
      drop (length p.front + length start_marker) (document_of p) ≡ p.old ++ (end_marker ++ p.tail)
  drop-start = rw (split_at_start, length-start) (drop-append (p.front ++ start_marker) _)

  drop-end :
      drop (length p.front + length start_marker + length p.old) (document_of p)
      ≡ end_marker ++ p.tail
  drop-end =
      rw
        (
          split_at_start,
          length-start,
          ← append_assoc (p.front ++ start_marker) p.old (end_marker ++ p.tail),
          ← length-append (p.front ++ start_marker) p.old,
        )
        (drop-append ((p.front ++ start_marker) ++ p.old) _)

  -- The region of a document is replaced, and nothing else.
  merge_region-document :
      (block : Text)
      → IsRegion p
      → merge_region (document_of p) block ≡ ok (document_of (with_block p block))
  unfolding IsRegion index_of_text_from document_of
  merge_region-document block (start, ends, single) =
      merge_region-eq (document_of p) block (length p.front)
        (length p.front + length start_marker + length p.old) start (rw drop-start (rw ends refl))
        (rw drop-start (rw single refl))
      ∙ ap ok (
          rw (take-start, drop-end)
            (append_assoc p.front start_marker (newline ++ (block ++ (end_marker ++ p.tail)))))

IsRegion-intro :
    (p : Parts)
    → index_of_text start_marker (document_of p) ≡ some (length p.front)
    → index_of_text end_marker (p.old ++ (end_marker ++ p.tail)) ≡ some (length p.old)
    → index_of_text start_marker (p.old ++ (end_marker ++ p.tail)) ≡ none
    → IsRegion p
unfolding IsRegion
IsRegion-intro p start ends single = (start, ends, single)

-- A document into which a block is merged has one region.
merge_region-parts :
    (doc block content : Text)
    → merge_region doc block ≡ ok content
    → (p : Parts) × (doc ≡ document_of p) × IsRegion p
unfolding merge_region document_of index_of_text_from
merge_region-parts doc block content h =
    let (i, j, found, later, single) =
      merge_after-ok doc block content (index_of_text start_marker doc) h in
    let (front, rest, split, here) = index_of_text_sound start_marker doc i found in
    let past : drop (i + length start_marker) doc ≡ rest =
      rw (split, here) (drop-marker front rest) in
    let (k, ends, _) = (Option.map-eq-some_iff _ _).0 (rw past at later) in
    let (old, tail, split', there) = index_of_text_sound end_marker rest k ends in
    let whole : doc ≡ front ++ (start_marker ++ (old ++ (end_marker ++ tail))) =
      split ∙ ap (λ r. front ++ (start_marker ++ r)) split' in
    (
      record { front = front; old = old; tail = tail },
      whole,
      IsRegion-intro (record { front = front; old = old; tail = tail })
          (ap (λ t. index_of_text start_marker t) (sym whole) ∙ found ∙ ap some here)
          (ap (λ t. index_of_text end_marker t) (sym split') ∙ ends ∙ ap some there)
          (ap (λ t. index_of_text start_marker t) (sym (past ∙ split'))
            ∙ (Option.map-eq-none_iff _ _).0 single),
    )

-- A text without `<` before a text hides no marker and adds none.
index_of_marker :
    (marker marker' block rest : Text)
    → marker ≡ 60 ∷ marker'
    → Free 60 block
    → index_of_text marker ((newline ++ block) ++ rest)
      ≡ Option.map (λ i. length (newline ++ block) + i) (index_of_text marker rest)
index_of_marker marker marker' block rest shape free =
    rw shape (index_of_text-Free 60 marker' (newline ++ block) rest ((λ e. ground arith), free))

IsRegion-with_block :
    (p : Parts) (block : Text) → IsRegion p → Free 60 block → IsRegion (with_block p block)
unfolding IsRegion document_of start_marker end_marker
IsRegion-with_block p block (start, ends, single) free = (
  index_of_text-agree start_marker p.front (p.old ++ (end_marker ++ p.tail)) _ start,
  index_of_marker end_marker (drop 1 end_marker) block (end_marker ++ p.tail) refl free
      ∙ ap (λ o. Option.map (λ i. length (newline ++ block) + i) o)
          (index_of_text-start end_marker p.tail)
      ∙ ap some (omega arith),
  index_of_marker start_marker (drop 1 start_marker) block (end_marker ++ p.tail) refl free
      ∙ ap (λ o. Option.map (λ i. length (newline ++ block) + i) o)
          (index_of_text-drop start_marker p.old (end_marker ++ p.tail) single),
)

-- The last merge wins: a block without `<` that was merged into a document leaves no trace once another
-- is merged. So a merge of the same block again changes nothing.
pub merge_region-merge_region :
    (doc block next content : Text)
    → Free 60 block
    → merge_region doc block ≡ ok content
    → merge_region content next ≡ merge_region doc next
merge_region-merge_region doc block next content free h =
    let (p, whole, region) = merge_region-parts doc block content h in
    let first : merge_region doc block ≡ ok (document_of (with_block p block)) =
      rw whole (merge_region-document p block region) in
    let result : content ≡ document_of (with_block p block) = cc in
    rw (result, whole, merge_region-document p next region)
      (merge_region-document (with_block p block) next (IsRegion-with_block p block region free))

-- A merge succeeds exactly on a document with one region, in which it replaces the text between the
-- markers and nothing else.
pub merge_region_iff :
    (doc block content : Text)
    → (merge_region doc block ≡ ok content) ↔ (
        (p : Parts) × (doc ≡ document_of p)
        × IsRegion p
        × (content ≡ document_of (with_block p block)))
merge_region_iff doc block content = (
  (λ h.
      let (p, whole, region) = merge_region-parts doc block content h in
      let first : merge_region doc block ≡ ok (document_of (with_block p block)) =
        rw whole (merge_region-document p block region) in
      (p, whole, region, cc)),
  (λ (p, whole, region, result). rw (whole, result) (merge_region-document p block region)),
)
