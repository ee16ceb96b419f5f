-- ===== src/Kernel/Build/Sources.antt =====
-- src/kernel/graph/build.js: the first phase, from source files to document records. Digests, the decoding
-- of UTF-8, NFC and `toLowerCase` are the platform's.
pub mod Bounded
pub mod Supported
use omp_spec_kit.Prelude.{
  ℕ, suc, ◌+◌, Text, text, text_beq, length, Bool, true, false, not, ◌&&◌, ◌||◌, leb, ltb, nat_beq,
  Option, none, some, is_some, List, [], ◌∷◌, ◌++◌, if◌then◌else◌, filter, sort_by, split_on,
}
use omp_spec_kit.Kernel.Types.{DiagnosticCode}
use omp_spec_kit.Kernel.Identity.{is_valid_spec_slug}
use omp_spec_kit.Kernel.Normalize.{Order, after, byte_length, compare_code_points, normalize_source}
use omp_spec_kit.Kernel.Limits
use omp_spec_kit.Kernel.Limits.{LimitName}
use omp_spec_kit.Kernel.Documents.{DocumentKind}
use omp_spec_kit.Kernel.Build.Names.{
  NameMatch, exact, case_variant, unrelated, canonical_name_matches, derive_document_kind,
  normalize_public_path,
}

abbrev pub Bytes : Type 0
Bytes = List ℕ

-- What a caller hands over; `none` where it is no string and no array of bytes.
pub record SourceFile : Type 0 where
  pub path : Option Text
  pub bytes : Option Bytes
  pub sha256 : Option Text

pub record Entry : Type 0 where
  pub path : Text
  pub spec_slug : Text
  pub filename : Text
  pub document_kind : DocumentKind
  pub sha256 : Text
  pub byte_length : ℕ
  pub text : Text
  pub accepted : Bool

-- A diagnostic, with the path that it names, where it names one.
pub record Report : Type 0 where
  pub code : DiagnosticCode
  pub path : Option Text

pub record SourceState : Type 0 where
  pub reports : List Report
  pub entries : List Entry
  pub aggregate_bytes : ℕ
  pub aggregate_exceeded : Bool

abbrev pub no_sources : SourceState
no_sources = record { reports = []; entries = []; aggregate_bytes = 0; aggregate_exceeded = false }

-- `countLines`
unfoldable pub count_newlines : Text → ℕ
count_newlines [] = 0
count_newlines (c ∷ cs) = let rest = count_newlines cs in if nat_beq c 10 then suc rest else rest

abbrev pub count_lines : Text → ℕ
count_lines t = suc (count_newlines t)

pub record Host : Type 0 where
  pub lower : Text → Text
  pub nfc : Text → Text
  pub digest : Bytes → Text
  -- `none` where the bytes are not UTF-8.
  pub decode : Bytes → Option Text

abbrev pub report : DiagnosticCode → Option Text → SourceState → SourceState
report code path s = record s { reports = s.reports ++ (record { code = code; path = path }) ∷ [] }

-- `.specs/<slug>/<document>`: the slug, if it is valid, and the file name.
abbrev pub location_parts : List Text → Option (Text × Text)
location_parts (folder ∷ (slug ∷ (filename ∷ []))) =
    if text_beq folder (text ".specs") && is_valid_spec_slug slug && not (text_beq filename [])
    then some (slug, filename)
    else none
location_parts _ = none

abbrev pub location_error : List Text → DiagnosticCode
location_error (folder ∷ (slug ∷ parts)) =
    if is_valid_spec_slug slug then DiagnosticCode.path_escape else DiagnosticCode.invalid_spec_slug
location_error _ = DiagnosticCode.path_escape

abbrev pub mismatches : (Text → Text) → Option Text → Text → Bool
mismatches lower none digest = false
mismatches lower (some claimed) digest = not (text_beq (lower claimed) digest)

module _ (host : Host) (limits : LimitName → ℕ) where
  abbrev pub entry_for : Text → Text → Text → DocumentKind → Bytes → Text → Bool → Entry
  entry_for path spec_slug filename kind bytes decoded accepted = record {
    path = path;
    spec_slug = spec_slug;
    filename = filename;
    document_kind = kind;
    sha256 = host.digest bytes;
    byte_length = length bytes;
    text = decoded;
    accepted = accepted;
  }

  -- `rejectedRow`
  abbrev pub reject : DiagnosticCode → Entry → SourceState → SourceState
  reject code entry s = record (report code (some entry.path) s) {
    entries = s.entries ++ (record entry { accepted = false }) ∷ [];
  }

  abbrev pub keep_entry : Entry → SourceState → SourceState
  keep_entry entry s = record s { entries = s.entries ++ entry ∷ [] }

  -- The text of an entry whose bytes are counted.
  abbrev pub check_text : Entry → SourceState → Option Text → SourceState
  check_text entry s none = reject DiagnosticCode.invalid_utf8 entry s
  check_text entry s (some decoded) =
      if ltb (limits Limits.max_lines_per_document) (count_lines (normalize_source decoded))
      then reject DiagnosticCode.file_too_large entry s
      else keep_entry (record entry { text = normalize_source decoded; accepted = true }) s

  abbrev pub check_bytes : Entry → Option Text → Bytes → SourceState → SourceState
  check_bytes entry claimed bytes s =
      if ltb (limits Limits.max_bytes_per_document) entry.byte_length
      then reject DiagnosticCode.file_too_large entry s
      else if mismatches host.lower claimed entry.sha256
      then reject DiagnosticCode.hash_mismatch entry s
      else if s.aggregate_exceeded
          || ltb (limits Limits.max_aggregate_bytes) (s.aggregate_bytes + entry.byte_length)
      then reject DiagnosticCode.corpus_limit_exceeded entry
          (record s { aggregate_exceeded = true })
      else check_text entry (record s { aggregate_bytes = s.aggregate_bytes + entry.byte_length })
          (host.decode bytes)

  abbrev pub check_name :
      SourceFile
      → Text
      → Text
      → Text
      → Bytes
      → SourceState
      → NameMatch
      → Option DocumentKind
      → SourceState
  check_name file path spec_slug filename bytes s unrelated kind = s
  check_name file path spec_slug filename bytes s match none = s
  check_name file path spec_slug filename bytes s case_variant (some kind) =
      reject DiagnosticCode.unsupported_document
        (entry_for path spec_slug filename kind bytes [] false) s
  check_name file path spec_slug filename bytes s exact (some kind) =
      check_bytes (entry_for path spec_slug filename kind bytes [] false) file.sha256 bytes s

  abbrev pub check_location :
      SourceFile → Text → Bytes → SourceState → Option (Text × Text) → SourceState
  check_location file path bytes s none = report (location_error (split_on 47 path)) (some path) s
  check_location file path bytes s (some (spec_slug, filename)) =
      if ltb (limits Limits.max_path_bytes) (byte_length path)
      then report DiagnosticCode.path_escape (some path) s
      else check_name file path spec_slug filename bytes s
          (canonical_name_matches host.lower filename spec_slug)
          (derive_document_kind filename spec_slug)

  abbrev pub check_file : SourceFile → SourceState → Option Text → Option Bytes → SourceState
  check_file file s none bytes = report DiagnosticCode.path_escape none s
  check_file file s (some path) none = report DiagnosticCode.invalid_utf8 (some path) s
  check_file file s (some path) (some bytes) =
      check_location file path bytes s (location_parts (split_on 47 path))

  -- The body of the loop over the files.
  unfoldable pub read_source : SourceFile → SourceState → SourceState
  read_source file s = check_file file s (normalize_public_path host.nfc file.path) file.bytes

  unfoldable pub read_sources : List SourceFile → SourceState → SourceState
  read_sources [] s = s
  read_sources (file ∷ files) s = read_sources files (read_source file s)

  abbrev pub leads : Entry → Entry → Bool
  leads a b = elim (compare_code_points a.path b.path) [ after ↦ false | _ ↦ true ]

  -- The document records, in the order of their paths, and the entries that are parsed.
  unfoldable pub document_entries : List SourceFile → List Entry
  document_entries files = sort_by leads (read_sources files no_sources).entries

  unfoldable pub usable_entries : List SourceFile → List Entry
  usable_entries files = filter (λ e. e.accepted) (document_entries files)
