-- ===== src/Kernel/Build/Sources/Bounded.antt =====
-- The limits that accepted documents keep to.
use omp_spec_kit.Prelude.{
  ℕ, ◌+◌, ◌≤◌, Text, text, text_beq, true, false, not, ◌&&◌, ◌||◌, ltb, Option, none, some, List,
  [], ◌∷◌, ◌++◌, if◌then◌else◌, split_on, ◌≡◌, ◌⊎◌, inl, inr, refl, sym, All, All-append,
  Bool-cases, arith, &&-left, &&-right,
}
use omp_spec_kit.Kernel.Types.{DiagnosticCode}
use omp_spec_kit.Kernel.Identity.{is_valid_spec_slug}
use omp_spec_kit.Kernel.Normalize.{byte_length, normalize_source}
use omp_spec_kit.Kernel.Limits
use omp_spec_kit.Kernel.Limits.{LimitName}
use omp_spec_kit.Kernel.Documents.{DocumentKind}
use omp_spec_kit.Kernel.Build.Names.{
  NameMatch, exact, case_variant, unrelated, derive_document_kind,
}
use omp_spec_kit.Kernel.Build.Sources.{
  Bytes, SourceFile, Entry, SourceState, no_sources, count_lines, Host, report, location_parts,
  location_error, mismatches, entry_for, reject, check_text, check_bytes, check_name,
  check_location, check_file, read_source, read_sources,
}

-- The bytes of the accepted entries.
abbrev pub accepted_bytes : List Entry → ℕ
accepted_bytes [] = 0
accepted_bytes (e ∷ es) = (if e.accepted then e.byte_length else 0) + accepted_bytes es

accepted_bytes-append :
    (es ds : List Entry) → accepted_bytes (es ++ ds) ≡ accepted_bytes es + accepted_bytes ds
accepted_bytes-append [] ds = omega arith
accepted_bytes-append (e ∷ es) ds = omega (arith, accepted_bytes-append es ds)

module _ (host : Host) (limits : LimitName → ℕ) where
  -- What is known of an entry before its bytes are looked at.
  abbrev pub IsLocated : Entry → Type 0
  IsLocated e =
      (is_valid_spec_slug e.spec_slug ≡ true)
      × (derive_document_kind e.filename e.spec_slug ≡ some e.document_kind)
      × (byte_length e.path ≤ limits Limits.max_path_bytes)

  -- An entry that is accepted is located, and its bytes and lines keep to the limits.
  abbrev pub IsAdmissible : Entry → Type 0
  IsAdmissible e =
      (e.accepted ≡ false)
      ⊎ (IsLocated e
          × (e.byte_length ≤ limits Limits.max_bytes_per_document)
          × (count_lines e.text ≤ limits Limits.max_lines_per_document))

  unfoldable pub IsBounded : SourceState → Type 0
  IsBounded s =
      (s.aggregate_bytes ≤ limits Limits.max_aggregate_bytes)
      × (accepted_bytes s.entries ≤ s.aggregate_bytes)
      × All IsAdmissible s.entries

  reject-IsBounded :
      (code : DiagnosticCode) (entry : Entry) (s : SourceState)
      → IsBounded s
      → IsBounded (reject host limits code entry s)
  unfolding IsBounded
  reject-IsBounded code entry s (total, summed, all') = (
    total,
    omega (arith, accepted_bytes-append s.entries ((record entry { accepted = false }) ∷ [])),
    All-append IsAdmissible s.entries _ all' (inl refl, tt),
  )

  -- With room for an entry that is about to be accepted.
  check_text-IsBounded :
      (entry : Entry) (s : SourceState) (o : Option Text)
      → IsBounded s
      → s.aggregate_bytes + entry.byte_length ≤ limits Limits.max_aggregate_bytes
      → IsLocated entry
      → entry.byte_length ≤ limits Limits.max_bytes_per_document
      → IsBounded (
          check_text host limits entry
            (record s { aggregate_bytes = s.aggregate_bytes + entry.byte_length })
            o)
  unfolding IsBounded
  check_text-IsBounded entry s none (total, summed, all') room located small =
      reject-IsBounded DiagnosticCode.invalid_utf8 entry
        (record s { aggregate_bytes = s.aggregate_bytes + entry.byte_length })
        (room, omega arith, all')
  check_text-IsBounded entry s (some decoded) (total, summed, all') room located small =
      elim (Bool-cases
        (ltb (limits Limits.max_lines_per_document) (count_lines (normalize_source decoded)))) [
          | inl long ↦ rw long (
              reject-IsBounded DiagnosticCode.file_too_large entry
                (record s { aggregate_bytes = s.aggregate_bytes + entry.byte_length })
                (room, omega arith, all'))
          | inr fits ↦ rw fits (
            room,
            omega (
              arith,
              accepted_bytes-append s.entries
                  ((record entry { text = normalize_source decoded; accepted = true }) ∷ []),
            ),
            All-append IsAdmissible s.entries _ all' (inr (located, small, ground arith), tt),
          )
        ]

  exceeded-IsBounded :
      (s : SourceState) → IsBounded s → IsBounded (record s { aggregate_exceeded = true })
  unfolding IsBounded
  exceeded-IsBounded s h = h

  check_bytes-IsBounded :
      (entry : Entry) (claimed : Option Text) (bytes : Bytes) (s : SourceState)
      → IsBounded s
      → IsLocated entry
      → IsBounded (check_bytes host limits entry claimed bytes s)
  check_bytes-IsBounded entry claimed bytes s h located =
      elim (Bool-cases (ltb (limits Limits.max_bytes_per_document) entry.byte_length)) [
        | inl large ↦ rw large (reject-IsBounded DiagnosticCode.file_too_large entry s h)
        | inr small ↦ rw small (elim (Bool-cases (mismatches host.lower claimed entry.sha256)) [
          | inl wrong ↦ rw wrong (reject-IsBounded DiagnosticCode.hash_mismatch entry s h)
          | inr right ↦
              rw right
                (elim (Bool-cases (
                  s.aggregate_exceeded
                  || ltb (limits Limits.max_aggregate_bytes)
                      (s.aggregate_bytes + entry.byte_length))) [
                        | inl full ↦ rw full (
                            reject-IsBounded DiagnosticCode.corpus_limit_exceeded entry
                              (record s { aggregate_exceeded = true }) (exceeded-IsBounded s h))
                        | inr room ↦ rw room (
                            check_text-IsBounded entry s (host.decode bytes) h (ground arith)
                              located (ground arith))
                      ])
        ])
      ]

  report-IsBounded :
      (code : DiagnosticCode) (path : Option Text) (s : SourceState)
      → IsBounded s
      → IsBounded (report code path s)
  unfolding IsBounded
  report-IsBounded code path s h = h

  check_name-IsBounded :
      (file : SourceFile) (path spec_slug filename : Text) (bytes : Bytes) (s : SourceState)
      (match : NameMatch) (kind : Option DocumentKind)
      → IsBounded s
      → is_valid_spec_slug spec_slug ≡ true
      → kind ≡ derive_document_kind filename spec_slug
      → byte_length path ≤ limits Limits.max_path_bytes
      → IsBounded (check_name host limits file path spec_slug filename bytes s match kind)
  check_name-IsBounded file path spec_slug filename bytes s unrelated kind h slug derived short = h
  check_name-IsBounded file path spec_slug filename bytes s exact none h slug derived short = h
  check_name-IsBounded file path spec_slug filename bytes s case_variant none h slug derived short =
      h
  check_name-IsBounded file path spec_slug filename bytes s case_variant (some kind) h slug derived
        short =
      reject-IsBounded DiagnosticCode.unsupported_document
        (entry_for host limits path spec_slug filename kind bytes [] false) s h
  check_name-IsBounded file path spec_slug filename bytes s exact (some kind) h slug derived short =
      check_bytes-IsBounded (entry_for host limits path spec_slug filename kind bytes [] false)
        file.sha256 bytes s h (slug, sym derived, short)

  location_parts-slug :
      (parts : List Text) (slug filename : Text)
      → location_parts parts ≡ some (slug, filename)
      → is_valid_spec_slug slug ≡ true
  location_parts-slug (folder ∷ (s ∷ (f ∷ []))) slug filename h =
      elim (Bool-cases
        (text_beq folder (text ".specs") && is_valid_spec_slug s && not (text_beq f []))) [
          | inl good ↦
              let h' : some (s, f) ≡ some (slug, filename) = rw good at h in
              let same : s ≡ slug = cc in rw (← same) (&&-right _ _ (&&-left _ _ good))
          | inr bad ↦ absurd (
              let h' : ◌≡◌ {A = Option (Text × Text)} none (some (slug, filename)) = rw bad at h in
              cc)
        ]
  location_parts-slug [] slug filename h = absurd (cc)
  location_parts-slug (a ∷ []) slug filename h = absurd (cc)
  location_parts-slug (a ∷ (b ∷ [])) slug filename h = absurd (cc)
  location_parts-slug (a ∷ (b ∷ (c ∷ (d ∷ rest)))) slug filename h = absurd (cc)

  check_location-IsBounded :
      (file : SourceFile) (path : Text) (bytes : Bytes) (s : SourceState) (o : Option (Text × Text))
      → IsBounded s
      → o ≡ location_parts (split_on 47 path)
      → IsBounded (check_location host limits file path bytes s o)
  check_location-IsBounded file path bytes s none h e =
      report-IsBounded (location_error (split_on 47 path)) (some path) s h
  check_location-IsBounded file path bytes s (some (slug, filename)) h e =
      elim (Bool-cases (ltb (limits Limits.max_path_bytes) (byte_length path))) [
        | inl long ↦ rw long (report-IsBounded DiagnosticCode.path_escape (some path) s h)
        | inr short ↦ rw short (
            check_name-IsBounded file path slug filename bytes s _ _ h
              (location_parts-slug (split_on 47 path) slug filename (sym e)) refl (ground arith))
      ]

  check_file-IsBounded :
      (file : SourceFile) (s : SourceState) (path : Option Text) (bytes : Option Bytes)
      → IsBounded s
      → IsBounded (check_file host limits file s path bytes)
  check_file-IsBounded file s none bytes h = report-IsBounded DiagnosticCode.path_escape none s h
  check_file-IsBounded file s (some path) none h =
      report-IsBounded DiagnosticCode.invalid_utf8 (some path) s h
  check_file-IsBounded file s (some path) (some bytes) h =
      check_location-IsBounded file path bytes s _ h refl

  read_sources-IsBounded :
      (files : List SourceFile) (s : SourceState)
      → IsBounded s
      → IsBounded (read_sources host limits files s)
  unfolding read_sources read_source
  read_sources-IsBounded [] s h = h
  read_sources-IsBounded (file ∷ files) s h =
      read_sources-IsBounded files (read_source host limits file s)
        (check_file-IsBounded file s _ file.bytes h)

  empty-IsBounded : IsBounded no_sources
  unfolding IsBounded
  empty-IsBounded = (omega arith, omega arith, tt)

  bounded-parts :
      (s : SourceState)
      → IsBounded s
      → (accepted_bytes s.entries ≤ limits Limits.max_aggregate_bytes) × All IsAdmissible s.entries
  unfolding IsBounded
  bounded-parts s (total, summed, all') = (omega arith, all')

  -- Whatever files are read: an entry that is accepted stands under a valid slug and a name that gives its
  -- document kind, its path, bytes and lines keep to their limits, and the bytes of all accepted entries
  -- together keep to the limit of the corpus.
  pub read_sources-bound :
      (files : List SourceFile)
      → (accepted_bytes (read_sources host limits files no_sources).entries
          ≤ limits Limits.max_aggregate_bytes)
        × All IsAdmissible (read_sources host limits files no_sources).entries
  read_sources-bound files =
      bounded-parts _ (read_sources-IsBounded files no_sources empty-IsBounded)
