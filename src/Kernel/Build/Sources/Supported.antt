-- ===== src/Kernel/Build/Sources/Supported.antt =====
-- The branch of the first phase that rejects an unsupported document (src/kernel/graph/build.js).
use omp_spec_kit.Prelude.{◌≢◌, All}
use omp_spec_kit.Kernel.Types.{DiagnosticCode}
use omp_spec_kit.Kernel.Limits
use omp_spec_kit.Kernel.Build.Sources.{Report, SourceState}

abbrev pub IsOtherCode : Report → Type 0
IsOtherCode r = r.code ≢ DiagnosticCode.unsupported_document

abbrev IsClean : SourceState → Type 0
IsClean s = All IsOtherCode s.reports
