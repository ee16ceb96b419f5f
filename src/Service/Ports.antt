-- ===== src/Service/Ports.antt =====
-- src/tools/endpoint-alloc.js: the search for a free port. The probe of a port is a parameter.
use omp_spec_kit.Prelude.{
  ℕ, zero, suc, ◌+◌, ◌≤◌, ◌<◌, Text, text_beq, Bool, false, nat_beq, ◌≡◌, refl, Option, some, List,
  [], ◌∷◌, ◌++◌, arith, Bool-cases, inl, inr, if◌then◌else◌, ◌⊎◌,
}

-- What a probe says: the port is free, a service answered with or without a fingerprint, or neither.
pub data Probe : Type 0 where
  free busy : Probe
  responded : Option Text → Probe

pub data SkipCause : Type 0 where
  foreign_service port_busy : SkipCause

pub data Allocation : Type 0 where
  allocated reattached : ℕ → List (ℕ × SkipCause) → Allocation
  no_free_port invalid_port : Allocation

abbrev pub is_expected : Option Text → Option Text → Bool
is_expected (some expected) (some fingerprint) = text_beq fingerprint expected
is_expected _ _ = false

module _ (probe : ℕ → Probe) (expected : Option Text) where
  -- `attempts` counts what the loop has left.
  unfoldable pub scan_ports : ℕ → ℕ → List (ℕ × SkipCause) → Allocation
  scan_ports port zero skipped = no_free_port
  scan_ports port (suc attempts) skipped =
      let skip_foreign = scan_ports (suc port) attempts (skipped ++ (port, foreign_service) ∷ []) in
      let skip_busy = scan_ports (suc port) attempts (skipped ++ (port, port_busy) ∷ []) in
      elim (probe port) [
        | free ↦ allocated port skipped
        | responded fingerprint ↦
            if is_expected expected fingerprint then reattached port skipped else skip_foreign
        | busy ↦ skip_busy
      ]

  unfoldable pub find_available_port : ℕ → ℕ → Allocation
  find_available_port preferred max_attempts =
      if nat_beq preferred 0 then invalid_port else scan_ports preferred max_attempts []

  Probe-cases : (r : Probe) → (r ≡ free) ⊎ ((r ≡ busy) ⊎ ((f : Option Text) × (r ≡ responded f)))
  Probe-cases free = inl refl
  Probe-cases busy = inr (inl refl)
  Probe-cases (responded f) = inr (inr (f, refl))

  -- A port that is allocated was probed free, and is one of the ports from the preferred one on that the
  -- attempts reach.
  scan_ports-allocated :
      (attempts port : ℕ) (skipped skipped' : List (ℕ × SkipCause)) (found : ℕ)
      → scan_ports port attempts skipped ≡ allocated found skipped'
      → (probe found ≡ free) × (port ≤ found) × (found < port + attempts)
  unfolding scan_ports
  scan_ports-allocated zero port skipped skipped' found h = absurd (cc)
  scan_ports-allocated (suc n) port skipped skipped' found h = elim (Probe-cases (probe port)) [
    | inl e ↦
        let same : port ≡ found = cc (rw (e, scan_ports) at h) in
        (rw (← same) e, omega (arith, same), omega (arith, same))
    | inr (inl e) ↦
        let (was_free, low, high) =
          scan_ports-allocated n (suc port) (skipped ++ (port, port_busy) ∷ []) skipped' found
            (rw (e, scan_ports) at h) in
        (was_free, omega arith, omega arith)
    | inr (inr (f, e)) ↦ elim (Bool-cases (is_expected expected f)) [
      | inl ours ↦ absurd (cc (rw (e, ours, scan_ports) at h))
      | inr theirs ↦
          let (was_free, low, high) =
            scan_ports-allocated n (suc port) (skipped ++ (port, foreign_service) ∷ []) skipped'
              found (rw (e, theirs, scan_ports) at h) in
          (was_free, omega arith, omega arith)
    ]
  ]
