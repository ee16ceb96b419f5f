-- ===== src/Service/Store/AccessLog.antt =====
-- The access log keeps the newest entries.
use omp_spec_kit.Prelude.{
  ℕ, zero, suc, ◌+◌, ◌-◌, ◌≤◌, ltb, length, length-append, length-drop, drop, ◌≡◌, refl, sym, ap,
  ◌∙◌, List, [], ◌∷◌, ◌++◌, append-nil, append_assoc, arith, Bool-cases, inl, inr,
}
use omp_spec_kit.Service.Store.{Store, AccessEntry, access_limit, slice_last, bound_log, log_access}

-- The last n elements.
abbrev pub newest {ℓ} : {A : Type ℓ} → ℕ → List A → List A
newest n xs = drop (length xs - n) xs

drop-append_le {ℓ} :
    {A : Type ℓ} (m : ℕ) (xs ys : List A) → m ≤ length xs → drop m xs ++ ys ≡ drop m (xs ++ ys)
drop-append_le zero xs ys h = refl
drop-append_le (suc m) [] ys h = absurd (omega arith)
drop-append_le (suc m) (x ∷ xs) ys h = drop-append_le m xs ys (omega arith)

drop-nil {ℓ} : {A : Type ℓ} (n : ℕ) → drop {A = A} n [] ≡ []
drop-nil zero = refl
drop-nil (suc n) = refl

drop-drop {ℓ} : {A : Type ℓ} (n m : ℕ) (xs : List A) → drop n (drop m xs) ≡ drop (m + n) xs
drop-drop n zero xs = let e : 0 + n ≡ n = omega arith in rw e refl
drop-drop n (suc m) [] = drop-nil n ∙ sym (drop-nil (suc m + n))
drop-drop n (suc m) (x ∷ xs) =
    let e : suc m + n ≡ suc (m + n) = omega arith in rw e (drop-drop n m xs)

newest-append {ℓ} :
    {A : Type ℓ} (n : ℕ) (xs ys : List A) → newest n (newest n xs ++ ys) ≡ newest n (xs ++ ys)
newest-append n xs ys =
    let m : ℕ = length xs - n in
    let same : newest n xs ++ ys ≡ drop m (xs ++ ys) = drop-append_le m xs ys (omega arith) in
    let count : m + (length (drop m (xs ++ ys)) - n) ≡ length (xs ++ ys) - n =
      omega (arith, length-drop m (xs ++ ys), length-append xs ys) in
    rw same
      (drop-drop (length (drop m (xs ++ ys)) - n) m (xs ++ ys) ∙ ap (λ k. drop k (xs ++ ys)) count)

bound_log-eq-newest : (log : List AccessEntry) → bound_log log ≡ newest access_limit log
unfolding bound_log slice_last
bound_log-eq-newest log = elim (Bool-cases (ltb access_limit (length log))) [
  | inl long ↦ rw long refl
  | inr short ↦ let e : length log - access_limit ≡ 0 = ground arith in rw (short, e) refl
]

-- A run of the service logs entries one after the other.
abbrev pub log_all : List AccessEntry → Store → Store
log_all [] s = s
log_all (e ∷ es) s = log_all es (log_access e s)

log_all-eq-newest :
    (es log : List AccessEntry) (s : Store)
    → s.access_log ≡ newest access_limit log
    → (log_all es s).access_log ≡ newest access_limit (log ++ es)
unfolding log_access
log_all-eq-newest [] log s h = rw append-nil h
log_all-eq-newest (e ∷ es) log s h =
    log_all-eq-newest es (log ++ e ∷ []) (log_access e s) (
      bound_log-eq-newest (s.access_log ++ e ∷ [])
      ∙ ap (λ l. newest access_limit (l ++ e ∷ [])) h
      ∙ newest-append access_limit log (e ∷ []))
    ∙ ap (newest access_limit) (append_assoc log (e ∷ []) es)

-- After any entries, the log of a store that began within the limit is the newest 10,000 of all
-- that was ever logged, in order.
pub log_access-eq-newest :
    (es : List AccessEntry) (s : Store)
    → length s.access_log ≤ access_limit
    → (log_all es s).access_log ≡ newest access_limit (s.access_log ++ es)
log_access-eq-newest es s h =
    log_all-eq-newest es s.access_log s
      (let e : length s.access_log - access_limit ≡ 0 = omega arith in rw e refl)
