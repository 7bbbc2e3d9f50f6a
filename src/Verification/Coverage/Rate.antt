-- ===== src/Verification/Coverage/Rate.antt =====
-- The rating of a lane.
use gddp_runtime.Prelude.{
  ℕ, ◌+◌, ◌≤◌, ◌<◌, String, Bool, true, false, not, some, List, [], ◌∷◌, length, mem, keep-Among,
  Among, Among-keep, any-Among, any_of_Among, str_eq, eq_iff, eq_refl, ◌≡◌, ◌≢◌, ◌↔◌, ◌⊎◌, inl, inr,
  refl, sym, ap, subst, arith, min,
}
use gddp_runtime.Verification.Receipt.{LaneCoverage, Rating}
use gddp_runtime.Verification.Coverage.{
  rate_lane, rating_of, both, minus, coverage_severity, overall_rating, sorted,
}
use gddp_runtime.Verification.Coverage.Sorting.{length-sorted, sorted-Among}

both-minus : (xs ys : List String) → length (both xs ys) + length (minus xs ys) ≡ length xs
both-minus [] ys = omega arith
both-minus (x ∷ xs) ys = ground (arith, both-minus xs ys)

both_mono :
    (xs ys zs : List String)
    → ((p : String) → mem p ys ≡ true → mem p zs ≡ true)
    → length (both xs ys) ≤ length (both xs zs)
both_mono [] ys zs h = omega arith
both_mono (x ∷ xs) ys zs h = ground (arith, h x, both_mono xs ys zs h)

rating_of_mono :
    (o d n o' d' n' w : ℕ)
    → o ≤ o'
    → d ≤ d'
    → n ≤ n'
    → coverage_severity (rating_of o d n w) ≤ coverage_severity (rating_of o' d' n' w)
unfolding rating_of coverage_severity
rating_of_mono o d n o' d' n' w ho hd hn = ground arith

mem_iff : (p : String) (ps : List String) → (mem p ps ≡ true) ↔ Among p ps
mem_iff p ps = (
  λ h.
      let r = any-Among (λ q. str_eq p q) ps h in
      subst (λ q. Among q ps) (sym ((eq_iff p r.0).0 r.2)) r.1,
  λ m. any_of_Among (λ q. str_eq p q) ps p m (eq_refl p),
)

-- A lane read one of these paths.
abbrev pub Reads : List String → List String → Type 0
Reads accessed paths = (p : String) × Among p paths × Among p accessed

-- What a rating says of the paths that were offered, of those that are documents, and of those that
-- are neighbours.
abbrev pub IsRated : (accessed offered docs neighbors : List String) → Rating → Type 0
IsRated accessed offered docs neighbors Rating.none_rating = Reads accessed offered → ⊥
IsRated accessed offered docs neighbors Rating.low =
    Reads accessed offered × (Reads accessed docs → ⊥)
IsRated accessed offered docs neighbors Rating.medium =
    Reads accessed offered
    × Reads accessed docs
    × ((neighbors ≢ []) × (Reads accessed neighbors → ⊥))
IsRated accessed offered docs neighbors Rating.high =
    Reads accessed offered × Reads accessed docs × (Reads accessed neighbors ⊎ (neighbors ≡ []))

module _ (accessed : List String) where
  Reads-cases :
      (paths : List String)
      → ((length (both paths accessed) ≡ 0) × (Reads accessed paths → ⊥))
        ⊎ ((0 < length (both paths accessed)) × Reads accessed paths)
  Reads-cases paths = go (both paths accessed) refl
    where
      go :
          (kept : List String)
          → both paths accessed ≡ kept
          → ((length kept ≡ 0) × (Reads accessed paths → ⊥))
            ⊎ ((0 < length kept) × Reads accessed paths)
      go [] e = inl (
        refl,
        λ (p, m, a).
            subst (Among p) e
              (Among-keep (λ q. mem q accessed) paths p m ((mem_iff p accessed).1 a)),
      )
      go (p ∷ kept) e =
          let r = keep-Among (λ q. mem q accessed) paths p (subst (Among p) (sym e) (inl refl)) in
          inr (omega arith, (p, r.0, (mem_iff p accessed).0 r.1))

  none_offered :
      (neighbors : List String) → (neighbors ≡ []) ⊎ ((neighbors ≢ []) × (0 < length neighbors))
  none_offered [] = inl refl
  none_offered (n ∷ ns) = inr (λ q. absurd (cc), omega arith)

  rating_of-IsRated :
      (offered docs neighbors : List String)
      → IsRated accessed offered docs neighbors (
          rating_of
            (length (both offered accessed))
            (length (both docs accessed))
            (length (both neighbors accessed))
            (length neighbors))
  rating_of-IsRated offered docs neighbors =
      let o = length (both offered accessed) in
      let d = length (both docs accessed) in
      let n = length (both neighbors accessed) in
      let w = length neighbors in
      let rated = λ (r : Rating) (e : rating_of o d n w ≡ r).
        subst (IsRated accessed offered docs neighbors) (sym e) in
      elim (Reads-cases offered) [
        | inl a ↦ rated Rating.none_rating (unfold rating_of in ground (arith, a.0)) a.1
        | inr a ↦ elim (Reads-cases docs) [
          | inl b ↦ rated Rating.low (unfold rating_of in ground (arith, a.0, b.0)) (a.1, b.1)
          | inr b ↦ elim (Reads-cases neighbors) [
            | inr c ↦
                rated Rating.high (unfold rating_of in ground (arith, a.0, b.0, c.0))
                  (a.1, b.1, inl c.1)
            | inl c ↦ elim (none_offered neighbors) [
              | inl z ↦
                  let zero_offered : w ≡ 0 = ap length z in
                  rated Rating.high (unfold rating_of in ground (arith, a.0, b.0, zero_offered))
                    (a.1, b.1, inr z)
              | inr z ↦
                  rated Rating.medium (unfold rating_of in ground (arith, a.0, b.0, c.0, z.1))
                    (a.1, b.1, (z.0, c.1))
            ]
          ]
        ]
      ]

  accessed_iff :
      (p : String) (offered : List String)
      → Among p (sorted (both offered accessed)) ↔ (Among p offered × Among p accessed)
  accessed_iff p offered = (
    λ h.
        let r =
          keep-Among (λ q. mem q accessed) offered p
            ((sorted-Among p (both offered accessed)).0 h) in
        (r.0, (mem_iff p accessed).0 r.1),
    λ (m, a).
        (sorted-Among p (both offered accessed)).1
          (Among-keep (λ q. mem q accessed) offered p m ((mem_iff p accessed).1 a)),
  )

  not-mem : (p : String) → (not (mem p accessed) ≡ true) ↔ (Among p accessed → ⊥)
  not-mem p = go (mem p accessed) refl
    where
      go : (b : Bool) → mem p accessed ≡ b → (not b ≡ true) ↔ (Among p accessed → ⊥)
      go true e = (λ h. absurd (cc), λ f. absurd (f ((mem_iff p accessed).0 e)))
      go false e = (λ h m. absurd (cc (e, (mem_iff p accessed).1 m)), λ f. refl)

  not_observed_iff :
      (p : String) (offered : List String)
      → Among p (sorted (minus offered accessed)) ↔ (Among p offered × (Among p accessed → ⊥))
  not_observed_iff p offered = (
    λ h.
        let r =
          keep-Among (λ q. not (mem q accessed)) offered p
            ((sorted-Among p (minus offered accessed)).0 h) in
        (r.0, (not-mem p).0 r.1),
    λ (m, a).
        (sorted-Among p (minus offered accessed)).1
          (Among-keep (λ q. not (mem q accessed)) offered p m ((not-mem p).1 a)),
  )

-- A lane's coverage lists as accessed the paths that were offered and read, as not observed those that
-- were offered and not read, and counts them: together they are as many as were offered. Its rating is
-- "none" where none of the paths was read, "low" where some was but no document, "medium" where a
-- document was but none of the neighbours, of which there are some, and "high" where a document was and
-- a neighbour too unless none was offered. A lane that reads at least what another one read is rated at
-- least as high.
pub rate_lane_lem :
    (accessed more offered docs neighbors : List String) (path : String)
    → ((p : String) → mem p accessed ≡ true → mem p more ≡ true)
    → (Among path (rate_lane accessed offered docs neighbors).accessed_paths
        ↔ (Among path offered × Among path accessed))
      × (Among path (rate_lane accessed offered docs neighbors).not_observed_paths
          ↔ (Among path offered × (Among path accessed → ⊥)))
      × ((rate_lane accessed offered docs neighbors).content_accessed
          ≡ length (rate_lane accessed offered docs neighbors).accessed_paths)
      × ((rate_lane accessed offered docs neighbors).not_observed
          ≡ length (rate_lane accessed offered docs neighbors).not_observed_paths)
      × ((rate_lane accessed offered docs neighbors).content_accessed
            + (rate_lane accessed offered docs neighbors).not_observed
          ≡ length offered)
      × ((rate_lane accessed offered docs neighbors).offered ≡ length offered)
      × IsRated accessed offered docs neighbors (rate_lane accessed offered docs neighbors).rating
      × (coverage_severity (rate_lane accessed offered docs neighbors).rating
          ≤ coverage_severity (rate_lane more offered docs neighbors).rating)
unfolding rate_lane
rate_lane_lem accessed more offered docs neighbors path h = (
  accessed_iff accessed path offered,
  not_observed_iff accessed path offered,
  sym (length-sorted (both offered accessed)),
  sym (length-sorted (minus offered accessed)),
  both-minus offered accessed,
  refl,
  rating_of-IsRated accessed offered docs neighbors,
  rating_of_mono _ _ _ _ _ _ (length neighbors) (both_mono offered accessed more h)
      (both_mono docs accessed more h) (both_mono neighbors accessed more h),
)

-- The overall rating of two lanes is the lower of theirs.
pub overall_rating-min :
    (l i : LaneCoverage)
    → coverage_severity (overall_rating (some l) i)
      ≡ min (coverage_severity l.rating) (coverage_severity i.rating)
unfolding overall_rating
overall_rating-min l i = ground arith
