-- ===== src/Verification/Retry/Evidence.antt =====
-- What counts as evidence: a reference to a file in a text, or a node that a finding names.
use gddp_runtime.Prelude.{
  ℕ, String, Bool, true, false, ◌&&◌, ◌||◌, Option, none, some, List, [], ◌∷◌, ◌++◌, any, Among,
  any_of_Among, any-Among, nonempty, ◌≡◌, ◌≢◌, ◌↔◌, ◌⊎◌, inl, inr, refl, ap, ◌∙◌, arith, Bool-cases,
}
use gddp_runtime.Prelude.Text.{codes, is_code}
use gddp_runtime.Verification.Retry.{
  Finding, IntegrityJson, CriteriaFinding, path_char, has_file_ref, file_ref, finding_has_evidence,
  has_evidence_references, criteria_finding_has_evidence, has_criteria_evidence,
}

module _ (is_word : ℕ → Bool) where
  -- A word character or a slash, a dot, and a word character, in a row.
  abbrev pub FileRef : List ℕ → Type 0
  FileRef cs =
      (before after : List ℕ) × (a c : ℕ) × (cs ≡ before ++ a ∷ 46 ∷ c ∷ after)
      × ((is_word a ≡ true) ⊎ (a ≡ 47))
      × (is_word c ≡ true)

  has_file_ref-cons :
      (x : ℕ) (cs : List ℕ) → has_file_ref is_word cs ≡ true → has_file_ref is_word (x ∷ cs) ≡ true
  unfolding has_file_ref
  has_file_ref-cons x [] h = absurd (cc)
  has_file_ref-cons x (a ∷ []) h = absurd (cc)
  has_file_ref-cons x (a ∷ b ∷ []) h = absurd (cc)
  has_file_ref-cons x (a ∷ b ∷ c ∷ rest) h = ground (arith, h)

  ref_at :
      (before after : List ℕ) (a c : ℕ)
      → (is_word a ≡ true) ⊎ (a ≡ 47)
      → is_word c ≡ true
      → has_file_ref is_word (before ++ a ∷ 46 ∷ c ∷ after) ≡ true
  ref_at (x ∷ before) after a c p w =
      has_file_ref-cons x (before ++ a ∷ 46 ∷ c ∷ after) (ref_at before after a c p w)
  ref_at [] after a c (inl p) w = unfold has_file_ref path_char in ground (arith, p, w)
  ref_at [] after a c (inr p) w = unfold has_file_ref path_char in ground (arith, p, w)

  path_char-or : (a : ℕ) → path_char is_word a ≡ true → (is_word a ≡ true) ⊎ (a ≡ 47)
  unfolding path_char
  path_char-or a h = elim (Bool-cases (is_word a)) [
    | inl e ↦ inl e
    | inr e ↦ inr (ground (arith, e, h))
  ]

  ref_found : (cs : List ℕ) → has_file_ref is_word cs ≡ true → FileRef cs
  unfolding has_file_ref
  ref_found [] h = absurd (cc)
  ref_found (a ∷ []) h = absurd (cc)
  ref_found (a ∷ b ∷ []) h = absurd (cc)
  ref_found (a ∷ b ∷ c ∷ rest) h =
      elim (Bool-cases (path_char is_word a && is_code b 46 && is_word c)) [
        | inl e ↦
            let dot : b ≡ 46 = ground (arith, e) in
            ([], rest, a, c, rw dot refl, path_char-or a (ground (arith, e)), ground (arith, e))
        | inr e ↦
            let (before, after, x, y, q, p, w) = ref_found (b ∷ c ∷ rest) (ground (arith, e, h)) in
            (a ∷ before, after, x, y, ap (λ r. a ∷ r) q, p, w)
      ]

  pub has_file_ref_iff : (cs : List ℕ) → (has_file_ref is_word cs ≡ true) ↔ FileRef cs
  has_file_ref_iff cs = (
    ref_found cs,
    λ (before, after, a, c, q, p, w). ap (has_file_ref is_word) q ∙ ref_at before after a c p w,
  )

  any_iff :
      {A : Type 0} (p : A → Bool) (P : A → Type 0)
      → ((a : A) → (p a ≡ true) ↔ P a)
      → (xs : List A) → (any p xs ≡ true) ↔ ((a : A) × Among a xs × P a)
  any_iff p P f xs = (
    λ h. let r = any-Among p xs h in (r.0, r.1, (f r.0).0 r.2),
    λ (a, m, q). any_of_Among p xs a m ((f a).1 q),
  )

  either_iff :
      (a b : Bool) (A B : Type 0) → (a ≡ true) ↔ A → (b ≡ true) ↔ B → (a || b ≡ true) ↔ (A ⊎ B)
  either_iff true b A B f g = (λ h. inl (f.0 refl), λ h. refl)
  either_iff false b A B f g =
      (λ h. inr (g.0 h), λ h. elim h [ inl p ↦ absurd (cc (f.1 p)) | inr q ↦ g.1 q ])

  abbrev pub IsEvidence : Finding → Type 0
  IsEvidence (Finding.entry summary nodes) = FileRef (codes summary) ⊎ (nodes ≢ [])
  IsEvidence (Finding.other text) = FileRef (codes text)

  -- The integrity lane ran, and a finding of it is evidence or its reasoning refers to a file.
  abbrev pub HasEvidence : Option IntegrityJson → Type 0
  HasEvidence none = ⊥
  HasEvidence (some i) =
      ((f : Finding) × Among f i.findings × IsEvidence f) ⊎ FileRef (codes i.reasoning)

  abbrev pub IsCriteriaEvidence : CriteriaFinding → Type 0
  IsCriteriaEvidence (CriteriaFinding.entry evidence reasoning) =
      ((t : String) × Among t evidence × FileRef (codes t)) ⊎ FileRef (codes reasoning)
  IsCriteriaEvidence CriteriaFinding.other = ⊥

  -- A finding of the criteria lane refers to a file, in an item of its evidence or in its reasoning.
  abbrev pub HasCriteriaEvidence : Option (List CriteriaFinding) → Type 0
  HasCriteriaEvidence none = ⊥
  HasCriteriaEvidence (some findings) =
      (f : CriteriaFinding) × Among f findings × IsCriteriaEvidence f

  nonempty_iff : (xs : List String) → (nonempty xs ≡ true) ↔ (xs ≢ [])
  nonempty_iff [] = (λ h. absurd (cc), λ h. absurd (h refl))
  nonempty_iff (x ∷ xs) = (λ h q. absurd (cc), λ h. refl)

  finding_iff : (f : Finding) → (finding_has_evidence is_word f ≡ true) ↔ IsEvidence f
  unfolding finding_has_evidence
  finding_iff (Finding.entry summary nodes) =
      either_iff _ _ _ _ (has_file_ref_iff (codes summary)) (nonempty_iff nodes)
  finding_iff (Finding.other text) = has_file_ref_iff (codes text)

  criteria_finding_iff :
      (f : CriteriaFinding)
      → (criteria_finding_has_evidence is_word f ≡ true) ↔ IsCriteriaEvidence f
  unfolding criteria_finding_has_evidence
  criteria_finding_iff (CriteriaFinding.entry evidence reasoning) =
      either_iff _ _ _ _
        (any_iff (file_ref is_word) (λ t. FileRef (codes t)) (λ t. has_file_ref_iff (codes t))
          evidence)
        (has_file_ref_iff (codes reasoning))
  criteria_finding_iff CriteriaFinding.other = (λ h. absurd (cc), λ h. absurd h)

  pub has_evidence_references_iff :
      (i : Option IntegrityJson) → (has_evidence_references is_word i ≡ true) ↔ HasEvidence i
  unfolding has_evidence_references
  has_evidence_references_iff none = (λ h. absurd (cc), λ h. absurd h)
  has_evidence_references_iff (some i) =
      either_iff _ _ _ _ (any_iff (finding_has_evidence is_word) IsEvidence finding_iff i.findings)
        (has_file_ref_iff (codes i.reasoning))

  pub has_criteria_evidence_iff :
      (fs : Option (List CriteriaFinding))
      → (has_criteria_evidence is_word fs ≡ true) ↔ HasCriteriaEvidence fs
  unfolding has_criteria_evidence
  has_criteria_evidence_iff none = (λ h. absurd (cc), λ h. absurd h)
  has_criteria_evidence_iff (some fs) =
      any_iff (criteria_finding_has_evidence is_word) IsCriteriaEvidence criteria_finding_iff fs
