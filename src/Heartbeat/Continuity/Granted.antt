-- ===== src/Heartbeat/Continuity/Granted.antt =====
-- When a session is resumed.
use gddp_runtime.Prelude.{
  String, Bool, true, false, not, Option, none, some, mem, if◌then◌else◌, str_eq, ◌≡◌, ◌≢◌, ◌↔◌,
  ◌⊎◌, inl, inr, refl, sym, ap, subst, ◌∙◌, arith, Bool-cases,
}
use gddp_runtime.Heartbeat.Continuity.{
  policy_disallows, no_resume_support, scope_never, SessionPolicy, default_session_policy,
  ResumeRequest, MarkerJson, TurnHost, Continuity, fresh, resume, read_resume_request, cwd_matches,
  host_matches, grant, under_policy, decide_continuity, consumed, choose_continuity,
}

abbrev pub effective : Option SessionPolicy → SessionPolicy
effective none = default_session_policy
effective (some p) = p

-- The project has no policy, or one that lets an operator ask for a session to be resumed.
abbrev pub IsAllowed : Option SessionPolicy → Type 0
IsAllowed none = Unit
IsAllowed (some p) =
    (mem "operator_requested" p.resume_when ≡ true) × (str_eq p.resume_scope "never" ≡ false)

-- What a resumed session needs.
pub record IsGranted (t : TurnHost) (policy : Option SessionPolicy) (request : Option ResumeRequest)
    (token : String) : Type 0 where
  pub capable : t.supports_resume ≡ true
  pub allowed : IsAllowed policy
  pub asked : ResumeRequest
  pub marked : request ≡ some asked
  pub named : asked.token ≡ token
  pub same_cwd : cwd_matches t (effective policy) asked.cwd ≡ true
  pub same_host : host_matches t (effective policy) asked.host ≡ true

module _ (t : TurnHost) (token : String) where
  abbrev Fits : SessionPolicy → Option ResumeRequest → Type 0
  Fits p request =
      (r : ResumeRequest) × (request ≡ some r)
      × (r.token ≡ token)
      × (cwd_matches t p r.cwd ≡ true)
      × (host_matches t p r.host ≡ true)

  granted :
      (p : SessionPolicy) (r : ResumeRequest)
      → r.token ≡ token
      → cwd_matches t p r.cwd ≡ true
      → host_matches t p r.host ≡ true
      → grant t p (some r) ≡ resume token
  unfolding grant
  granted p r n c h = rw (c, h) (ap resume n)

  grant-Fits :
      (p : SessionPolicy) (request : Option ResumeRequest)
      → (grant t p request ≡ resume token) ↔ Fits p request
  unfolding grant
  grant-Fits p none = (λ h. absurd (cc), λ h. absurd (cc (h.1)))
  grant-Fits p (some r) = (
    λ h. (r, refl, ground (arith, h), ground (arith, h), ground (arith, h)),
    λ h. subst (λ o. grant t p o ≡ resume token) (sym h.1) (granted p h.0 h.2 h.3 h.4),
  )

  under_policy-Fits :
      (policy : Option SessionPolicy) (request : Option ResumeRequest)
      → (under_policy t policy request ≡ resume token)
        ↔ (IsAllowed policy × Fits (effective policy) request)
  unfolding under_policy
  under_policy-Fits none request = (
    λ h. (tt, (grant-Fits default_session_policy request).0 h),
    λ h. (grant-Fits default_session_policy request).1 h.1,
  )
  under_policy-Fits (some p) request = (
    λ h. elim (Bool-cases (mem "operator_requested" p.resume_when)) [
      | inl m ↦ elim (Bool-cases (str_eq p.resume_scope "never")) [
        | inl n ↦ let q : fresh scope_never ≡ resume token = rw (m, n) at h in absurd (cc)
        | inr n ↦
            let q : grant t p request ≡ resume token = rw (m, n) at h in
            ((m, n), (grant-Fits p request).0 q)
      ]
      | inr m ↦ let q : fresh policy_disallows ≡ resume token = rw m at h in absurd (cc)
    ],
    λ h. rw (h.0.0, h.0.1) ((grant-Fits p request).1 h.1),
  )

  decide-IsGranted :
      (policy : Option SessionPolicy) (request : Option ResumeRequest)
      → (decide_continuity t policy request ≡ resume token) ↔ IsGranted t policy request token
  unfolding decide_continuity
  decide-IsGranted policy request = (
    λ h. elim (Bool-cases t.supports_resume) [
      | inl c ↦
          let q : under_policy t policy request ≡ resume token = ground (arith, h, c) in
          let f = (under_policy-Fits policy request).0 q in
          record {
            capable = c;
            allowed = f.0;
            asked = f.1.0;
            marked = f.1.1;
            named = f.1.2;
            same_cwd = f.1.3;
            same_host = f.1.4;
          }
      | inr c ↦ absurd (ground (arith, h, c))
    ],
    λ g.
        ap (λ b. if not b then fresh no_resume_support else under_policy t policy request) g.capable
        ∙ (under_policy-Fits policy request).1
            (g.allowed, (g.asked, g.marked, g.named, g.same_cwd, g.same_host)),
  )

-- A dispatch resumes a session exactly where its executor can, the project has no policy or one that
-- lets an operator ask, and a usable marker asks for it from the turn's own directory and host, as far
-- as the marker names them and the policy compares them; and a marker that was honoured and let go
-- of resumes no second dispatch, whatever its turn and policy.
pub choose_continuity_lem :
    (json : String → MarkerJson) (unlinked : Bool) (t t' : TurnHost)
    (policy policy' : Option SessionPolicy) (marker : Option String) (token token' : String)
    → (((choose_continuity json unlinked t policy marker).0 ≡ resume token)
        ↔ IsGranted t policy (read_resume_request json marker) token)
      × (((choose_continuity json true t policy marker).0 ≢ resume token)
          ⊎ ((choose_continuity json true t' policy'
                (choose_continuity json true t policy marker).1).0
              ≢ resume token'))
unfolding choose_continuity consumed read_resume_request
choose_continuity_lem json unlinked t t' policy policy' marker token token' = (
  decide-IsGranted t token policy (read_resume_request json marker),
  once (decide_continuity t policy (read_resume_request json marker)),
)
  where
    once :
        (d : Continuity)
        → (d ≢ resume token)
          ⊎ (decide_continuity t' policy' (read_resume_request json (consumed true d marker))
              ≢ resume token')
    once (fresh r) = inl (λ e. cc)
    once (resume k) =
        inr (λ e. let g = (decide-IsGranted t' token' policy' none).0 e in absurd (cc (g.marked)))
