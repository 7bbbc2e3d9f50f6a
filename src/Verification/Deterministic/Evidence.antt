-- ===== src/Verification/Deterministic/Evidence.antt =====
-- What the deterministic lane's dictionaries say of dependencies and artifacts.
use mathlib.Core.Path.{fun_ext}
use gddp_runtime.Prelude.{
  String, Bool, true, false, ◌||◌, not, Option, none, some, List, [], ◌∷◌, any, All, mem, str_eq,
  eq_iff, ◌≡◌, inl, inr, refl, sym, ap, ◌∙◌, arith, Bool-cases,
}
use gddp_runtime.Heartbeat.Graph.{NodeRow, find_row, status_of, node_status, is_satisfied}
use gddp_runtime.Verification.Schemas.{SemanticOutput, CriterionCheck, ConstraintCheck, SubjectDiff}
use gddp_runtime.Verification.Context.{
  DecisionContext, deps_incomplete, artifacts_missing, satisfied_dep_statuses,
}
use gddp_runtime.Verification.Deterministic.{
  put, dict_from, dependency_status, or_unknown, Checkout, artifact_present, check_artifacts,
  assemble,
}

module _ {ℓ} {V : Type ℓ} (bad : V → Bool) (f : String → V) where
  -- Every entry of the dictionary is what `f` says of its key.
  abbrev Agrees : List (String × V) → Type ℓ
  Agrees m = All (λ (e : String × V). e.1 ≡ f e.0) m

  put-any :
      (k : String) (m : List (String × V))
      → Agrees m
      → any (λ e. bad e.1) (put k (f k) m) ≡ (bad (f k) || any (λ e. bad e.1) m)
  unfolding put
  put-any k [] h = refl
  put-any k ((j, w) ∷ m) h = ground (arith, eq_iff j k, put-any k m h.1)

  put-Agrees : (k : String) (m : List (String × V)) → Agrees m → Agrees (put k (f k) m)
  unfolding put
  put-Agrees k [] h = (refl, tt)
  put-Agrees k ((j, w) ∷ m) h = elim (Bool-cases (str_eq j k)) [
    | inl e ↦ rw (e, put) (ap f (sym ((eq_iff j k).0 e)), h.1)
    | inr e ↦ rw (e, put) (h.0, put-Agrees k m h.1)
  ]

  dict_from-any :
      (ks : List String) (m : List (String × V))
      → Agrees m
      → any (λ e. bad e.1) (dict_from f ks m) ≡ (any (λ k. bad (f k)) ks || any (λ e. bad e.1) m)
  unfolding dict_from
  dict_from-any [] m h = refl
  dict_from-any (k ∷ ks) m h =
      ground (arith, dict_from-any ks (put k (f k) m) (put-Agrees k m h), put-any k m h)

unknown_not_satisfied :
    (o : Option NodeRow)
    → mem (or_unknown (status_of o)) satisfied_dep_statuses ≡ is_satisfied (status_of o)
unknown_not_satisfied none = refl
unknown_not_satisfied (some n) = go n.status
  where
    go : (t : Option String) → mem (or_unknown t) satisfied_dep_statuses ≡ is_satisfied t
    go none = refl
    go (some t) = refl

or_false : (b : Bool) → (b || false) ≡ b
or_false true = refl
or_false false = refl

any-cong {ℓ} :
    {A : Type ℓ} (p q : A → Bool) (xs : List A) → ((x : A) → p x ≡ q x) → any p xs ≡ any q xs
any-cong p q xs h = rw (fun_ext h)

module _ {F : Type 0} (criteria : List (CriterionCheck F)) (constraints : List (ConstraintCheck F))
    (nodes : List NodeRow) (depends_on required : List String) (repo : Checkout)
    (diff : Option SubjectDiff) (sem : Option (SemanticOutput F)) where
  abbrev pub found : DecisionContext F
  found = record {
    deterministic = assemble criteria constraints nodes depends_on required repo diff;
    semantic = sem;
  }

  -- The matrix sees incomplete dependencies exactly where some dependency of the node is neither
  -- complete nor provisional in the project graph, which a missing or unknown node is not either,
  -- and missing artifacts exactly where some required artifact was not found in the checkout;
  -- repeated names change neither.
  pub assemble_lem :
      (deps_incomplete found ≡ any (λ d. not (is_satisfied (node_status nodes d))) depends_on)
      × (artifacts_missing found ≡ any (λ a. not (artifact_present repo a)) required)
  unfolding deps_incomplete artifacts_missing assemble dependency_status check_artifacts node_status
  assemble_lem = (
    dict_from-any (λ s. not (mem s satisfied_dep_statuses))
          (λ d. or_unknown (status_of (find_row d nodes))) depends_on [] tt
        ∙ or_false _
        ∙ any-cong _ _ depends_on (λ d. ap not (unknown_not_satisfied (find_row d nodes))),
    dict_from-any not (artifact_present repo) required [] tt ∙ or_false _,
  )
