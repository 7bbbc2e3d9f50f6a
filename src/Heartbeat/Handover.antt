-- ===== src/Heartbeat/Handover.antt =====
-- scripts/runtime/heartbeat: the event that the frontier writes for a node, as the classifier reads it.
use gddp_runtime.Prelude.{
  ℕ, String, Bool, true, false, Option, none, some, List, [], ◌∷◌, if◌then◌else◌, str_eq, eq_iff,
  ◌≡◌, ◌≢◌, ◌↔◌, ◌⊎◌, inl, inr, refl, sym, ap, subst, ◌∙◌, Bool-cases,
}
use gddp_runtime.Prelude.Text.{codes}
use gddp_runtime.Heartbeat.Graph.{NodeData, ProjectGraph}
use gddp_runtime.Heartbeat.Store.{Classification, selected_executor, find}
use gddp_runtime.Heartbeat.Frontier.{
  dispatch_event, dispatch_url, auto_dispatch_routing, chosen_executor,
}
use gddp_runtime.Heartbeat.Classifier.Chosen.{IsBy, classification_of_iff}
use gddp_runtime.Heartbeat.Classifier.{
  classify, for_target, target_of, tagged, named_node, tag_sources, preselected, classification_of,
}
use gddp_runtime.Heartbeat.Classifier.Tagged.{IsTag, search_tag-prefix, codes-append}

dispatch_url-filled : (id : String) → str_eq (dispatch_url id) "" ≡ false
dispatch_url-filled id = elim (Bool-cases (str_eq (dispatch_url id) "")) [
  | inl e ↦
      let same : codes (dispatch_url id) ≡ [] = ap codes ((eq_iff (dispatch_url id) "").0 e) in
      absurd (cc (same, codes-append "frontier-dispatch://node: " id))
  | inr e ↦ e
]

-- The choice that a project's default executor stands for: an empty one is none.
abbrev pub IsDefault : Option String → Option String → Type 0
IsDefault none choice = choice ≡ none
IsDefault (some x) choice = ((x ≡ "") × (choice ≡ none)) ⊎ ((x ≢ "") × (choice ≡ some x))

default_unique : (d a b : Option String) → IsDefault d a → IsDefault d b → a ≡ b
default_unique none a b p q = p ∙ sym q
default_unique (some x) a b (inl p) (inl q) = p.1 ∙ sym q.1
default_unique (some x) a b (inl p) (inr q) = absurd (q.0 p.0)
default_unique (some x) a b (inr p) (inl q) = absurd (p.0 q.0)
default_unique (some x) a b (inr p) (inr q) = p.1 ∙ sym q.1

module _ (event_id : String → String) (now : ℕ) (project : ProjectGraph) (ready : List NodeData)
    (id : String) where
  sources_lem : tag_sources (dispatch_event event_id now project id) ≡ dispatch_url id ∷ []
  unfolding tag_sources dispatch_event
  sources_lem = rw (dispatch_url-filled id) refl

  opened_lem : (dispatch_event event_id now project id).event_type ≡ "issue.opened"
  unfolding dispatch_event
  opened_lem = refl

  routing_lem :
      (dispatch_event event_id now project id).routing ≡ some (auto_dispatch_routing project)
  unfolding dispatch_event
  routing_lem = refl

  event_classification :
      (n : NodeData)
      → IsTag (codes id)
      → find (named_node (codes id)) ready ≡ some n
      → classify (dispatch_event event_id now project id) ready
        ≡ classification_of n (preselected (some (auto_dispatch_routing project)))
  unfolding classify target_of for_target tagged
  event_classification n tag found =
      rw (sources_lem, search_tag-prefix id tag, found, opened_lem, routing_lem) refl

  IsDefault-Asks :
      (d : Option String) → IsDefault d (preselected (some (selected_executor (chosen_executor d))))
  unfolding preselected
  IsDefault-Asks none = refl
  IsDefault-Asks (some x) = go (str_eq x "") refl
    where
      go :
          (b : Bool)
          → str_eq x "" ≡ b
          → IsDefault (some x) (preselected (some (selected_executor (if b then none else some x))))
      go true e = inl ((eq_iff x "").0 e, unfold preselected in refl)
      go false e = inr (λ q. absurd (cc (e, (eq_iff x "").1 q)), unfold preselected in rw e refl)

  -- The event that the frontier writes for a node, where its identifier is a tag, is classified, to
  -- the first ready node of that identifier, exactly as follows. Where the project names a default
  -- executor, it goes to that one, which must be neither "agent" nor "human" and which the node's
  -- modes must list unless they list "agent"; else it is not classified. Where the project names
  -- none, it goes to the node's first mode, and to "jules" for a node without modes.
  pub dispatch_event-classified :
      (n : NodeData) (c : Classification)
      → IsTag (codes id)
      → find (named_node (codes id)) ready ≡ some n
      → (classify (dispatch_event event_id now project id) ready ≡ some c) ↔ (
          (c.matched_node_id ≡ n.node_id)
          × ((choice : Option String) × IsDefault project.execution_policy.default_executor choice
              × IsBy n choice c.executor_recommendation))
  dispatch_event-classified n c tag found =
      let asked = preselected (some (auto_dispatch_routing project)) in
      let chosen = classification_of_iff n asked c in
      let named : IsDefault project.execution_policy.default_executor asked =
        unfold auto_dispatch_routing in IsDefault-Asks project.execution_policy.default_executor in
      (
        λ h.
            let r = chosen.0 (sym (event_classification n tag found) ∙ h) in
            (r.0, (asked, named, r.1)),
        λ q.
            let same =
              default_unique project.execution_policy.default_executor asked q.1.0 named q.1.1 in
            event_classification n tag found
            ∙ chosen.1 (q.0, subst (λ o. IsBy n o c.executor_recommendation) (sym same) q.1.2),
      )
