-- ===== src/Heartbeat/Classifier/Tagged.antt =====
-- What a classification rests on.
use Prim.Native.String.{◌++◌ as text_append}
use Prim.Native.Char.{code}
use gddp_runtime.Prelude.{
  Among, sym, ℕ, String, true, false, Option, none, some, List, [], ◌∷◌, ◌++◌, All, str_eq, eq_iff,
  ◌≡◌, inl, inr, refl, ap, ◌∙◌, arith, Bool-cases, Option-cases,
}
use gddp_runtime.Heartbeat.Classifier.{
  letter, classify, for_target, target_of, tagged, named_node, search_tag, tag_sources, same_codes,
  preselected, match_here, after_node, tag_run, nonempty_run, is_tag_char, is_separator,
}
use gddp_runtime.Heartbeat.Classifier.Chosen.{IsBy, Asks, classification_of_iff, preselected-Asks}
use gddp_runtime.Prelude.Text.{codes}
use gddp_runtime.Heartbeat.Graph.{NodeData}
use gddp_runtime.Heartbeat.Store.Rows.{find-some, find-Among}
use gddp_runtime.Heartbeat.Store.{EventRow, Classification}
use Prim.Native.String.append

same_codes-eq : (as' bs : List ℕ) → same_codes as' bs ≡ true → as' ≡ bs
unfolding same_codes
same_codes-eq [] [] h = refl
same_codes-eq [] (b ∷ bs) h = absurd (cc)
same_codes-eq (a ∷ as') [] h = absurd (cc)
same_codes-eq (a ∷ as') (b ∷ bs) h =
    let first : a ≡ b = ground (arith, h) in
    let rest = same_codes-eq as' bs (ground (arith, h)) in rw (first, rest) refl

-- A ready node that the tag of one of the texts names.
abbrev pub IsNamed : List NodeData → List String → NodeData → Type 0
IsNamed ready sources n =
    Among n ready
    × ((s : String) × Among s sources × (search_tag (codes s) ≡ some (codes n.node_id)))

tagged-named :
    (ready : List NodeData) (o : Option (List ℕ)) (n : NodeData)
    → tagged ready o ≡ some n
    → Among n ready × (o ≡ some (codes n.node_id))
unfolding tagged named_node
tagged-named ready none n h = absurd (cc)
tagged-named ready (some tag) n h = (
  find-Among (named_node tag) ready n h,
  ap some (sym (same_codes-eq (codes n.node_id) tag (find-some (named_node tag) ready n h))),
)

target_of-IsNamed :
    (ready : List NodeData) (sources : List String) (n : NodeData)
    → target_of ready sources ≡ some n
    → IsNamed ready sources n
unfolding target_of
target_of-IsNamed ready [] n h = absurd (cc)
target_of-IsNamed ready (s ∷ sources) n h =
    elim (Option-cases (tagged ready (search_tag (codes s)))) [
      | inl e ↦
          let r = target_of-IsNamed ready sources n (rw e at h) in (r.0, (r.1.0, inr r.1.1, r.1.2))
      | inr (m, e) ↦
          let same : some m ≡ some n = rw e at h in
          let t = tagged-named ready (search_tag (codes s)) n (e ∙ same) in
          (t.0, (s, inl refl, t.1))
    ]

for_target-some :
    (e : EventRow) (o : Option NodeData) (c : Classification)
    → for_target e o ≡ some c
    → (n : NodeData) × (o ≡ some n)
      × (c.matched_node_id ≡ n.node_id)
      × IsBy n (preselected e.routing) c.executor_recommendation
unfolding for_target
for_target-some e none c h = absurd (cc)
for_target-some e (some n) c h =
    let r = (classification_of_iff n (preselected e.routing) c).0 h in (n, refl, r.0, r.1)

-- An event is classified only if it is a newly opened issue, and only to a ready node whose
-- identifier is the tag of one of the event's texts. Where the event's routing carries an operator's
-- choice, the executor is that choice, which is neither "agent" nor "human", and the node's modes list
-- it or list "agent"; where it carries none, the executor is the node's first mode, and "jules" for a
-- node without modes.
pub classify-tagged :
    (e : EventRow) (ready : List NodeData) (c : Classification)
    → classify e ready ≡ some c
    → (e.event_type ≡ "issue.opened")
      × ((n : NodeData) × (c.matched_node_id ≡ n.node_id)
          × IsNamed ready (tag_sources e) n
          × ((choice : Option String) × Asks e.routing choice
              × IsBy n choice c.executor_recommendation))
unfolding classify
classify-tagged e ready c h = elim (Bool-cases (str_eq e.event_type "issue.opened")) [
  | inl opened ↦
      let (n, found, same, chosen) =
        for_target-some e (target_of ready (tag_sources e)) c (rw opened at h) in
      (
        (eq_iff e.event_type "issue.opened").0 opened,
        (
          n,
          same,
          target_of-IsNamed ready (tag_sources e) n found,
          (preselected e.routing, preselected-Asks e.routing, chosen),
        ),
      )
  | inr other ↦ let absent : none ≡ some c = rw other at h in absurd (cc)
]

pub codes-append : (s t : String) → codes (text_append s t) ≡ codes s ++ codes t
codes-append String.[] t = ap codes (append.nil t)
codes-append (String.◌∷◌ c s) t =
    ap codes (append.cons c s t) ∙ ap (λ r. code c ∷ r) (codes-append s t)

tag_run_id : (cs : List ℕ) → All (λ c. is_tag_char c ≡ true) cs → tag_run cs ≡ cs
unfolding tag_run
tag_run_id [] h = refl
tag_run_id (c ∷ cs) h = rw (h.0, tag_run) (ap (λ r. c ∷ r) (tag_run_id cs h.1))

-- An identifier of tag characters that does not begin with a separator.
abbrev pub IsTag : List ℕ → Type 0
IsTag [] = ⊥
IsTag (c ∷ cs) = (is_separator c ≡ false) × All (λ d. is_tag_char d ≡ true) (c ∷ cs)

after_node-tag :
    (cs : List ℕ) → IsTag cs → (after_node cs ≡ none) × (nonempty_run (tag_run cs) ≡ some cs)
unfolding after_node nonempty_run
after_node-tag [] h = absurd h
after_node-tag (c ∷ cs) h = (rw (h.0, after_node), rw (tag_run_id (c ∷ cs) h.1))

-- The tag of an event that the frontier injects for a node is the node's identifier.
pub search_tag-prefix :
    (id : String)
    → IsTag (codes id)
    → search_tag (codes (text_append "frontier-dispatch://node: " id)) ≡ some (codes id)
unfolding search_tag match_here letter
search_tag-prefix id h =
    rw (codes-append "frontier-dispatch://node: " id)
      (rw ((after_node-tag (codes id) h).0, (after_node-tag (codes id) h).1))
