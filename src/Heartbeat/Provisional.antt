-- ===== src/Heartbeat/Provisional.antt =====
-- scripts/runtime/heartbeat/provisional_status.py: a verdict that makes a node provisional.
pub mod Promoted
use gddp_runtime.Prelude.{
  ℕ, zero, suc, ◌+◌, ◌-◌, ◌≤◌, ◌<◌, String, Bool, true, false, ◌&&◌, ◌||◌, not, Option, none, some,
  List, [], ◌∷◌, ◌++◌, map, any, all, keep, All, nonempty, length, mem, if◌then◌else◌, ltb, leb,
  ◌==◌, str_eq, eq_iff, eq_refl, or_else, is_some, Result, ok, err, ◌>>=◌, ◌>>◌, guard, ◌≡◌, ◌≢◌,
  ◌↔◌, ◌⊎◌, inl, inr, refl, sym, ap, subst, ◌∙◌, arith, Bool-cases, Option-cases,
}
use gddp_runtime.Heartbeat.Gates.{GateHost, GateDir, read_gate, write_gate, is_missing}
use gddp_runtime.Heartbeat.Graph.{NodeRow}
use gddp_runtime.Heartbeat.Frontier.{NodeCli, NodeDoc, World, node_doc, set_doc}
use gddp_runtime.Heartbeat.Sessions.{filled}
use gddp_runtime.Heartbeat.Adoption.{terminal_statuses}

-- The keys of a stored verification that are read; a missing integrity is one without its flags.
pub record StoredVerdict : Type 0 where
  pub verdict : Option String
  pub intent_preserved : Option Bool
  pub graph_integrity_preserved : Option Bool
  pub required_human_review : Bool
  pub receipt_path : Option String

abbrev is_true : Option Bool → Bool
is_true none = false
is_true (some b) = b

abbrev is_text : Option String → String → Bool
is_text none t = false
is_text (some s) t = str_eq s t

unfoldable pub provisional_eligible : StoredVerdict → Bool
provisional_eligible v =
    if not (is_text v.verdict "pass")
    then false
    else if not (is_true v.intent_preserved)
    then false
    else if not (is_true v.graph_integrity_preserved)
    then false
    else not v.required_human_review

-- Whether the status rewriters are found and accept the two texts, and whether the replacements of
-- the node's file and of project.yaml work.
pub record GraphWrites : Type 0 where
  pub rewritten : Bool
  pub node_written : Bool
  pub index_written : Bool

-- `verification.get("receipt_path") or evidence_ref`, and the token that carries it.
module _ (cli : NodeCli) (host : GateHost) (evidence_ref : String) where
  unfoldable pub issue_gate : StoredVerdict → String → GateDir → GateDir
  unfolding filled
  issue_gate v node gates =
      if host.resolved
      then (write_gate (host.written node) host.sha256 host.now node
          (or_else (filled v.receipt_path) (some evidence_ref)) gates).0
      else gates

  -- The repair of a token of a node that is provisional already.
  unfoldable pub heal_gate : StoredVerdict → String → GateDir → GateDir
  unfolding issue_gate is_missing
  heal_gate v node gates =
      if is_missing (read_gate node gates) then issue_gate v node gates else gates

  unfoldable pub replace_node : String → World → World
  unfolding set_doc
  replace_node node w = record w { docs = map (set_doc cli node "provisional") w.docs }

  -- The first file stays replaced where the second cannot be. An exception of a rewriter or of a
  -- replacement is a false answer.
  unfoldable pub set_provisional : GraphWrites → StoredVerdict → String → World → World × Bool
  unfolding replace_node issue_gate
  set_provisional writes v node w =
      if not (writes.rewritten && writes.node_written)
      then (w, false)
      else if not writes.index_written
      then (replace_node node w, false)
      else (
        record w {
          rows = cli.replace_index_status w.rows node "provisional";
          docs = map (set_doc cli node "provisional") w.docs;
          gates = issue_gate v node w.gates;
        },
        true,
      )

  unfoldable pub mark_doc :
      GraphWrites → StoredVerdict → String → Option NodeDoc → World → World × Bool
  unfolding heal_gate set_provisional
  mark_doc writes v node none w = (w, false)
  mark_doc writes v node (some doc) w =
      if doc.human_gate
      then (w, false)
      else if mem doc.status terminal_statuses
      then (w, false)
      else if str_eq doc.status "provisional"
      then (record w { gates = heal_gate v node w.gates }, false)
      else set_provisional writes v node w

  unfoldable pub maybe_mark_provisional :
      GraphWrites → StoredVerdict → String → World → World × Bool
  unfolding mark_doc
  maybe_mark_provisional writes v node w =
      if not (provisional_eligible v)
      then (w, false)
      else mark_doc writes v node (node_doc node w.docs) w
