-- ===== src/Heartbeat/Provisional/Promoted.antt =====
-- What a promotion went by.
use gddp_runtime.Prelude.{
  String, Bool, true, false, ◌&&◌, some, List, map, mem, str_eq, ok, ◌≡◌, ◌⊎◌,
}
use gddp_runtime.Heartbeat.Gates.{GateHost, GateToken, read_gate}
use gddp_runtime.Heartbeat.Frontier.{NodeCli, NodeDoc, World, node_doc, set_doc}
use gddp_runtime.Heartbeat.Adoption.{terminal_statuses}
use gddp_runtime.Heartbeat.Provisional.{StoredVerdict, GraphWrites, provisional_eligible}

-- The verdict qualifies, and the node's file has neither a human gate nor a status past it.
pub record IsPromotable (v : StoredVerdict) (node : String) (w : World) : Type 0 where
  pub eligible : provisional_eligible v ≡ true
  pub doc : NodeDoc
  pub described : node_doc node w.docs ≡ some doc
  pub open_gate : doc.human_gate ≡ false
  pub open_status : mem doc.status terminal_statuses ≡ false
  pub moved : str_eq doc.status "provisional" ≡ false

module _ (cli : NodeCli) (host : GateHost) (evidence_ref : String) (writes : GraphWrites)
    (v : StoredVerdict) (node : String) (w : World) where
  -- The node's token can be read, unless the checkout is not found or cannot be written.
  abbrev pub IsAdmitted : World → Type 0
  IsAdmitted after =
      ((t : GateToken) × (read_gate node after.gates ≡ ok (some t)) × (t.node_id ≡ node))
      ⊎ (host.resolved && host.written node ≡ false)

  abbrev pub docs_after : List (String × NodeDoc)
  docs_after = map (set_doc cli node "provisional") w.docs

  -- What a marking leaves, and what it answers.
  abbrev pub IsMarked : World × Bool → Type 0
  IsMarked (after, true) =
      IsPromotable v node w
      × (after.rows ≡ cli.replace_index_status w.rows node "provisional")
      × (after.docs ≡ docs_after)
      × (after.db ≡ w.db)
      × (writes.rewritten && writes.node_written ≡ true)
      × (writes.index_written ≡ true)
      × IsAdmitted after
  IsMarked (after, false) =
      (after.rows ≡ w.rows)
      × (after.db ≡ w.db)
      × (((after.docs ≡ w.docs)
            × ((IsPromotable v node w → ⊥)
                ⊎ ((writes.rewritten && writes.node_written ≡ false) × (after.gates ≡ w.gates))))
          ⊎ ((after.docs ≡ docs_after)
              × IsPromotable v node w
              × (writes.index_written ≡ false)
              × (after.gates ≡ w.gates)))
