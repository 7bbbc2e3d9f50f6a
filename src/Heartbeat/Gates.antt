-- ===== src/Heartbeat/Gates.antt =====
-- scripts/runtime/gate_tokens.py: the tokens that admit the dependents of a node.
pub mod Trip
use gddp_runtime.Prelude.{
  ℕ, zero, suc, ◌+◌, ◌-◌, ◌≤◌, ◌<◌, String, Bool, true, false, ◌&&◌, ◌||◌, not, Option, none, some,
  List, [], ◌∷◌, ◌++◌, map, any, all, keep, All, nonempty, length, mem, if◌then◌else◌, ltb, leb,
  ◌==◌, str_eq, eq_iff, eq_refl, or_else, is_some, Result, ok, err, ◌>>=◌, ◌>>◌, guard, ◌≡◌, ◌≢◌,
  ◌↔◌, ◌⊎◌, inl, inr, refl, sym, ap, subst, ◌∙◌, arith, Bool-cases, Option-cases,
}

-- The content of a token that `write_gate` makes.
pub record GateToken : Type 0 where
  pub node_id : String
  pub issued_at : ℕ
  pub receipt_path : Option String
  pub verdict_receipt_sha256 : Option String

-- What a token's file holds: bytes that are no text, or no JSON (a file that cannot be opened reads
-- alike), or a value that is no token.
pub data GateFile : Type 0 where
  undecodable unreadable not_an_object other_node : GateFile
  token : GateToken → GateFile

-- The directory of the gates: the file of each node that has one.
abbrev pub GateDir : Type 0
GateDir = List (String × GateFile)

unfoldable pub gate_file : String → GateDir → Option GateFile
gate_file node [] = none
gate_file node ((k, f) ∷ rest) =
    or_else (if str_eq k node then some f else none) (gate_file node rest)

unfoldable pub remove_gate : String → GateDir → GateDir
remove_gate node [] = []
remove_gate node ((k, f) ∷ rest) =
    let more = remove_gate node rest in if str_eq k node then more else (k, f) ∷ more

-- The hash of a receipt, if its file is there, and the content that carries it.
unfoldable pub receipt_fields :
    (String → Option String) → Option String → Option String × Option String
receipt_fields sha256 none = (none, none)
receipt_fields sha256 (some path) =
    if str_eq path "" then (none, none) else (some path, or_else (sha256 path) (some ""))

unfoldable pub gate_content : (String → Option String) → ℕ → String → Option String → GateToken
unfolding receipt_fields
gate_content sha256 now node receipt = record {
  node_id = node;
  issued_at = now;
  receipt_path = (receipt_fields sha256 receipt).0;
  verdict_receipt_sha256 = (receipt_fields sha256 receipt).1;
}

-- `written` tells whether the directory, the temporary file and the replacement worked.
unfoldable pub write_gate :
    (written : Bool) (sha256 : String → Option String) (now : ℕ) (node : String)
    (receipt : Option String)
    → GateDir
    → GateDir × Bool
unfolding gate_content remove_gate
write_gate false sha256 now node receipt gates = (gates, false)
write_gate true sha256 now node receipt gates =
    ((node, token (gate_content sha256 now node receipt)) ∷ remove_gate node gates, true)

-- `unlinked` tells whether the file system let go of the file.
unfoldable pub revoke_gate : (unlinked : Bool) → String → GateDir → GateDir × Bool
unfolding remove_gate gate_file
revoke_gate unlinked node gates =
    if is_some (gate_file node gates) && unlinked
    then (remove_gate node gates, true)
    else (gates, false)

-- The exception of a file that is no text, which `read_gate` does not catch.
pub data GateError : Type 0 where
  not_text : GateError

unfoldable pub valid_gate : String → Option GateFile → Result GateError (Option GateToken)
valid_gate node none = ok none
valid_gate node (some (token t)) = ok (if str_eq t.node_id node then some t else none)
valid_gate node (some undecodable) = err not_text
valid_gate node (some _) = ok none

unfoldable pub read_gate : String → GateDir → Result GateError (Option GateToken)
unfolding valid_gate gate_file
read_gate node gates = valid_gate node (gate_file node gates)

-- `all(…)`: it stops at the first dependency without a token.
unfoldable pub gate_satisfied : List String → GateDir → Result GateError Bool
unfolding read_gate
gate_satisfied [] gates = ok true
gate_satisfied (d ∷ deps) gates =
    let rest = gate_satisfied deps gates in
    elim (read_gate d gates) [ err e ↦ err e | ok t ↦ if is_some t then rest else ok false ]

-- `read_gate(…) is None`, under a handler that leaves the file alone where the reading raises.
unfoldable pub is_missing : Result GateError (Option GateToken) → Bool
is_missing (ok none) = true
is_missing (ok (some t)) = false
is_missing (err e) = false

-- What `_ensure_dependency_gates` finds around the tokens: the checkout, the newest stored receipt of
-- a node, the receipts' hashes, the clock, and whether a write works.
pub record GateHost : Type 0 where
  pub resolved : Bool
  pub latest_receipt : String → Option String
  pub sha256 : String → Option String
  pub now : ℕ
  pub written : String → Bool

unfoldable pub ensure_gate : GateHost → String → GateDir → GateDir
unfolding read_gate write_gate is_missing
ensure_gate host dep gates =
    if is_missing (read_gate dep gates)
    then (write_gate (host.written dep) host.sha256 host.now dep (host.latest_receipt dep) gates).0
    else gates

unfoldable pub ensure_gates : GateHost → List String → GateDir → GateDir
unfolding ensure_gate
ensure_gates host [] gates = gates
ensure_gates host (dep ∷ deps) gates = ensure_gates host deps (ensure_gate host dep gates)

unfoldable pub ensure_dependency_gates : GateHost → List String → GateDir → GateDir
unfolding ensure_gates
ensure_dependency_gates host deps gates =
    if host.resolved then ensure_gates host deps gates else gates
