-- ===== src/Heartbeat/Gates/Trip.antt =====
-- What is read after a write and after a revocation.
use gddp_runtime.Prelude.{
  ℕ, String, Bool, true, false, ◌&&◌, Option, none, some, List, [], ◌∷◌, Among, All, All-Among,
  if◌then◌else◌, str_eq, eq_iff, eq_refl, or_else, is_some, Result, ok, err, ◌≡◌, ◌≢◌, ◌⊎◌, inl,
  inr, refl, ap, ◌∙◌, Bool-cases,
}
use gddp_runtime.Heartbeat.Gates.{
  GateToken, GateDir, GateError, GateFile, token, receipt_fields, gate_satisfied, gate_file,
  remove_gate, gate_content, write_gate, revoke_gate, valid_gate, read_gate,
}

gate_file_removed :
    (node : String) (gates : GateDir) → gate_file node (remove_gate node gates) ≡ none
unfolding gate_file remove_gate
gate_file_removed node [] = refl
gate_file_removed node ((k, f) ∷ rest) = elim (Bool-cases (str_eq k node)) [
  | inl e ↦ rw e (gate_file_removed node rest)
  | inr e ↦ rw (e, gate_file, e, gate_file_removed node rest) refl
]

gate_file_kept :
    (node other : String) (gates : GateDir)
    → str_eq node other ≡ false
    → gate_file other (remove_gate node gates) ≡ gate_file other gates
unfolding gate_file remove_gate
gate_file_kept node other [] h = refl
gate_file_kept node other ((k, f) ∷ rest) h = elim (Bool-cases (str_eq k node)) [
  | inl e ↦
      let same : k ≡ node = (eq_iff k node).0 e in
      let apart : str_eq k other ≡ false = ap (λ t. str_eq t other) same ∙ h in
      rw (e, apart) (gate_file_kept node other rest h)
  | inr e ↦
      rw (e, gate_file)
        (ap (λ o. or_else (if str_eq k other then some f else none) o)
          (gate_file_kept node other rest h))
]

module _ (node other : String) (gates : GateDir) where
  read_written :
      (t : GateToken)
      → t.node_id ≡ node
      → (read_gate node ((node, token t) ∷ remove_gate node gates) ≡ ok (some t))
        × ((str_eq node other ≡ true)
            ⊎ (read_gate other ((node, token t) ∷ remove_gate node gates) ≡ read_gate other gates))
  unfolding read_gate gate_file valid_gate
  read_written t e = (
    rw (gate_file_removed node gates, eq_refl node, e, eq_refl node) refl,
    elim (Bool-cases (str_eq node other)) [
      | inl same ↦ inl same
      | inr apart ↦ inr (rw (gate_file_kept node other gates apart, apart) refl)
    ],
  )

  read_removed :
      (read_gate node (remove_gate node gates) ≡ ok none)
      × ((str_eq node other ≡ true)
          ⊎ (read_gate other (remove_gate node gates) ≡ read_gate other gates))
  unfolding read_gate
  read_removed = (
    rw (gate_file_removed node gates) (absent node),
    elim (Bool-cases (str_eq node other)) [
      | inl same ↦ inl same
      | inr apart ↦ inr (rw (gate_file_kept node other gates apart) refl)
    ],
  )
    where
      absent : (n : String) → valid_gate n none ≡ ok none
      absent n = unfold valid_gate in refl

  -- What a token says of the receipt that it was written for.
  abbrev pub Carries : (String → Option String) → Option String → GateToken → Type 0
  Carries sha256 none t = (t.receipt_path ≡ none) × (t.verdict_receipt_sha256 ≡ none)
  Carries sha256 (some path) t =
      ((path ≡ "") × (t.receipt_path ≡ none) × (t.verdict_receipt_sha256 ≡ none))
      ⊎ ((path ≢ "")
          × (t.receipt_path ≡ some path)
          × (((digest : String) × (sha256 path ≡ some digest)
                × (t.verdict_receipt_sha256 ≡ some digest))
              ⊎ ((sha256 path ≡ none) × (t.verdict_receipt_sha256 ≡ some ""))))

  gate_content-Carries :
      (sha256 : String → Option String) (now : ℕ) (receipt : Option String)
      → Carries sha256 receipt (gate_content sha256 now node receipt)
  unfolding gate_content receipt_fields
  gate_content-Carries sha256 now none = (refl, refl)
  gate_content-Carries sha256 now (some path) = go (str_eq path "") refl (sha256 path) refl
    where
      go :
          (b : Bool)
          → str_eq path "" ≡ b
          → (d : Option String) → sha256 path ≡ d
          → (let fields : Option String × Option String =
                if b then (none, none) else (some path, or_else d (some "")) in
              ((path ≡ "") × (fields.0 ≡ none) × (fields.1 ≡ none))
              ⊎ ((path ≢ "")
                  × (fields.0 ≡ some path)
                  × (((digest : String) × (sha256 path ≡ some digest) × (fields.1 ≡ some digest))
                      ⊎ ((sha256 path ≡ none) × (fields.1 ≡ some "")))))
      go true e d f = inl ((eq_iff path "").0 e, refl, refl)
      go false e none f = inr (λ q. absurd (cc (e, (eq_iff path "").1 q)), refl, inr (f, refl))
      go false e (some d) f =
          inr (λ q. absurd (cc (e, (eq_iff path "").1 q)), refl, inl (d, f, refl))

  satisfied_reads :
      (deps : List String) (g : GateDir)
      → gate_satisfied deps g ≡ ok true
      → All (λ d. (t : GateToken) × (read_gate d g ≡ ok (some t))) deps
  unfolding gate_satisfied
  satisfied_reads [] g h = tt
  satisfied_reads (d ∷ deps) g h = go (λ k. satisfied_reads deps g k) (read_gate d g) refl h
    where
      go :
          (gate_satisfied deps g ≡ ok true
            → All (λ d. (t : GateToken) × (read_gate d g ≡ ok (some t))) deps)
          → (o : Result GateError (Option GateToken)) → read_gate d g ≡ o
          → elim o as (λ _. Result GateError Bool) [
            | err e ↦ err e
            | ok t ↦ if is_some t then gate_satisfied deps g else ok false
          ]
            ≡ ok true
          → ((t : GateToken) × (read_gate d g ≡ ok (some t)))
            × All (λ d. (t : GateToken) × (read_gate d g ≡ ok (some t))) deps
      go k (err e) r h = absurd (cc)
      go k (ok none) r h = absurd (cc)
      go k (ok (some t)) r h = ((t, r), k h)

  unsatisfied :
      (deps : List String) (g : GateDir)
      → Among node deps
      → read_gate node g ≡ ok none
      → gate_satisfied deps g ≢ ok true
  unsatisfied deps g m r h =
      let (t, e) =
        All-Among (λ d. (t : GateToken) × (read_gate d g ≡ ok (some t))) deps node
          (satisfied_reads deps g h) m in
      absurd (cc (r, e))

  -- A writing of a token, from what it leaves and whether it reports a file.
  abbrev pub IsWritten :
      Bool → (String → Option String) → ℕ → Option String → GateDir × Bool → Type 0
  IsWritten written sha256 now receipt (after, reported) =
      ((written ≡ false) × (reported ≡ false) × (after ≡ gates))
      ⊎ ((written ≡ true)
          × (reported ≡ true)
          × ((t : GateToken) × (read_gate node after ≡ ok (some t))
              × (t.node_id ≡ node)
              × (t.issued_at ≡ now)
              × Carries sha256 receipt t)
          × ((str_eq node other ≡ true) ⊎ (read_gate other after ≡ read_gate other gates)))

  -- A revocation, for a list of dependencies with the node among them.
  abbrev pub IsRevoked : Bool → List String → GateDir × Bool → Type 0
  IsRevoked unlinked deps (after, reported) =
      ((reported ≡ false) × (after ≡ gates) × ((gate_file node gates ≡ none) ⊎ (unlinked ≡ false)))
      ⊎ ((reported ≡ true)
          × (read_gate node after ≡ ok none)
          × (gate_satisfied deps after ≢ ok true)
          × ((str_eq node other ≡ true) ⊎ (read_gate other after ≡ read_gate other gates)))

  write_gate-IsWritten :
      (written : Bool) (sha256 : String → Option String) (now : ℕ) (receipt : Option String)
      → IsWritten written sha256 now receipt (write_gate written sha256 now node receipt gates)
  unfolding write_gate
  write_gate-IsWritten false sha256 now receipt = inl (refl, refl, refl)
  write_gate-IsWritten true sha256 now receipt =
      let t = gate_content sha256 now node receipt in
      let named : t.node_id ≡ node = unfold gate_content in refl in
      let stamped : t.issued_at ≡ now = unfold gate_content in refl in
      let w = read_written t named in
      inr (refl, refl, (t, w.0, named, stamped, gate_content-Carries sha256 now receipt), w.1)

  revoke_gate-IsRevoked :
      (unlinked : Bool) (deps : List String)
      → Among node deps
      → IsRevoked unlinked deps (revoke_gate unlinked node gates)
  unfolding revoke_gate
  revoke_gate-IsRevoked unlinked deps m = go (gate_file node gates) refl unlinked refl
    where
      go :
          (o : Option GateFile)
          → gate_file node gates ≡ o
          → (u : Bool) → unlinked ≡ u
          → IsRevoked unlinked deps
              (if is_some o && u then (remove_gate node gates, true) else (gates, false))
      go none e u q = inl (refl, refl, inl e)
      go (some f) e false q = inl (refl, refl, inr q)
      go (some f) e true q =
          inr (refl, read_removed.0, unsatisfied deps _ m read_removed.0, read_removed.1)

  -- A token that was written is read back for its node, with the time and with the path and the hash
  -- of the receipt that it was written for: no path where there is none, and an empty hash where the
  -- receipt's file is not there. A token that was revoked is read no more, and no list of dependencies
  -- with its node in it is satisfied. Every other node reads what it read before. A writing that fails
  -- and a revocation that does nothing, since there is no file or it cannot be unlinked, report so and
  -- leave every file as it is.
  pub read_gate_lem :
      (written unlinked : Bool) (sha256 : String → Option String) (now : ℕ)
      (receipt : Option String) (deps : List String)
      → Among node deps
      → IsWritten written sha256 now receipt (write_gate written sha256 now node receipt gates)
        × IsRevoked unlinked deps (revoke_gate unlinked node gates)
  read_gate_lem written unlinked sha256 now receipt deps m =
      (write_gate-IsWritten written sha256 now receipt, revoke_gate-IsRevoked unlinked deps m)
