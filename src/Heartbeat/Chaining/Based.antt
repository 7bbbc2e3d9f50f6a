-- ===== src/Heartbeat/Chaining/Based.antt =====
-- The base of an attempt.
use gddp_runtime.Prelude.{
  ◌≤◌, String, Bool, true, false, Option, none, some, List, [], ◌∷◌, length, if◌then◌else◌, Result,
  ok, err, guard, ◌>>◌, ◌≡◌, ◌⊎◌, inl, inr, refl, sym, ap, ◌∙◌, arith,
}
use gddp_runtime.Heartbeat.Chaining.{
  Deferral, several_provisional, no_recorded_result, no_checkout, commit_not_found, merged_already,
  Sources, chained_base, chained_on, chained_to, first_vouched, result_sessions, provisional_deps,
}
use gddp_runtime.Heartbeat.Sessions.{filled}
use gddp_runtime.Heartbeat.Graph.{ProjectGraph, NodeData}
use gddp_runtime.Heartbeat.Store.{Db}
use gddp_runtime.Heartbeat.Chaining.Vouched.{
  IsVouched, IsMerged, filled-some, result_sessions-IsVouched, unvouched, merged_already_iff,
}

module _ {F : Type 0} where
  -- The only provisional dependency has a vouched commit, which is in the checkout.
  pub record IsChained (src : Sources F) (db : Db) (node : NodeData) (project_id : String)
      (p : ProjectGraph) (repo_path : Option String) (commit : String) : Type 0 where
    pub dep : String
    pub only : provisional_deps p.nodes node.depends_on ≡ dep ∷ []
    pub path : String
    pub checkout : repo_path ≡ some path
    pub exists : src.commit_exists path commit ≡ true
    pub vouched : IsVouched src db project_id dep commit

module _ {F : Type 0} (src : Sources F) (db : Db) (node : NodeData) (project_id : String)
    (p : ProjectGraph) (head repo_path : Option String) where
  -- The base that a node's attempt gets, or why the node is deferred.
  unfoldable pub IsBased : Result Deferral (Option String) → Type 0
  IsBased (ok base) =
      ((provisional_deps p.nodes node.depends_on ≡ []) × (base ≡ head))
      ⊎ ((commit : String) × (c : IsChained src db node project_id p repo_path commit) × ((IsMerged
                src head c.path commit
              × (base ≡ head))
            ⊎ ((IsMerged src head c.path commit → ⊥) × (base ≡ some commit))))
  IsBased (err (several_provisional deps)) =
      (provisional_deps p.nodes node.depends_on ≡ deps) × (2 ≤ length deps)
  IsBased (err (no_recorded_result dep)) =
      (provisional_deps p.nodes node.depends_on ≡ dep ∷ [])
      × (((commit : String) × IsVouched src db project_id dep commit) → ⊥)
  IsBased (err (no_checkout dep commit)) =
      (provisional_deps p.nodes node.depends_on ≡ dep ∷ [])
      × IsVouched src db project_id dep commit
      × (filled repo_path ≡ none)
  IsBased (err (commit_not_found dep commit)) =
      (provisional_deps p.nodes node.depends_on ≡ dep ∷ [])
      × IsVouched src db project_id dep commit
      × ((path : String) × (repo_path ≡ some path) × (src.commit_exists path commit ≡ false))

  chained_to-IsBased :
      (dep : String)
      → provisional_deps p.nodes node.depends_on ≡ dep ∷ []
      → (o : Option String)
      → first_vouched src db project_id dep (result_sessions db project_id dep) ≡ o
      → (path : Option String) → filled repo_path ≡ path
      → IsBased (chained_to src head path dep o)
  unfolding chained_to
  chained_to-IsBased dep d none v path f = unfold IsBased in (d, unvouched src db project_id dep v)
  chained_to-IsBased dep d (some c) v none f =
      unfold IsBased in (d, result_sessions-IsVouched src db project_id dep c v, f)
  chained_to-IsBased dep d (some c) v (some path) f =
      go (src.commit_exists path c) refl (merged_already src head path c) refl
    where
      merged :
          (k : IsChained src db node project_id p repo_path c)
          → k.path ≡ path
          → (m : Bool) → merged_already src head path c ≡ m
          → IsBased (ok (if m then head else some c))
      merged k s true g =
          unfold IsBased in
          inr (
            c,
            k,
            inl (
              (merged_already_iff src head k.path c).0
                  (ap (λ t. merged_already src head t c) s ∙ g),
              refl,
            ),
          )
      merged k s false g =
          unfold IsBased in
          inr (
            c,
            k,
            inr (
              λ q. absurd (
                  cc (
                    g,
                    ap (λ t. merged_already src head t c) (sym s)
                        ∙ (merged_already_iff src head k.path c).1 q,
                  )),
              refl,
            ),
          )

      go :
          (x : Bool)
          → src.commit_exists path c ≡ x
          → (m : Bool) → merged_already src head path c ≡ m
          → IsBased (guard x (commit_not_found dep c) >> ok (if m then head else some c))
      go false e m g =
          unfold IsBased in
          (
            d,
            result_sessions-IsVouched src db project_id dep c v,
            (path, filled-some repo_path path f, e),
          )
      go true e m g =
          let chained : IsChained src db node project_id p repo_path c = record {
            dep = dep;
            only = d;
            path = path;
            checkout = filled-some repo_path path f;
            exists = e;
            vouched = result_sessions-IsVouched src db project_id dep c v;
          } in
          merged chained refl m g

  -- A node without provisional dependencies builds on the head of the checkout. A node with one
  -- builds on the result commit of it, or on the head where the head has that commit among its
  -- ancestors: the commit is in the checkout, and an evaluated session of a job of the dependency
  -- recorded it, for which a stored receipt about that very attempt, commit and base admits it. In
  -- every other case the node is deferred: with several provisional dependencies, where no commit of
  -- the one is vouched for like that, where there is no checkout, and where the commit is not in it.
  pub chained_base-IsChained : IsBased (chained_base src db node project_id (some p) head repo_path)
  unfolding chained_base chained_on
  chained_base-IsChained = on (provisional_deps p.nodes node.depends_on) refl
    where
      on :
          (deps : List String)
          → provisional_deps p.nodes node.depends_on ≡ deps
          → IsBased (chained_on src db project_id head (filled repo_path) deps)
      on [] d = unfold IsBased in inl (d, refl)
      on (dep ∷ []) d =
          chained_to-IsBased dep d
            (first_vouched src db project_id dep (result_sessions db project_id dep)) refl
            (filled repo_path) refl
      on (dep ∷ more ∷ deps) d = unfold IsBased in (d, omega arith)
