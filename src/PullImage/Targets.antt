-- ===== src/PullImage/Targets.antt =====
-- prepullimage_controller.go: `getTargetNodes`, against the conditions of the nodes.
use kwarm.Base.{
  ◌≡◌, refl, ◌≢◌, ◌↔◌, ◌⊎◌, inl, inr, String, List, [], ◌∷◌, subst, Option, none, some, Elem,
  Option-cases, arith,
}
use kwarm.Kube.{Node, LabelSelector}
use kwarm.Api.{PrePullImage}
use kwarm.Cluster.{
  ok, Outcome-cases, all_nodes, matching_selector, NodeFilter, Sys, Client, Library,
}
use kwarm.Nodes.{ready_names}
use kwarm.Nodes.Ready.{IsTarget, ready_names-mem}
use kwarm.PullImage.Handlers.{get_target_nodes, select_nodes, list_ready}

cons-ne : {A : Type 0} (x : A) (xs ys : List A) → ys ≡ x ∷ xs → ys ≢ []
cons-ne x xs ys e q = cc

module _ {W : Type 0} (client : Client W) (lib : Library) where
  -- The nodes that the API server lists for a PrePullImage: all, or those that its selector matches.
  abbrev pub AreListed : PrePullImage → W → List Node → Type 0
  AreListed ppi w nodes = elim ppi.spec.nodes.selector [
    | none ↦ (client.list_nodes all_nodes w).0 ≡ ok nodes
    | some selector ↦
        (lib.selector_error selector ≡ none)
        × ((client.list_nodes (matching_selector selector) w).0 ≡ ok nodes)
  ]

  listed_targets :
      (filter : NodeFilter) (s : Sys W) (names : List String)
      → (list_ready client lib filter s).0 ≡ ok names
      → (nodes : List Node) × ((client.list_nodes filter s.world).0 ≡ ok nodes)
        × ((name : String) → Elem name names ↔ IsTarget name nodes)
  unfolding list_ready
  listed_targets filter s names h = elim (Outcome-cases (client.list_nodes filter s.world).0) [
    | inl (nodes, e) ↦
        let same : ready_names nodes ≡ names = ground (arith, e, h) in
        (
          nodes,
          e,
          λ name.
              subst (λ ns. Elem name ns ↔ IsTarget name nodes) same (ready_names-mem name nodes),
        )
    | inr (x, e) ↦ ground (arith, e, h)
  ]

  selected_targets :
      (ppi : PrePullImage) (s : Sys W) (names : List String) (o : Option LabelSelector)
      → ppi.spec.nodes.selector ≡ o
      → (select_nodes client lib ppi s).0 ≡ ok names
      → (nodes : List Node) × AreListed ppi s.world nodes
        × ((name : String) → Elem name names ↔ IsTarget name nodes)
  unfolding select_nodes
  selected_targets ppi s names none p h =
      rw p (listed_targets all_nodes s names (ground (arith, p, h)))
  selected_targets ppi s names (some selector) p h =
      elim (Option-cases (lib.selector_error selector)) [
        | inl e ↦
            let (nodes, l, t) =
              listed_targets (matching_selector selector) s names (ground (arith, p, e, h)) in
            (nodes, rw p (e, l), t)
        | inr (x, e) ↦ ground (arith, p, e, h)
      ]

  -- The targets of a PrePullImage, where `getTargetNodes` gives any: the nodes that it names if it names
  -- any, and otherwise exactly those of the listed nodes whose first `Ready` condition is `True` and
  -- that are not marked unschedulable. All nodes are listed, or those that match its selector, which
  -- has no error then.
  pub get_target_nodes-targets :
      (ppi : PrePullImage) (s : Sys W) (names : List String)
      → (get_target_nodes client lib ppi s).0 ≡ ok names
      → ((ppi.spec.nodes.names ≢ []) × (names ≡ ppi.spec.nodes.names))
        ⊎ ((ppi.spec.nodes.names ≡ [])
            × (nodes : List Node) × AreListed ppi s.world nodes
            × ((name : String) → Elem name names ↔ IsTarget name nodes))
  unfolding get_target_nodes
  get_target_nodes-targets ppi s names h = given ppi.spec.nodes.names refl
    where
      given :
          (ns : List String)
          → ppi.spec.nodes.names ≡ ns
          → ((ppi.spec.nodes.names ≢ []) × (names ≡ ppi.spec.nodes.names))
            ⊎ ((ppi.spec.nodes.names ≡ [])
                × (nodes : List Node) × AreListed ppi s.world nodes
                × ((name : String) → Elem name names ↔ IsTarget name nodes))
      given [] e =
          let (nodes, l, t) =
            selected_targets ppi s names ppi.spec.nodes.selector refl (ground (arith, e, h)) in
          inr (e, nodes, l, t)
      given (n ∷ ns) e = inl (cons-ne n ns _ e, ground (arith, e, h))
