-- ===== src/Nodes/Ready.antt =====
-- Which nodes are targets.
use text.Mathlib.TextEquality.{eq_iff}
use kwarm.Base.{
  ◌≡◌, ◌≢◌, refl, sym, false≢true, Bool-cases, str_eq, All, ◌++◌, ap, ◌↔◌, inl, inr, true, false,
  not, ◌&&◌, String, List, [], ◌∷◌, Elem, Elem-if, Elem-if_later, ◌∙◌, arith,
}
use kwarm.Kube.{Node, NodeCondition}
use kwarm.Nodes.{first_ready, is_node_ready, ready_names}

-- The first condition of the kind `Ready` has the status `True`.
abbrev pub IsReady : List NodeCondition → Type 0
IsReady conditions =
    (before after : List NodeCondition) × (c : NodeCondition) × (conditions ≡ before ++ (c ∷ after))
    × All (λ (b : NodeCondition). b.kind ≢ "Ready") before
    × (c.kind ≡ "Ready")
    × (c.status ≡ "True")

-- A node of the list that is ready and not marked unschedulable has the name.
abbrev pub IsTarget : String → List Node → Type 0
IsTarget name nodes =
    (node : Node) × Elem node nodes
    × (node.name ≡ name)
    × IsReady node.conditions
    × (node.unschedulable ≡ false)

first_ready-append :
    (before after : List NodeCondition) (c : NodeCondition)
    → All (λ (b : NodeCondition). b.kind ≢ "Ready") before
    → c.kind ≡ "Ready"
    → c.status ≡ "True"
    → first_ready (before ++ (c ∷ after)) ≡ true
unfolding first_ready
first_ready-append [] after c h k s = ground (arith, eq_iff c.kind "Ready", eq_iff c.status "True")
first_ready-append (b ∷ before) after c h k s =
    ground (arith, h.0, eq_iff b.kind "Ready", first_ready-append before after c h.1 k s)

first_ready-IsReady :
    (conditions : List NodeCondition) → first_ready conditions ≡ true → IsReady conditions
unfolding first_ready
first_ready-IsReady [] h = absurd (false≢true h)
first_ready-IsReady (c ∷ cs) h = elim (Bool-cases (str_eq c.kind "Ready")) [
  | inl e ↦ (
    [],
    cs,
    c,
    refl,
    tt,
    ground (arith, e, eq_iff c.kind "Ready"),
    ground (arith, e, h, eq_iff c.status "True"),
  )
  | inr ne ↦
      let (before, after, d, p, all, k, s) = first_ready-IsReady cs (ground (arith, ne, h)) in
      (
        c ∷ before,
        after,
        d,
        ap (◌∷◌ c) p,
        (λ e. false≢true (sym ne ∙ (eq_iff c.kind "Ready").1 e), all),
        k,
        s,
      )
]

to : (name : String) (nodes : List Node) → Elem name (ready_names nodes) → IsTarget name nodes
unfolding ready_names is_node_ready
to name [] e = absurd e
to name (node ∷ nodes) e =
    elim (Elem-if (is_node_ready node && not node.unschedulable) name node.name (ready_names nodes)
      e) [
        | inl (ready, p) ↦ (
          node,
          inl refl,
          p,
          first_ready-IsReady node.conditions (ground (arith, ready)),
          ground (arith, ready),
        )
        | inr later ↦ let t = to name nodes later in (t.0, inr t.1, t.2, t.3, t.4)
      ]

is_node_ready-IsReady : (node : Node) → IsReady node.conditions → is_node_ready node ≡ true
unfolding is_node_ready
is_node_ready-IsReady node (before, after, c, p, all, k, s) =
    ap first_ready p ∙ first_ready-append before after c all k s

from :
    (name : String) (nodes : List Node) (node : Node)
    → Elem node nodes
    → node.name ≡ name
    → IsReady node.conditions
    → node.unschedulable ≡ false
    → Elem name (ready_names nodes)
unfolding ready_names
from name [] node e p r u = absurd e
from name (n ∷ nodes) node (inr e) p r u =
    Elem-if_later (is_node_ready n && not n.unschedulable) name n.name _
      (from name nodes node e p r u)
from name (n ∷ nodes) node (inl e) p r u =
    rw (ap is_node_ready e ∙ is_node_ready-IsReady node r, ap (λ (x : Node). x.unschedulable) e ∙ u)
      (inl (ap (λ (x : Node). x.name) e ∙ p))

-- The names that the loop keeps are exactly those of the targets.
pub ready_names-mem :
    (name : String) (nodes : List Node) → Elem name (ready_names nodes) ↔ IsTarget name nodes
ready_names-mem name nodes = (to name nodes, λ t. from name nodes t.0 t.1 t.2 t.3 t.4)
