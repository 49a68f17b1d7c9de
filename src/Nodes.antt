-- ===== src/Nodes.antt =====
-- `isNodeReady`, and the loops that keep the names of the nodes that can run a pod.
pub mod Ready
use kwarm.Base.{Bool, true, false, not, ◌&&◌, String, List, [], ◌∷◌, str_eq, if◌then◌else◌}
use kwarm.Kube.{Node, NodeCondition}

unfoldable first_ready : List NodeCondition → Bool
first_ready [] = false
first_ready (c ∷ cs) = if str_eq c.kind "Ready" then str_eq c.status "True" else first_ready cs

unfoldable pub is_node_ready : Node → Bool
unfolding first_ready
is_node_ready node = first_ready node.conditions

unfoldable pub ready_names : List Node → List String
ready_names [] = []
ready_names (node ∷ nodes) =
    let rest = ready_names nodes in
    if is_node_ready node && not node.unschedulable then node.name ∷ rest else rest
