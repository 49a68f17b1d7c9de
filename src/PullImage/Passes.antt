-- ===== src/PullImage/Passes.antt =====
-- prepullimage_controller.go: the passes of `handleInProgress` over one resource, from the status that
-- `handlePending` makes. Before each pass the system is any: other resources are reconciled, jobs end.
use kwarm.Base.{ℕ, ◌+◌, ◌^◌, ◌≤◌, ◌<◌, ◌≡◌, refl, ◌⊎◌, inl, inr, ◌∙◌, String, List, [], ◌∷◌, arith}
use kwarm.Api.{PrePullImage, NodeStatus, NodePullStatus}
use kwarm.Cluster.{Sys, Client, Library}
use kwarm.PullImage.Census.{is_failed}
use kwarm.PullImage.Handlers.{with_status, advance, fresh_nodes, initial_status, set_condition}
use kwarm.PullImage.Steps.{
  NodeStep, StepAll, History, fresh, pass, stay, start, finish, retry, fail, starts,
  advance-StepAll, attempts_bounded, failed_after_all,
}

-- For each node, the pulls started on it so far and in this pass.
unfoldable pub add_starts : List NodeStatus → List NodeStatus → List ℕ → List ℕ
add_starts (n ∷ ns) (m ∷ ms) (c ∷ cs) = (c + starts n.status m.status) ∷ add_starts ns ms cs
add_starts _ _ cs = cs

unfoldable pub zeros : List String → List ℕ
zeros [] = []
zeros (name ∷ names) = 0 ∷ zeros names

-- The nodes keep their names, and no retry count exceeds `max`, no number of pulls `max + 1`.
abbrev pub IsBounded : ℕ → List String → List NodeStatus → List ℕ → Type 0
IsBounded max [] [] [] = Unit
IsBounded max (name ∷ names) (n ∷ ns) (c ∷ cs) =
    (n.node ≡ name) × (n.retry_count ≤ max) × (c ≤ max + 1) × IsBounded max names ns cs
IsBounded max _ _ _ = ⊥

-- On each failed node `max + 1` pulls were started.
abbrev pub IsExhausted : ℕ → List NodeStatus → List ℕ → Type 0
IsExhausted max [] [] = Unit
IsExhausted max (n ∷ ns) (c ∷ cs) =
    ((is_failed n.status ≡ 0) ⊎ (c ≡ max + 1)) × IsExhausted max ns cs
IsExhausted max _ _ = ⊥

abbrev HistoryAll : ℕ → List String → List NodeStatus → List ℕ → Type 0
HistoryAll max [] [] [] = Unit
HistoryAll max (name ∷ names) (n ∷ ns) (c ∷ cs) = History max name n c × HistoryAll max names ns cs
HistoryAll max _ _ _ = ⊥

fresh-HistoryAll :
    (max : ℕ) (names : List String) → HistoryAll max names (fresh_nodes names) (zeros names)
unfolding fresh_nodes zeros
fresh-HistoryAll max [] = tt
fresh-HistoryAll max (name ∷ names) = (fresh, fresh-HistoryAll max names)

StepAll-HistoryAll :
    (max : ℕ) (names : List String) (ns ms : List NodeStatus) (cs : List ℕ)
    → HistoryAll max names ns cs
    → StepAll max ns ms
    → HistoryAll max names ms (add_starts ns ms cs)
unfolding add_starts
StepAll-HistoryAll max [] [] [] [] h st = tt
StepAll-HistoryAll max (name ∷ names) (n ∷ ns) (m ∷ ms) (c ∷ cs) h st =
    (pass h.0 st.0 refl, StepAll-HistoryAll max names ns ms cs h.1 st.1)
StepAll-HistoryAll max _ _ _ _ h st = search

NodeStep-node : {max : ℕ} {n m : NodeStatus} → NodeStep max n m → m.node ≡ n.node
NodeStep-node (stay e) = ground arith
NodeStep-node (start a b e f) = e
NodeStep-node (finish a b e f) = e
NodeStep-node (retry a b e f g) = e
NodeStep-node (fail a b e f g) = e

History-node :
    {max : ℕ} {name : String} {c : ℕ} {n : NodeStatus} → History max name n c → n.node ≡ name
History-node fresh = refl
History-node (pass h st e) = NodeStep-node st ∙ History-node h

HistoryAll-IsBounded :
    (max : ℕ) (names : List String) (ns : List NodeStatus) (cs : List ℕ)
    → max < 2 ^ 31
    → HistoryAll max names ns cs
    → IsBounded max names ns cs
HistoryAll-IsBounded max [] [] [] small h = tt
HistoryAll-IsBounded max [] [] (c ∷ cs) small h = elim h [ ]
HistoryAll-IsBounded max [] (n ∷ ns) cs small h = elim h [ ]
HistoryAll-IsBounded max (name ∷ names) [] cs small h = elim h [ ]
HistoryAll-IsBounded max (name ∷ names) (n ∷ ns) [] small h = elim h [ ]
HistoryAll-IsBounded max (name ∷ names) (n ∷ ns) (c ∷ cs) small h =
    let now = attempts_bounded small h.0 in
    (History-node h.0, now.0, now.1, HistoryAll-IsBounded max names ns cs small h.1)

exhausted :
    {max c : ℕ} {name : String} {n : NodeStatus} (st : NodePullStatus)
    → n.status ≡ st
    → max < 2 ^ 31
    → History max name n c
    → (is_failed n.status ≡ 0) ⊎ (c ≡ max + 1)
exhausted NodePullStatus.failed e small h = inr (failed_after_all small h e).1
exhausted _ e small h = inl (ground arith)

HistoryAll-IsExhausted :
    (max : ℕ) (names : List String) (ns : List NodeStatus) (cs : List ℕ)
    → max < 2 ^ 31
    → HistoryAll max names ns cs
    → IsExhausted max ns cs
HistoryAll-IsExhausted max [] [] [] small h = tt
HistoryAll-IsExhausted max [] [] (c ∷ cs) small h = elim h [ ]
HistoryAll-IsExhausted max [] (n ∷ ns) cs small h = elim h [ ]
HistoryAll-IsExhausted max (name ∷ names) [] cs small h = elim h [ ]
HistoryAll-IsExhausted max (name ∷ names) (n ∷ ns) [] small h = elim h [ ]
HistoryAll-IsExhausted max (name ∷ names) (n ∷ ns) (c ∷ cs) small h =
    (exhausted n.status refl small h.0, HistoryAll-IsExhausted max names ns cs small h.1)

module _ {W : Type 0} (client : Client W) (lib : Library) where
  -- A pass for each of the systems, with the pulls started on each node.
  unfoldable pub passes : PrePullImage → List ℕ → List (Sys W) → List NodeStatus × List ℕ
  passes ppi cs [] = (ppi.status.node_status, cs)
  passes ppi cs (s ∷ ss) =
      let st = (advance client lib ppi s).0.0 in
      passes (with_status ppi st) (add_starts ppi.status.node_status st.node_status cs) ss

  -- The passes over the status that `handlePending` makes for the nodes of these names.
  abbrev pub passes_from :
      PrePullImage → List String → Sys W → List (Sys W) → List NodeStatus × List ℕ
  passes_from ppi names s ss =
      passes (with_status ppi (initial_status client lib ppi names s).0) (zeros names) ss

  passes-HistoryAll :
      (ppi : PrePullImage) (names : List String) (cs : List ℕ) (ss : List (Sys W))
      → HistoryAll ppi.spec.retry.max_attempts names ppi.status.node_status cs
      → let r = passes ppi cs ss in HistoryAll ppi.spec.retry.max_attempts names r.0 r.1
  unfolding passes
  passes-HistoryAll ppi names cs [] h = h
  passes-HistoryAll ppi names cs (s ∷ ss) h =
      passes-HistoryAll (with_status ppi (advance client lib ppi s).0.0) names _ ss (
        StepAll-HistoryAll ppi.spec.retry.max_attempts names ppi.status.node_status _ cs h
          (advance-StepAll client lib ppi s))

  from-HistoryAll :
      (ppi : PrePullImage) (names : List String) (s : Sys W) (ss : List (Sys W))
      → let r = passes_from ppi names s ss in HistoryAll ppi.spec.retry.max_attempts names r.0 r.1
  unfolding initial_status set_condition
  from-HistoryAll ppi names s ss =
      passes-HistoryAll _ names (zeros names) ss
        (fresh-HistoryAll ppi.spec.retry.max_attempts names)

  -- From the status that `handlePending` makes, over any number of passes, each in any state of the
  -- system, with one `maxAttempts` that is not negative: the nodes stay the target nodes in their
  -- order, no retry count exceeds `maxAttempts`, and at most `maxAttempts + 1` pulls are started on
  -- each node.
  pub passes-IsBounded :
      (ppi : PrePullImage) (names : List String) (s : Sys W) (ss : List (Sys W))
      → ppi.spec.retry.max_attempts < 2 ^ 31
      → let r = passes_from ppi names s ss in IsBounded ppi.spec.retry.max_attempts names r.0 r.1
  passes-IsBounded ppi names s ss small =
      HistoryAll-IsBounded ppi.spec.retry.max_attempts names _ _ small
        (from-HistoryAll ppi names s ss)

  -- From the status that `handlePending` makes, over any number of passes, each in any state of the
  -- system, with one `maxAttempts` that is not negative, a node is given up only after its retries are
  -- used up: on each failed node exactly `maxAttempts + 1` pulls were started.
  pub passes-IsExhausted :
      (ppi : PrePullImage) (names : List String) (s : Sys W) (ss : List (Sys W))
      → ppi.spec.retry.max_attempts < 2 ^ 31
      → let r = passes_from ppi names s ss in IsExhausted ppi.spec.retry.max_attempts r.0 r.1
  passes-IsExhausted ppi names s ss small =
      HistoryAll-IsExhausted ppi.spec.retry.max_attempts names _ _ small
        (from-HistoryAll ppi names s ss)
