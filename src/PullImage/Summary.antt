-- ===== src/PullImage/Summary.antt =====
-- The counters of `handleInProgress` describe the statuses that it stores.
use kwarm.Base.{suc, ◌+◌, ◌%◌, ◌^◌, ◌≤◌, ◌<◌, ◌≡◌, refl, ap, ap₂, ◌∙◌, List, [], ◌∷◌, length, arith}
use kwarm.Api.{PrePullImage, PrePullImageStatus, NodeStatus, NodePullStatus}
use kwarm.Cluster.{Sys, Client, Library}
use kwarm.PullImage.Handlers.{advance, settle, set_condition, no_tally, summary_of}
use kwarm.PullImage.Census.{is_pending, is_pulling, is_completed, is_failed, phase_for, tally}
use kwarm.PullImage.Node.{
  Tally, visit, visit_all, visit_pending, visit_pulling, start_pull_job, check_job_status, judge,
}

-- The tally has counted this status, each counter modulo 2 ^ 32.
record Counted (st : NodePullStatus) (t t' : Tally) : Type 0 where
  pending : t'.pending ≡ (t.pending + is_pending st) % 2 ^ 32
  pulling : t'.pulling ≡ (t.pulling + is_pulling st) % 2 ^ 32
  completed : t'.completed ≡ (t.completed + is_completed st) % 2 ^ 32
  failed : t'.failed ≡ (t.failed + is_failed st) % 2 ^ 32

record IsSmall (t : Tally) : Type 0 where
  pending_lt : t.pending < 2 ^ 32
  pulling_lt : t.pulling < 2 ^ 32
  completed_lt : t.completed < 2 ^ 32
  failed_lt : t.failed < 2 ^ 32

-- The same over a list of statuses.
record CountedAll (nodes : List NodeStatus) (t t' : Tally) : Type 0 where
  pending : t'.pending ≡ (t.pending + tally is_pending nodes) % 2 ^ 32
  pulling : t'.pulling ≡ (t.pulling + tally is_pulling nodes) % 2 ^ 32
  completed : t'.completed ≡ (t.completed + tally is_completed nodes) % 2 ^ 32
  failed : t'.failed ≡ (t.failed + tally is_failed nodes) % 2 ^ 32

Counted-IsSmall : {st : NodePullStatus} {t t' : Tally} → Counted st t t' → IsSmall t'
Counted-IsSmall h = omega arith

CountedAll-cons :
    (ns : NodeStatus) (rest : List NodeStatus) (t t' t'' : Tally)
    → Counted ns.status t t'
    → CountedAll rest t' t''
    → CountedAll (ns ∷ rest) t t''
unfolding tally
CountedAll-cons ns rest t t' t'' h k = omega arith

module _ {W : Type 0} (client : Client W) (lib : Library) where
  visit-Counted :
      (ppi : PrePullImage) (ns : NodeStatus) (t : Tally) (s : Sys W) (st : NodePullStatus)
      → IsSmall t
      → ns.status ≡ st
      → Counted (visit client lib ppi ns t s).0.0.status t (visit client lib ppi ns t s).0.1
  unfolding visit visit_pending visit_pulling start_pull_job check_job_status judge
  visit-Counted ppi ns t s NodePullStatus.pending h e = ground arith
  visit-Counted ppi ns t s NodePullStatus.pulling h e = ground arith
  visit-Counted ppi ns t s _ h e = ground arith

  visit_all-Counted :
      (ppi : PrePullImage) (nodes : List NodeStatus) (t : Tally) (s : Sys W)
      → IsSmall t
      → CountedAll
          (visit_all client lib ppi nodes t s).0.0
          t
          (visit_all client lib ppi nodes t s).0.1
  unfolding visit_all tally
  visit_all-Counted ppi [] t s h = omega arith
  visit_all-Counted ppi (ns ∷ rest) t s h =
      let r = visit client lib ppi ns t s in
      let counted : Counted r.0.0.status t r.0.1 = visit-Counted ppi ns t s ns.status h refl in
      CountedAll-cons r.0.0 (visit_all client lib ppi rest r.0.1 r.1).0.0 t r.0.1
        (visit_all client lib ppi rest r.0.1 r.1).0.1 counted
        (visit_all-Counted ppi rest r.0.1 r.1 (Counted-IsSmall counted))

  length-visit_all :
      (ppi : PrePullImage) (nodes : List NodeStatus) (t : Tally) (s : Sys W)
      → length (visit_all client lib ppi nodes t s).0.0 ≡ length nodes
  unfolding visit_all
  length-visit_all ppi [] t s = refl
  length-visit_all ppi (ns ∷ rest) t s = ap suc (length-visit_all ppi rest _ _)

  settle_keeps :
      (ppi : PrePullImage) (st : PrePullImageStatus) (s : Sys W)
      → ((settle client lib ppi st s).0.node_status ≡ st.node_status)
        × ((settle client lib ppi st s).0.summary ≡ st.summary)
  unfolding settle set_condition
  settle_keeps ppi st s = ground arith

  pub advance_nodes :
      (ppi : PrePullImage) (s : Sys W)
      → (advance client lib ppi s).0.0.node_status
        ≡ (visit_all client lib ppi ppi.status.node_status no_tally s).0.0
  unfolding advance
  advance_nodes ppi s = (settle_keeps ppi _ _).0

  advance_counts :
      (ppi : PrePullImage) (s : Sys W)
      → let r = visit_all client lib ppi ppi.status.node_status no_tally s in
        (advance client lib ppi s).0.0.summary ≡ summary_of r.0.0 r.0.1
  unfolding advance
  advance_counts ppi s = (settle_keeps ppi _ _).1

  -- The summary that `handleInProgress` stores counts the node statuses that it stores, each number
  -- as an int32: the nodes in all, and those that are pending, pulling, completed and failed.
  pub advance_summary :
      (ppi : PrePullImage) (s : Sys W)
      → let st = (advance client lib ppi s).0.0 in
        (st.summary.total ≡ length st.node_status % 2 ^ 32)
        × (st.summary.pending ≡ tally is_pending st.node_status % 2 ^ 32)
        × (st.summary.pulling ≡ tally is_pulling st.node_status % 2 ^ 32)
        × (st.summary.completed ≡ tally is_completed st.node_status % 2 ^ 32)
        × (st.summary.failed ≡ tally is_failed st.node_status % 2 ^ 32)
        × (length st.node_status ≡ length ppi.status.node_status)
  advance_summary ppi s =
      rw (advance_nodes ppi s, advance_counts ppi s)
        (omega (
          arith,
          visit_all-Counted ppi ppi.status.node_status no_tally s (omega arith),
          length-visit_all ppi ppi.status.node_status no_tally s,
        ))

  settle_phase :
      (ppi : PrePullImage) (st : PrePullImageStatus) (s : Sys W)
      → st.summary.failed < 2 ^ 31
      → (settle client lib ppi st s).0.phase
        ≡ phase_for st.phase (st.summary.pending + st.summary.pulling) st.summary.failed
  unfolding settle set_condition phase_for
  settle_phase ppi st s h = ground arith

  advance_settles :
      (ppi : PrePullImage) (s : Sys W)
      → let t = (visit_all client lib ppi ppi.status.node_status no_tally s).0.1 in
        t.failed < 2 ^ 31
        → (advance client lib ppi s).0.0.phase
          ≡ phase_for ppi.status.phase (t.pending + t.pulling) t.failed
  unfolding advance
  advance_settles ppi s h = settle_phase ppi _ _ h

  tally_bound :
      (nodes : List NodeStatus)
      → tally is_pending nodes + tally is_pulling nodes + tally is_failed nodes ≤ length nodes
  unfolding tally
  tally_bound [] = omega arith
  tally_bound (ns ∷ rest) = ground (arith, tally_bound rest)

  -- With fewer than 2 ^ 31 nodes, the phase that `handleInProgress` stores is the one that the node
  -- statuses it stores ask for: the old phase while a node is pending or pulling, and otherwise
  -- `Failed` if a node has failed and `Completed` if none has.
  pub advance_phase :
      (ppi : PrePullImage) (s : Sys W)
      → length ppi.status.node_status < 2 ^ 31
      → let st = (advance client lib ppi s).0.0 in
        st.phase
        ≡ phase_for ppi.status.phase
            (tally is_pending st.node_status + tally is_pulling st.node_status)
            (tally is_failed st.node_status)
  advance_phase ppi s h = rw (advance_nodes ppi s) (
      advance_settles ppi s (omega (arith, counted, few, same))
      ∙ ap₂ (phase_for ppi.status.phase) (omega (arith, counted, few, same))
          (omega (arith, counted, few, same)))
    where
      nodes : List NodeStatus
      nodes = (visit_all client lib ppi ppi.status.node_status no_tally s).0.0

      counted :
          CountedAll nodes no_tally (visit_all client lib ppi ppi.status.node_status no_tally s).0.1
      counted = visit_all-Counted ppi ppi.status.node_status no_tally s (omega arith)

      few : tally is_pending nodes + tally is_pulling nodes + tally is_failed nodes ≤ length nodes
      few = tally_bound nodes

      same : length nodes ≡ length ppi.status.node_status
      same = length-visit_all ppi ppi.status.node_status no_tally s
