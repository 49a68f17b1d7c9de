-- ===== src/Policy/Count.antt =====
-- What the count of a policy counts, and how it agrees with the deployment controller.
use text.Mathlib.TextEquality.{eq_iff}
use kwarm.Base.{
  ℕ, ◌+◌, ◌*◌, ◌≡◌, refl, sym, ap, fun_ext, ◌∙◌, ◌↔◌, inl, inr, Bool, true, false, false≢true, ◌&&◌,
  ◌||◌, Bool-cases, String, List, [], ◌∷◌, Option, none, some, Elem, str_eq, if◌then◌else◌, count_p,
  arith,
}
use kwarm.Kube.{Deployment}
use kwarm.Api.{PolicySelector, PrePullPolicy}
use kwarm.Cluster.{Outcome, ok, Sys, Client, Library}
use kwarm.Deploy.Match.{is_empty, contains, deployment_matches_selector, deployment_matches_policy}
use kwarm.Policy.{scope, count_from, count_matching_deployments}

contains_iff :
    (namespaces : List String) (ns : String) → (contains namespaces ns ≡ true) ↔ Elem ns namespaces
unfolding contains
contains_iff namespaces ns = (to namespaces, from namespaces)
  where
    to : (l : List String) → contains l ns ≡ true → Elem ns l
    to [] h = absurd (false≢true h)
    to (n ∷ l) h = elim (Bool-cases (str_eq n ns)) [
      | inl e ↦ inl ((eq_iff n ns).0 e)
      | inr e ↦ inr (to l (ground arith))
    ]

    from : (l : List String) → Elem ns l → contains l ns ≡ true
    from [] e = absurd e
    from (n ∷ l) (inl e) = ground (arith, eq_iff n ns)
    from (n ∷ l) (inr e) = ground (arith, from l e)

-- The deployment controller selects a deployment exactly when its namespace is listed or none is,
-- and the policy controller's test of the labels holds.
pub matches_policy-selector :
    (lib : Library) (d : Deployment) (policy : PrePullPolicy)
    → deployment_matches_policy lib d policy ≡ (
        (is_empty policy.spec.selector.namespaces
          || contains policy.spec.selector.namespaces d.meta.namespace)
        && deployment_matches_selector lib d policy.spec.selector)
unfolding deployment_matches_policy deployment_matches_selector
matches_policy-selector lib d policy = ground arith

-- A listing of one namespace, or of all.
unfoldable pub restrict : Option String → List Deployment → List Deployment
restrict none ds = ds
restrict (some ns) [] = []
restrict (some ns) (d ∷ ds) =
    let rest = restrict (some ns) ds in if str_eq d.meta.namespace ns then d ∷ rest else rest

-- No namespace is listed twice, and none is the empty text.
abbrev pub IsProper : List String → Type 0
IsProper [] = Unit
IsProper (ns ∷ rest) = (str_eq ns "" ≡ false) × (contains rest ns ≡ false) × IsProper rest

-- None is the empty text.
abbrev IsNamed : List String → Type 0
IsNamed [] = Unit
IsNamed (ns ∷ rest) = (str_eq ns "" ≡ false) × IsNamed rest

IsProper-IsNamed : (namespaces : List String) → IsProper namespaces → IsNamed namespaces
IsProper-IsNamed [] h = tt
IsProper-IsNamed (ns ∷ rest) h = (h.0, IsProper-IsNamed rest h.2)

count_restrict :
    (f : Deployment → Bool) (ns : String) (ds : List Deployment)
    → count_p f (restrict (some ns) ds) ≡ count_p (λ d. str_eq d.meta.namespace ns && f d) ds
unfolding count_p restrict
count_restrict f ns [] = refl
count_restrict f ns (d ∷ ds) = ground (arith, count_restrict f ns ds)

-- A deployment is counted for the first namespace or for the others, and not for both.
count_split :
    (f : Deployment → Bool) (ns : String) (rest : List String) (ds : List Deployment)
    → contains rest ns ≡ false
    → count_p (λ d. contains (ns ∷ rest) d.meta.namespace && f d) ds
      ≡ count_p (λ d. str_eq d.meta.namespace ns && f d) ds
        + count_p (λ d. contains rest d.meta.namespace && f d) ds
unfolding count_p contains
count_split f ns rest [] h = refl
count_split f ns rest (d ∷ ds) h =
    ground
      (arith, eq_iff ns d.meta.namespace, eq_iff d.meta.namespace ns, count_split f ns rest ds h)

-- The count over the namespaces, one after the other.
sum_over : (Deployment → Bool) → List String → List Deployment → ℕ
sum_over f [] ds = 0
sum_over f (ns ∷ rest) ds = count_p f (restrict (some ns) ds) + sum_over f rest ds

count_none :
    (f : Deployment → Bool) (ds : List Deployment)
    → count_p (λ d. contains [] d.meta.namespace && f d) ds ≡ 0
unfolding count_p contains
count_none f [] = refl
count_none f (d ∷ ds) = count_none f ds

sum_over-contains :
    (f : Deployment → Bool) (namespaces : List String) (ds : List Deployment)
    → IsProper namespaces
    → sum_over f namespaces ds ≡ count_p (λ d. contains namespaces d.meta.namespace && f d) ds
unfolding sum_over
sum_over-contains f [] ds h = sym (count_none f ds)
sum_over-contains f (ns ∷ rest) ds h =
    omega
      (arith, count_restrict f ns ds, count_split f ns rest ds h.1, sum_over-contains f rest ds h.2)

module _ {W : Type 0} (client : Client W) (lib : Library) where
  count_from_step :
      (selector : PolicySelector) (ns : String) (rest : List String) (count : ℕ)
      (ds : List Deployment) (s : Sys W)
      → (client.list_deployments (scope ns) s.world).0 ≡ ok ds
      → count_from client lib selector (ns ∷ rest) count s
        ≡ count_from client lib selector rest
            (count + count_p (λ d. deployment_matches_selector lib d selector) ds)
            (record s { world = (client.list_deployments (scope ns) s.world).1 })
  unfolding count_from
  count_from_step selector ns rest count ds s e = ground arith

  scope_named : (ns : String) → str_eq ns "" ≡ false → scope ns ≡ some ns
  scope_named ns h = ground arith

  count_from-sum :
      (selector : PolicySelector) (namespaces : List String) (count : ℕ) (all : List Deployment)
      (s : Sys W)
      → ((at : Option String) (w : W) → (client.list_deployments at w).0 ≡ ok (restrict at all))
      → IsNamed namespaces
      → (count_from client lib selector namespaces count s).0
        ≡ ok (count + sum_over (λ d. deployment_matches_selector lib d selector) namespaces all)
  unfolding count_from sum_over
  count_from-sum selector [] count all s served h = ap ok (omega arith)
  count_from-sum selector (ns ∷ rest) count all s served h =
      ap (λ (r : Outcome ℕ × Sys W). r.0)
        (count_from_step selector ns rest count (restrict (some ns) all) s (
          ap (λ at. (client.list_deployments at s.world).0) (scope_named ns h.0)
          ∙ served (some ns) s.world))
      ∙ count_from-sum selector rest _ all _ served h.1
      ∙ ap ok (omega arith)

  count_all :
      (selector : PolicySelector) (all : List Deployment) (s : Sys W)
      → ((at : Option String) (w : W) → (client.list_deployments at w).0 ≡ ok (restrict at all))
      → (count_from client lib selector ("" ∷ []) 0 s).0
        ≡ ok (count_p (λ d. deployment_matches_selector lib d selector) all)
  unfolding restrict
  count_all selector all s served =
      ap (λ (r : Outcome ℕ × Sys W). r.0)
        (count_from_step selector "" [] 0 all s (served none s.world))
      ∙ (unfold count_from in ap ok (omega arith))

  count_searched :
      (selector : PolicySelector) (namespaces : List String) (all : List Deployment) (s : Sys W)
      → ((at : Option String) (w : W) → (client.list_deployments at w).0 ≡ ok (restrict at all))
      → IsProper namespaces
      → (count_from client lib selector (if is_empty namespaces then "" ∷ [] else namespaces) 0 s).0
        ≡ ok (
            count_p
              (λ d.
                (is_empty namespaces || contains namespaces d.meta.namespace)
                && deployment_matches_selector lib d selector)
              all)
  count_searched selector [] all s served h = count_all selector all s served
  count_searched selector (ns ∷ rest) all s served h =
      count_from-sum selector (ns ∷ rest) 0 all s served (IsProper-IsNamed (ns ∷ rest) h)
      ∙ ap ok (add_zero _ ∙ sum_over-contains _ (ns ∷ rest) all h)
    where
      add_zero : (n : ℕ) → 0 + n ≡ n
      add_zero n = omega arith

  -- Where a listing of one namespace gives its deployments and a listing of all gives all, and the
  -- policy lists no namespace twice and no empty one, the count succeeds with the number of the
  -- deployments of the cluster that the deployment controller would match with this policy.
  pub count_matching_deployments-count :
      (policy : PrePullPolicy) (all : List Deployment) (s : Sys W)
      → ((at : Option String) (w : W) → (client.list_deployments at w).0 ≡ ok (restrict at all))
      → IsProper policy.spec.selector.namespaces
      → (count_matching_deployments client lib policy s).0
        ≡ ok (count_p (λ d. deployment_matches_policy lib d policy) all)
  unfolding count_matching_deployments
  count_matching_deployments-count policy all s served h =
      count_searched policy.spec.selector policy.spec.selector.namespaces all s served h
      ∙ ap (λ (f : Deployment → Bool). ok (count_p f all))
          (sym (fun_ext (λ d. matches_policy-selector lib d policy)))

  named_match :
      (policy : PrePullPolicy) (ns : String) (d : Deployment)
      → policy.spec.selector.namespaces ≡ ns ∷ (ns ∷ [])
      → (str_eq d.meta.namespace ns && deployment_matches_selector lib d policy.spec.selector)
        ≡ deployment_matches_policy lib d policy
  unfolding contains
  named_match policy ns d e =
      rw (matches_policy-selector lib d policy, e)
        (ground (arith, eq_iff ns d.meta.namespace, eq_iff d.meta.namespace ns))

  -- Where a listing of one namespace gives its deployments, a policy that lists one named namespace
  -- twice, and no other, has each matching deployment counted twice.
  pub namespace_counted_twice :
      (policy : PrePullPolicy) (ns : String) (all : List Deployment) (s : Sys W)
      → ((at : Option String) (w : W) → (client.list_deployments at w).0 ≡ ok (restrict at all))
      → policy.spec.selector.namespaces ≡ ns ∷ (ns ∷ [])
      → str_eq ns "" ≡ false
      → (count_matching_deployments client lib policy s).0
        ≡ ok (2 * count_p (λ d. deployment_matches_policy lib d policy) all)
  unfolding count_matching_deployments
  namespace_counted_twice policy ns all s served e h =
      ap
        (λ l.
          (count_from client lib policy.spec.selector (if is_empty l then "" ∷ [] else l) 0 s).0)
        e
      ∙ count_from-sum policy.spec.selector (ns ∷ (ns ∷ [])) 0 all s served (h, (h, tt))
      ∙ ap ok (omega (arith, one, sum_twice))
    where
      f : Deployment → Bool
      f d = deployment_matches_selector lib d policy.spec.selector

      same :
          (d : Deployment)
          → (str_eq d.meta.namespace ns && f d) ≡ deployment_matches_policy lib d policy
      same d = named_match policy ns d e

      one :
          count_p f (restrict (some ns) all)
          ≡ count_p (λ d. deployment_matches_policy lib d policy) all
      one = count_restrict f ns all ∙ ap (λ (g : Deployment → Bool). count_p g all) (fun_ext same)

      sum_twice :
          sum_over f (ns ∷ (ns ∷ [])) all
          ≡ count_p f (restrict (some ns) all) + count_p f (restrict (some ns) all)
      sum_twice = unfold sum_over in omega arith
