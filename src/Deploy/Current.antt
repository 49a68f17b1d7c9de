-- ===== src/Deploy/Current.antt =====
-- deployment_controller.go: `extractImages`, against the containers of the deployment. The last of the
-- containers that share a key gives the image.
use text.Mathlib.TextEquality.{eq_iff}
use kwarm.Base.{
  ◌≡◌, refl, sym, ap, ◌∙◌, ◌⊎◌, inl, inr, Bool-cases, Bool, true, false, String, List, [], ◌∷◌,
  Option, none, some, concat, Elem, str_eq, if◌then◌else◌, find, assign, find-assign, arith,
}
use kwarm.Kube.{StringMap, Container, Deployment}
use kwarm.Deploy.Images.{store_images, extract_images, init_key}

abbrev pub or_else : Option String → Option String → Option String
or_else none d = d
or_else (some v) d = some v

-- The image of the last container that has the key.
abbrev pub latest : (String → String) → String → List Container → Option String
latest key k [] = none
latest key k (c ∷ cs) =
    or_else (latest key k cs) (if str_eq (key c.name) k then some c.image else none)

-- The image of a deployment under a container's name, or under "init-" and an init container's name.
abbrev pub image_of : Deployment → String → Option String
image_of d k =
    or_else (latest (λ name. concat ("init-" ∷ (name ∷ []))) k d.init_containers)
      (latest (λ name. name) k d.containers)

or_else_if :
    (a : Option String) (b : Bool) (v : String) (d : Option String)
    → or_else a (if b then some v else d) ≡ or_else (or_else a (if b then some v else none)) d
or_else_if (some u) b v d = refl
or_else_if none true v d = refl
or_else_if none false v d = refl

or_else-none : (a : Option String) → or_else a none ≡ a
or_else-none none = refl
or_else-none (some v) = refl

find-store_images :
    (key : String → String) (k : String) (cs : List Container) (m : StringMap)
    → find k (store_images key cs m) ≡ or_else (latest key k cs) (find k m)
unfolding store_images
find-store_images key k [] m = refl
find-store_images key k (c ∷ cs) m =
    find-store_images key k cs (assign (key c.name) c.image m)
    ∙ ap (or_else (latest key k cs)) (find-assign (key c.name) k c.image m)
    ∙ or_else_if (latest key k cs) (str_eq (key c.name) k) c.image (find k m)

-- The map that `extractImages` makes has, under each key, the image of the last container with it.
pub find-extract_images : (d : Deployment) (k : String) → find k (extract_images d) ≡ image_of d k
unfolding extract_images init_key find
find-extract_images d k =
    find-store_images init_key k d.init_containers (store_images (λ name. name) d.containers [])
    ∙ ap (or_else (latest init_key k d.init_containers)) (
        find-store_images (λ name. name) k d.containers []
        ∙ or_else-none (latest (λ name. name) k d.containers))

-- A container with the key, and the image that the key has.
abbrev HasImage : (String → String) → String → List Container → Type 0
HasImage key k cs =
    (j : Container) × Elem j cs × (key j.name ≡ k) × (latest key k cs ≡ some j.image)

later_or_this :
    (key : String → String) (k : String) (c : Container) (cs : List Container)
    → key c.name ≡ k
    → (latest key k cs ≡ none) ⊎ HasImage key k cs
    → HasImage key k (c ∷ cs)
later_or_this key k c cs e (inl p) = (c, inl refl, e, ground (arith, p, e, eq_iff (key c.name) k))
later_or_this key k c cs e (inr (j, m, n, p)) = (j, inr m, n, rw p refl)

latest-cases :
    (key : String → String) (k : String) (cs : List Container)
    → (latest key k cs ≡ none) ⊎ HasImage key k cs
latest-cases key k [] = inl refl
latest-cases key k (c ∷ cs) = elim (Bool-cases (str_eq (key c.name) k)) [
  | inl e ↦
      inr (
        later_or_this key k c cs (ground (arith, e, eq_iff (key c.name) k)) (latest-cases key k cs))
  | inr ne ↦ elim (latest-cases key k cs) [
    | inl p ↦ inl (rw (p, ne) refl)
    | inr (j, m, n, p) ↦ inr (j, inr m, n, rw p refl)
  ]
]

latest-HasImage :
    (key : String → String) (k : String) (i : Container) (cs : List Container)
    → Elem i cs
    → key i.name ≡ k
    → HasImage key k cs
latest-HasImage key k i [] m e = absurd m
latest-HasImage key k i (c ∷ cs) (inl p) e =
    later_or_this key k c cs (ap (λ (x : Container). key x.name) p ∙ e) (latest-cases key k cs)
latest-HasImage key k i (c ∷ cs) (inr m) e =
    let (j, q, n, p) = latest-HasImage key k i cs m e in (j, inr q, n, rw p refl)

-- Where a container of a deployment has the name "init-" and the name of an init container, the map of
-- `extractImages` has under the container's name the image of an init container: that of the container
-- is in no entry under its name.
pub init_container_hides :
    (d : Deployment) (c i : Container)
    → Elem c d.containers
    → Elem i d.init_containers
    → c.name ≡ concat ("init-" ∷ (i.name ∷ []))
    → (j : Container) × Elem j d.init_containers
      × (concat ("init-" ∷ (j.name ∷ [])) ≡ c.name)
      × (find c.name (extract_images d) ≡ some j.image)
init_container_hides d c i _ m e =
    let (j, q, n, p) =
      latest-HasImage (λ name. concat ("init-" ∷ (name ∷ []))) c.name i d.init_containers m
        (sym e) in
    (j, q, n, find-extract_images d c.name ∙ rw p refl)
