-- ===== src/Deploy/Changes.antt =====
-- Which images count as changed, and that a stored annotation is read back as no change.
use text.Mathlib.TextEquality.{eq_iff}
use kwarm.Base.{
  ◌≡◌, refl, sym, ap, ap₂, subst, ◌∙◌, not, ◌≢◌, ◌↔◌, inl, inr, true, false, String, List, [], ◌∷◌,
  Option, none, some, Elem, Elem-if, Elem-if_later, str_eq, find, find-assign, Bool-cases, IsMap,
  IsAbsent, assign-IsMap, arith,
}
use kwarm.Kube.{StringMap, Container, Deployment}
use kwarm.Cluster.{ok, Library}
use kwarm.Deploy.Images.{
  store_images, extract_images, get_last_images, find_changed_images, has_changed, annotate,
  annotation_last_images, init_key,
}
use kwarm.Deploy.Recorded.{Remembers, IsRecorded, Remembers-IsRecorded}
use kwarm.Deploy.Current.{image_of, find-extract_images}

has_changed_iff :
    (last : Option StringMap) (name image : String)
    → (has_changed last name image ≡ true) ↔ (¬ Remembers last name image)
unfolding has_changed
has_changed_iff none name image = (λ _ r. r, λ _. refl)
has_changed_iff (some last) name image = (to (find name last), from (find name last))
  where
    to :
        (o : Option String)
        → (elim o [ none ↦ true | some old ↦ not (str_eq old image) ]) ≡ true
        → o ≢ some image
    to none h p = cc
    to (some old) h p = ground (arith, eq_iff old image)

    from :
        (o : Option String)
        → o ≢ some image
        → (elim o [ none ↦ true | some old ↦ not (str_eq old image) ]) ≡ true
    from none h = refl
    from (some old) h = ground (arith, eq_iff old image)

changed_to :
    (last : Option StringMap) (current : StringMap) (image : String)
    → Elem image (find_changed_images last current)
    → (name : String) × Elem (name, image) current × (¬ Remembers last name image)
unfolding find_changed_images
changed_to last [] image e = absurd e
changed_to last ((n, i) ∷ rest) image e =
    elim (Elem-if (has_changed last n i) image i (find_changed_images last rest) e) [
      | inl (c, p) ↦ (
        n,
        inl (ap (λ (x : String). (n, x)) p),
        subst (λ x. ¬ Remembers last n x) p ((has_changed_iff last n i).0 c),
      )
      | inr later ↦ let found = changed_to last rest image later in (found.0, inr found.1, found.2)
    ]

changed_from :
    (last : Option StringMap) (current : StringMap) (name image : String)
    → Elem (name, image) current
    → ¬ Remembers last name image
    → Elem image (find_changed_images last current)
unfolding find_changed_images
changed_from last ((n, i) ∷ rest) name image (inl p) h =
    rw
      ((has_changed_iff last n i).1
        (subst (λ (x : String × String). ¬ Remembers last x.0 x.1) (sym p) h))
      (inl (ap (λ (x : String × String). x.1) p))
changed_from last ((n, i) ∷ rest) name image (inr e) h =
    Elem-if_later (has_changed last n i) image i _ (changed_from last rest name image e h)
changed_from last [] name image e h = absurd e

found-Elem : (k v : String) (m : StringMap) → find k m ≡ some v → Elem (k, v) m
unfolding find
found-Elem k v [] h = cc
found-Elem k v ((j, w) ∷ m) h = elim (Bool-cases (str_eq j k)) [
  | inl e ↦ inl (ap₂ (λ x y. (x, y)) (ground (arith, e, eq_iff j k)) (ground (arith, e, h)))
  | inr e ↦ inr (found-Elem k v m (ground (arith, e, h)))
]

store_images-IsMap :
    (key : String → String) (cs : List Container) (m : StringMap)
    → IsMap m
    → IsMap (store_images key cs m)
unfolding store_images
store_images-IsMap key [] m h = h
store_images-IsMap key (c ∷ cs) m h =
    store_images-IsMap key cs _ (assign-IsMap (key c.name) c.image m h)

pub extract_images-IsMap : (d : Deployment) → IsMap (extract_images d)
unfolding extract_images
extract_images-IsMap d =
    store_images-IsMap init_key d.init_containers _
      (store_images-IsMap (λ name. name) d.containers [] tt)

-- Against a map that has every entry, nothing has changed.
unchanged :
    (seen rest : StringMap)
    → ((k v : String) → Elem (k, v) rest → find k seen ≡ some v)
    → find_changed_images (some seen) rest ≡ []
unfolding find_changed_images has_changed
unchanged seen [] f = refl
unchanged seen ((k, v) ∷ rest) f =
    ground (arith, f k v (inl refl), eq_iff v v, unchanged seen rest (λ j w e. f j w (inr e)))

absent-ne : (k j v : String) (m : StringMap) → IsAbsent k m → Elem (j, v) m → str_eq k j ≡ false
absent-ne k j v ((i, w) ∷ m) h (inl p) =
    ground (arith, ap (λ (x : String × String). x.0) p, eq_iff k j, eq_iff i k)
absent-ne k j v ((i, w) ∷ m) h (inr e) = absent-ne k j v m h.1 e
absent-ne k j v [] h e = absurd e

pub find-Elem : (k v : String) (m : StringMap) → IsMap m → Elem (k, v) m → find k m ≡ some v
unfolding find
find-Elem k v ((j, w) ∷ m) h (inl p) =
    ground
      (arith, ap (λ (x : String × String). x.0) p, ap (λ (x : String × String). x.1) p, eq_iff j k)
find-Elem k v ((j, w) ∷ m) h (inr e) = rw (absent-ne j k v m h.0 e) (find-Elem k v m h.1 e)
find-Elem k v [] h e = absurd e

-- An image of a deployment counts as changed exactly when the deployment has it under some name, the
-- last container under a name counting, and the annotation does not have that image for that name.
-- Without an annotation, with an empty one, and with one that cannot be decoded, that is every image.
pub find_changed_images-mem :
    (lib : Library) (d : Deployment) (image : String)
    → Elem image (find_changed_images (get_last_images lib d) (extract_images d))
      ↔ ((name : String) × (image_of d name ≡ some image) × (¬ IsRecorded lib d name image))
find_changed_images-mem lib d image = (to, from)
  where
    to :
        Elem image (find_changed_images (get_last_images lib d) (extract_images d))
        → (name : String) × (image_of d name ≡ some image) × (¬ IsRecorded lib d name image)
    to e =
        let (name, m, n) = changed_to (get_last_images lib d) (extract_images d) image e in
        (
          name,
          sym (find-extract_images d name)
              ∙ find-Elem name image (extract_images d) (extract_images-IsMap d) m,
          λ r. n ((Remembers-IsRecorded lib d name image).1 r),
        )

    from :
        (name : String) × (image_of d name ≡ some image) × (¬ IsRecorded lib d name image)
        → Elem image (find_changed_images (get_last_images lib d) (extract_images d))
    from (name, h, n) =
        changed_from (get_last_images lib d) (extract_images d) name image
          (found-Elem name image (extract_images d) (find-extract_images d name ∙ h))
          (λ r. n ((Remembers-IsRecorded lib d name image).0 r))

pub get_last_images-annotate :
    (lib : Library) (d : Deployment) (text : String) (seen : StringMap)
    → text ≢ ""
    → lib.unmarshal text ≡ ok (some seen)
    → get_last_images lib (annotate d text) ≡ some seen
unfolding get_last_images annotate
get_last_images-annotate lib d text seen t u = ground (
  arith,
  find-assign annotation_last_images annotation_last_images text d.meta.annotations,
  eq_iff text "",
)

extract_images-annotate :
    (d : Deployment) (text : String) → extract_images (annotate d text) ≡ extract_images d
unfolding extract_images annotate
extract_images-annotate d text = refl

-- Once the annotation holds the JSON text of the current images, and that text decodes to a map with
-- the same entries, no image counts as changed: the next reconcile starts no pull.
pub annotated_unchanged :
    (lib : Library) (d : Deployment) (text : String) (seen : StringMap)
    → text ≢ ""
    → lib.unmarshal text ≡ ok (some seen)
    → ((name : String) → find name seen ≡ find name (extract_images d))
    → let d' = annotate d text in
      find_changed_images (get_last_images lib d') (extract_images d') ≡ []
annotated_unchanged lib d text seen t u same =
    rw (get_last_images-annotate lib d text seen t u, extract_images-annotate d text)
      (unchanged seen (extract_images d)
        (λ k v e. same k ∙ find-Elem k v (extract_images d) (extract_images-IsMap d) e))
