-- ===== src/Deploy/Images.antt =====
-- deployment_controller.go: the images of a deployment and its `last-images` annotation. Go visits a
-- map in any order; the model visits it in the order of the list.
use Prim.Native.String.{slice}
use kwarm.Base.{
  Bool, true, not, ◌&&◌, String, List, [], ◌∷◌, Option, none, some, length, concat, truncate,
  str_eq, eqb, if◌then◌else◌, find, assign,
}
use kwarm.Kube.{StringMap, Container, Deployment}
use kwarm.Cluster.{Outcome, ok, err, Library}

abbrev pub annotation_last_images : String
annotation_last_images = "kwarm.io/last-images"

-- A loop of `extractImages`: it stores each image under a key made from the container's name.
unfoldable pub store_images : (String → String) → List Container → StringMap → StringMap
store_images key [] images = images
store_images key (c ∷ cs) images = store_images key cs (assign (key c.name) c.image images)

-- `"init-"+container.Name`
unfoldable pub init_key : String → String
init_key name = concat ("init-" ∷ (name ∷ []))

unfoldable pub extract_images : Deployment → StringMap
unfolding store_images init_key
extract_images d =
    store_images init_key d.init_containers (store_images (λ name. name) d.containers [])

-- `m[k]`, which is "" where the key is missing
abbrev pub text_at : String → StringMap → String
text_at k m = elim (find k m) [ none ↦ "" | some v ↦ v ]

decoded : Outcome (Option StringMap) → Option StringMap
decoded (ok images) = images
decoded (err e) = none

-- `none` is the nil map.
unfoldable pub get_last_images : Library → Deployment → Option StringMap
unfolding decoded
get_last_images lib d =
    let annotation = text_at annotation_last_images d.meta.annotations in
    if str_eq annotation "" then none else decoded (lib.unmarshal annotation)

-- The test of the loop of `findChangedImages`.
unfoldable pub has_changed : Option StringMap → String → String → Bool
has_changed none name image = true
has_changed (some last) name image = elim (find name last) [
  | none ↦ true
  | some old ↦ not (str_eq old image)
]

unfoldable pub find_changed_images : Option StringMap → StringMap → List String
unfolding has_changed
find_changed_images last [] = []
find_changed_images last ((name, image) ∷ rest) =
    let changed = find_changed_images last rest in
    if has_changed last name image then image ∷ changed else changed

-- The loop of `imagesEqual`.
unfoldable pub agrees : StringMap → StringMap → Bool
agrees [] b = true
agrees ((k, v) ∷ a) b = str_eq (text_at k b) v && agrees a b

-- The entries of a map that may be nil.
abbrev pub entries : Option StringMap → StringMap
entries none = []
entries (some m) = m

unfoldable pub images_equal : Option StringMap → StringMap → Bool
unfolding agrees
images_equal a b = eqb (length (entries a)) (length b) && agrees (entries a) b

-- `deployment.Annotations[AnnotationLastImages] = string(data)`
unfoldable pub annotate : Deployment → String → Deployment
annotate d text =
    let meta = d.meta in
    record d {
      meta = record meta { annotations = assign annotation_last_images text meta.annotations };
    }

unfoldable pub generate_prepullimage_name : Library → String → String → String
generate_prepullimage_name lib deployment image =
    truncate 63 (concat (deployment ∷ ("-" ∷ (slice (lib.sha256_hex image) 0 8 ∷ []))))
