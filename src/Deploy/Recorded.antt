-- ===== src/Deploy/Recorded.antt =====
-- deployment_controller.go: what `getLastImages` reads from the annotation of a deployment.
use text.Mathlib.TextEquality.{eq_iff}
use kwarm.Base.{
  ◌≡◌, refl, sym, subst, ◌≢◌, ◌↔◌, ◌⊎◌, inl, inr, String, Option, none, some, true, str_eq, find,
  Bool-cases, Option-cases, arith,
}
use kwarm.Kube.{StringMap, Deployment}
use kwarm.Cluster.{ok, Library, Outcome-cases}
use kwarm.Deploy.Images.{text_at, get_last_images, annotation_last_images}

-- The map has the image under the name; the nil map has none.
abbrev pub Remembers : Option StringMap → String → String → Type 0
Remembers none name image = ⊥
Remembers (some last) name image = find name last ≡ some image

-- The annotation of the deployment is a text, not empty, that decodes to a map.
abbrev IsSeen : Library → Deployment → String → StringMap → Type 0
IsSeen lib d text seen =
    (find "kwarm.io/last-images" d.meta.annotations ≡ some text)
    × (text ≢ "")
    × (lib.unmarshal text ≡ ok (some seen))

seen-last :
    (lib : Library) (d : Deployment) (text : String) (seen : StringMap)
    → IsSeen lib d text seen
    → get_last_images lib d ≡ some seen
unfolding get_last_images
seen-last lib d text seen h = ground (arith, h.0, h.1, h.2, eq_iff text "")

missing :
    (m : StringMap)
    → find annotation_last_images m ≡ none
    → str_eq (text_at annotation_last_images m) "" ≡ true
missing m e = subst (λ o. str_eq (elim o [ none ↦ "" | some v ↦ v ]) "" ≡ true) (sym e) refl

last-cases :
    (lib : Library) (d : Deployment)
    → (get_last_images lib d ≡ none)
      ⊎ ((text : String) × (seen : StringMap) × IsSeen lib d text seen)
unfolding get_last_images
last-cases lib d = elim (Option-cases (find annotation_last_images d.meta.annotations)) [
  | inl e ↦ inl (ground (arith, missing d.meta.annotations e))
  | inr (text, e) ↦ elim (Bool-cases (str_eq text "")) [
    | inl empty ↦ inl (ground (arith, e, empty))
    | inr full ↦ elim (Outcome-cases (lib.unmarshal text)) [
      | inl (none, u) ↦ inl (ground (arith, e, full, u))
      | inl (some seen, u) ↦
          inr (text, seen, (e, (λ q. ground (arith, q, full, eq_iff text "")), u))
      | inr (x, u) ↦ inl (ground (arith, e, full, u))
    ]
  ]
]

-- The annotation has the image for the name.
abbrev pub IsRecorded : Library → Deployment → String → String → Type 0
IsRecorded lib d name image =
    (text : String) × (seen : StringMap) × (find "kwarm.io/last-images" d.meta.annotations
      ≡ some text)
    × (text ≢ "")
    × (lib.unmarshal text ≡ ok (some seen))
    × (find name seen ≡ some image)

pub Remembers-IsRecorded :
    (lib : Library) (d : Deployment) (name image : String)
    → Remembers (get_last_images lib d) name image ↔ IsRecorded lib d name image
Remembers-IsRecorded lib d name image = (to, from)
  where
    to : Remembers (get_last_images lib d) name image → IsRecorded lib d name image
    to h = elim (last-cases lib d) [
      | inl e ↦ absurd (subst (λ o. Remembers o name image) e h)
      | inr (text, seen, i) ↦ (
        text,
        seen,
        i.0,
        i.1,
        i.2,
        subst (λ o. Remembers o name image) (seen-last lib d text seen i) h,
      )
    ]

    from : IsRecorded lib d name image → Remembers (get_last_images lib d) name image
    from (text, seen, a, b, c, h) =
        subst (λ o. Remembers o name image) (sym (seen-last lib d text seen (a, b, c))) h
