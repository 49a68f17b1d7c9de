-- ===== src/Memory/DeepCopy.antt =====
-- api/v1alpha1/zz_generated.deepcopy.go: the copies of the two resources, and `DeepCopyObject` of what is
-- a `runtime.Object`.
pub mod Image
pub mod Policy
use kwarm.Base.{Option, none, some}
use kwarm.Memory.Copier.{Mem, Place, ◌>>=◌, return}
use kwarm.Memory.Types.{
  External, Reading, in_memory, PrePullImage, PrePullImageList, PrePullPolicy, PrePullPolicyList,
}
use kwarm.Memory.DeepCopy.Image.{Pointer, prepull_image_deep_copy, prepull_image_list_deep_copy}
use kwarm.Memory.DeepCopy.Policy.{prepull_policy_deep_copy, prepull_policy_list_deep_copy}

-- A `runtime.Object` that is not nil: a pointer to one of the types, which may be nil itself.
pub data Object (R : Reading) : Type 0 where
  image : Option (R.place (PrePullImage R)) → Object R
  image_list : Option (R.place (PrePullImageList R)) → Object R
  policy : Option (R.place (PrePullPolicy R)) → Object R
  policy_list : Option (R.place (PrePullPolicyList R)) → Object R

module _ (X : External) where
  abbrev pub Stored : Type 0
  Stored = Object (in_memory X)

  -- `if c := in.DeepCopy(); c != nil { return c }; return nil`
  abbrev pub returned : {A : Type 0} → (Pointer A → Stored) → Mem (Pointer A) → Mem (Option Stored)
  returned object copy = do
    c ← copy
    return (elim c [ none ↦ none | some p ↦ some (object (some p)) ])

  unfoldable pub prepull_image_deep_copy_object :
      Pointer (PrePullImage (in_memory X)) → Mem (Option Stored)
  prepull_image_deep_copy_object p = returned Object.image (prepull_image_deep_copy X p)

  unfoldable pub prepull_image_list_deep_copy_object :
      Pointer (PrePullImageList (in_memory X)) → Mem (Option Stored)
  prepull_image_list_deep_copy_object p =
      returned Object.image_list (prepull_image_list_deep_copy X p)

  unfoldable pub prepull_policy_deep_copy_object :
      Pointer (PrePullPolicy (in_memory X)) → Mem (Option Stored)
  prepull_policy_deep_copy_object p = returned Object.policy (prepull_policy_deep_copy X p)

  unfoldable pub prepull_policy_list_deep_copy_object :
      Pointer (PrePullPolicyList (in_memory X)) → Mem (Option Stored)
  prepull_policy_list_deep_copy_object p =
      returned Object.policy_list (prepull_policy_list_deep_copy X p)

  -- The method of the type that the object has.
  unfoldable pub deep_copy_object : Stored → Mem (Option Stored)
  deep_copy_object (Object.image p) = prepull_image_deep_copy_object p
  deep_copy_object (Object.image_list p) = prepull_image_list_deep_copy_object p
  deep_copy_object (Object.policy p) = prepull_policy_deep_copy_object p
  deep_copy_object (Object.policy_list p) = prepull_policy_list_deep_copy_object p
