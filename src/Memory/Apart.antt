-- ===== src/Memory/Apart.antt =====
-- A deep copy of an object is the same object in memory of its own.
use kwarm.Base.{ℕ, ◌≡◌, refl, ap, ◌<◌, Bool, true, false, List, Option, none, some, Elem, arith}
use kwarm.Memory.Copier.{AreReserved, reserved_from, reserved_below, Layout}
use kwarm.Memory.Layout.{pointed}
use kwarm.Memory.Parts.{into_new-IsCopy}
use kwarm.Memory.Layout.Image.{prepull_image_layout, prepull_image_list_layout}
use kwarm.Memory.Layout.Policy.{prepull_policy_layout, prepull_policy_list_layout}
use kwarm.Memory.Types.{
  External, in_memory, as_value, PrePullImage, PrePullImageList, PrePullPolicy, PrePullPolicyList,
}
use kwarm.Memory.DeepCopy.{
  Object, Stored, deep_copy_object, prepull_image_deep_copy_object,
  prepull_image_list_deep_copy_object, prepull_policy_deep_copy_object,
  prepull_policy_list_deep_copy_object,
}
use kwarm.Memory.DeepCopy.Image.{Pointer}
use kwarm.Memory.Copied.Image.{
  prepull_image_deep_copy_into-IsCopy, prepull_image_list_deep_copy_into-IsCopy,
}
use kwarm.Memory.Copied.Policy.{
  prepull_policy_deep_copy_into-IsCopy, prepull_policy_list_deep_copy_into-IsCopy,
}

module _ (X : External) where
  abbrev image_pointer :
      Layout (Pointer (PrePullImage (in_memory X))) (Option (PrePullImage (as_value X)))
  image_pointer = pointed (prepull_image_layout X)

  abbrev image_list_pointer :
      Layout (Pointer (PrePullImageList (in_memory X))) (Option (PrePullImageList (as_value X)))
  image_list_pointer = pointed (prepull_image_list_layout X)

  abbrev policy_pointer :
      Layout (Pointer (PrePullPolicy (in_memory X))) (Option (PrePullPolicy (as_value X)))
  policy_pointer = pointed (prepull_policy_layout X)

  abbrev policy_list_pointer :
      Layout (Pointer (PrePullPolicyList (in_memory X))) (Option (PrePullPolicyList (as_value X)))
  policy_list_pointer = pointed (prepull_policy_list_layout X)

  abbrev pub object_value : Stored X → Object (as_value X)
  object_value (Object.image p) = Object.image (image_pointer.value p)
  object_value (Object.image_list p) = Object.image_list (image_list_pointer.value p)
  object_value (Object.policy p) = Object.policy (policy_pointer.value p)
  object_value (Object.policy_list p) = Object.policy_list (policy_list_pointer.value p)

  abbrev pub object_addresses : Stored X → List ℕ
  object_addresses (Object.image p) = image_pointer.addresses p
  object_addresses (Object.image_list p) = image_list_pointer.addresses p
  object_addresses (Object.policy p) = policy_pointer.addresses p
  object_addresses (Object.policy_list p) = policy_list_pointer.addresses p

  abbrev is_nil : {A : Type 0} → Option A → Bool
  is_nil none = true
  is_nil (some p) = false

  abbrev pub holds_nil : Stored X → Bool
  holds_nil (Object.image p) = is_nil p
  holds_nil (Object.image_list p) = is_nil p
  holds_nil (Object.policy p) = is_nil p
  holds_nil (Object.policy_list p) = is_nil p

  -- The addresses from `n` on are free.
  abbrev pub IsFree : Stored X → ℕ → Type 0
  IsFree o n = (a : ℕ) → Elem a (object_addresses o) → a < n

  pub record IsDeepCopy (original : Stored X) (n : ℕ) (copied : Stored X) (m : ℕ) : Type 0 where
    pub same : object_value copied ≡ object_value original
    pub real : holds_nil copied ≡ false
    pub reserved : AreReserved n m (object_addresses copied)
    pub apart : (a : ℕ) → Elem a (object_addresses copied) → ¬ Elem a (object_addresses original)
    pub free : IsFree copied m

  -- What `DeepCopyObject` gives: nil for a nil pointer only, and a deep copy for any other.
  abbrev pub IsResult : Stored X → ℕ → Option (Stored X) × ℕ → Type 0
  IsResult o n (none, m) = (holds_nil o ≡ true) × (m ≡ n)
  IsResult o n (some c, m) = IsDeepCopy o n c m

  -- An address from `n` on is not among those below.
  not_shared :
      (o c : Stored X) (n m : ℕ)
      → IsFree o n
      → AreReserved n m (object_addresses c)
      → (a : ℕ) → Elem a (object_addresses c)
      → ¬ Elem a (object_addresses o)
  not_shared o c n m free r a e f =
      ground (arith, free a f, reserved_from n m a (object_addresses c) r e)

  deep_copied :
      (o c : Stored X) (n m : ℕ)
      → IsFree o n
      → object_value c ≡ object_value o
      → holds_nil c ≡ false
      → AreReserved n m (object_addresses c)
      → IsDeepCopy o n c m
  deep_copied o c n m free e k r = record {
    same = e;
    real = k;
    reserved = r;
    apart = not_shared o c n m free r;
    free = λ a. reserved_below n m a (object_addresses c) r;
  }

  -- `DeepCopyObject` of any of the four types, where the addresses from `n` on are free, gives nil
  -- for a nil pointer and otherwise a pointer that is not nil, to an object that reads the same with
  -- the addresses forgotten. The addresses that the copy holds are all different, from `n` up to the
  -- first address that is free then, and the original holds none of them.
  pub deep_copy_object-IsResult :
      (o : Stored X) (n : ℕ) → IsFree o n → IsResult o n (deep_copy_object X o n)
  unfolding deep_copy_object prepull_image_deep_copy_object prepull_image_list_deep_copy_object
      prepull_policy_deep_copy_object prepull_policy_list_deep_copy_object
  deep_copy_object-IsResult (Object.image none) n free = (refl, refl)
  deep_copy_object-IsResult (Object.image_list none) n free = (refl, refl)
  deep_copy_object-IsResult (Object.policy none) n free = (refl, refl)
  deep_copy_object-IsResult (Object.policy_list none) n free = (refl, refl)
  deep_copy_object-IsResult (Object.image (some p)) n free =
      deep_copied (Object.image (some p)) _ n _ free
        (ap Object.image
          ((into_new-IsCopy (prepull_image_deep_copy_into-IsCopy X)).same (some p) n))
        refl ((into_new-IsCopy (prepull_image_deep_copy_into-IsCopy X)).reserved (some p) n)
  deep_copy_object-IsResult (Object.image_list (some p)) n free =
      deep_copied (Object.image_list (some p)) _ n _ free
        (ap Object.image_list
          ((into_new-IsCopy (prepull_image_list_deep_copy_into-IsCopy X)).same (some p) n))
        refl ((into_new-IsCopy (prepull_image_list_deep_copy_into-IsCopy X)).reserved (some p) n)
  deep_copy_object-IsResult (Object.policy (some p)) n free =
      deep_copied (Object.policy (some p)) _ n _ free
        (ap Object.policy
          ((into_new-IsCopy (prepull_policy_deep_copy_into-IsCopy X)).same (some p) n))
        refl ((into_new-IsCopy (prepull_policy_deep_copy_into-IsCopy X)).reserved (some p) n)
  deep_copy_object-IsResult (Object.policy_list (some p)) n free =
      deep_copied (Object.policy_list (some p)) _ n _ free
        (ap Object.policy_list
          ((into_new-IsCopy (prepull_policy_list_deep_copy_into-IsCopy X)).same (some p) n))
        refl ((into_new-IsCopy (prepull_policy_list_deep_copy_into-IsCopy X)).reserved (some p) n)
