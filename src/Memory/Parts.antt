-- ===== src/Memory/Parts.antt =====
-- The copies of what the structs are made of: what is copied by assignment, a map of strings, a pair,
-- what may be nil, the elements of a slice, and the fields of a struct.
use text.Mathlib.TextEquality.{eq_iff}
use kwarm.Base.{
  ℕ, suc, ◌≡◌, refl, ap, ap₂, ◌∙◌, fun_ext, subst, sym, String, List, [], ◌∷◌, map, Option, none,
  some, find, find-assign, arith,
}
use kwarm.Kube.{StringMap}
use kwarm.Memory.Copier.{
  Mem, ◌>>=◌, return, Place, into_new, each, AreReserved, append-AreReserved, Layout, IsCopy,
}
use kwarm.Memory.Layout.{
  assigned, entries, both, perhaps, optional_value, optional_addresses, pointed, pointed_value,
  pointed_addresses, elements, list_addresses, fields,
}
use kwarm.Memory.DeepCopy.Image.{optional}
use kwarm.Memory.DeepCopy.Policy.{copy_entries}

nothing_reserved : (n : ℕ) → AreReserved n n []
unfolding AreReserved
nothing_reserved n = omega arith

pub assigned-IsCopy : {A : Type 0} → IsCopy (assigned {A = A}) return
assigned-IsCopy = record { same = λ a n. refl; reserved = λ a. nothing_reserved }

-- Whatever order the loop takes the entries in.
copy_entries-find : (m : StringMap) (n : ℕ) (k : String) → find k (copy_entries m n).0 ≡ find k m
unfolding copy_entries find
copy_entries-find [] n k = refl
copy_entries-find ((j, v) ∷ m) n k =
    ground (arith, eq_iff j k, find-assign j k v (copy_entries m n).0, copy_entries-find m n k)

copy_entries-free : (m : StringMap) (n : ℕ) → (copy_entries m n).1 ≡ n
unfolding copy_entries
copy_entries-free [] n = refl
copy_entries-free ((j, v) ∷ m) n = copy_entries-free m n

entries_reserved : (m : StringMap) (n : ℕ) → AreReserved n (copy_entries m n).1 []
unfolding AreReserved
entries_reserved m n = ground (arith, copy_entries-free m n)

pub copy_entries-IsCopy : IsCopy entries copy_entries
copy_entries-IsCopy = record {
  same = λ m n. fun_ext (copy_entries-find m n);
  reserved = entries_reserved;
}

module _ {A V : Type 0} {l : Layout A V} {f : A → Mem A} (c : IsCopy l f) where
  pub both-IsCopy :
      {B W : Type 0} {k : Layout B W} {g : B → Mem B}
      → IsCopy k g
      → IsCopy (both l k) (λ p. do a ← f p.0; b ← g p.1; return (a, b))
  both-IsCopy {B} {W} {k} {g} d = record {
    same = λ p n. ap₂ (λ v w. (v, w)) (c.same p.0 n) (d.same p.1 (f p.0 n).1);
    reserved = λ p n.
        append-AreReserved n (f p.0 n).1 (g p.1 (f p.0 n).1).1 (l.addresses (f p.0 n).0)
          (k.addresses (g p.1 (f p.0 n).1).0) (c.reserved p.0 n) (d.reserved p.1 (f p.0 n).1);
  }

  optional_same : (a : Option A) (n : ℕ) → optional_value l (optional f a n).0 ≡ optional_value l a
  optional_same none n = refl
  optional_same (some a) n = ap some (c.same a n)

  optional_reserved :
      (a : Option A) (n : ℕ)
      → AreReserved n (optional f a n).1 (optional_addresses l (optional f a n).0)
  optional_reserved none n = nothing_reserved n
  optional_reserved (some a) n = c.reserved a n

  pub optional-IsCopy : IsCopy (perhaps l) (optional f)
  optional-IsCopy = record { same = optional_same; reserved = optional_reserved }

  pointed_same :
      (a : Option (Place A)) (n : ℕ) → pointed_value l (into_new f a n).0 ≡ pointed_value l a
  pointed_same none n = refl
  pointed_same (some p) n = ap some (c.same p.content (suc n))

  pointed_reserved :
      (a : Option (Place A)) (n : ℕ)
      → AreReserved n (into_new f a n).1 (pointed_addresses l (into_new f a n).0)
  unfolding AreReserved
  pointed_reserved none n = nothing_reserved n
  pointed_reserved (some p) n = (omega arith, c.reserved p.content (suc n))

  pub into_new-IsCopy : IsCopy (pointed l) (into_new f)
  into_new-IsCopy = record { same = pointed_same; reserved = pointed_reserved }

  list_same : (xs : List A) (n : ℕ) → map l.value (each f xs n).0 ≡ map l.value xs
  list_same [] n = refl
  list_same (x ∷ xs) n = ap₂ (λ v vs. v ∷ vs) (c.same x n) (list_same xs (f x n).1)

  list_reserved :
      (xs : List A) (n : ℕ) → AreReserved n (each f xs n).1 (list_addresses l (each f xs n).0)
  list_reserved [] n = nothing_reserved n
  list_reserved (x ∷ xs) n =
      append-AreReserved n (f x n).1 (each f xs (f x n).1).1 (l.addresses (f x n).0)
        (list_addresses l (each f xs (f x n).1).0) (c.reserved x n) (list_reserved xs (f x n).1)

  pub each-IsCopy : IsCopy (elements l) (each f)
  each-IsCopy = record { same = list_same; reserved = list_reserved }

  -- A struct: `*out = *in`, and then `put` has the fields that hold addresses.
  pub fields-IsCopy :
      {S T : Type 0} {from : S → A} (built : V → S → T) (put : A → S → S)
      → ((a : A) (s : S) → from (put a s) ≡ a)
      → ((v : V) (a : A) (s : S) → built v (put a s) ≡ built v s)
      → IsCopy (fields l from built) (λ s. do a ← f (from s); return (put a s))
  fields-IsCopy {S} {T} {from} built put from_put built_put = record {
    same = λ s n.
        built_put (l.value (from (put (f (from s) n).0 s))) (f (from s) n).0 s
        ∙ ap (λ v. built v s) (ap l.value (from_put (f (from s) n).0 s) ∙ c.same (from s) n);
    reserved = λ s n.
        subst (λ a. AreReserved n (f (from s) n).1 (l.addresses a))
          (sym (from_put (f (from s) n).0 s)) (c.reserved (from s) n);
  }
