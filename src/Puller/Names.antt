-- ===== src/Puller/Names.antt =====
-- Job names: within the limit of Kubernetes, distinct while the resource's name is short, and not
-- distinct where it is long.
use Prim.Native.String.{len, slice, ◌++◌ as str_append}
use text.Mathlib.TextLemmas.{append_assoc, append_cancel_left, append_cancel_right, append-nil}
use text.Mathlib.TextPositions.{len-append, slice-append_left}
use kwarm.Base.{
  ◌+◌, ◌≤◌, ◌≡◌, sym, ap, ap₂, ◌∙◌, String, truncate-slice, len-slice-le, slice-append_absorb,
  slice_whole, arith,
}
use kwarm.Cluster.{Library}
use kwarm.Puller.{hash_node_name, generate_job_name, job_name_prefix}

-- The part of a name before the hash, and the hash with its dash.
abbrev stem : String → String
stem ppi_name = str_append job_name_prefix (str_append "-" ppi_name)

abbrev tail : Library → String → String
tail lib node = str_append "-" (str_append (hash_node_name lib node) "")

name-slice :
    (lib : Library) (p n : String)
    → generate_job_name lib p n ≡ slice (str_append (stem p) (tail lib n)) 0 63
unfolding generate_job_name
name-slice lib p n =
    truncate-slice 63 _
    ∙ ap (λ t. slice t 0 63)
        (ap (str_append job_name_prefix) (sym (append_assoc "-" p (tail lib n)))
          ∙ sym (append_assoc job_name_prefix (str_append "-" p) (tail lib n)))

len-stem : (p : String) → len (stem p) ≡ 11 + len p
len-stem p =
    len-append job_name_prefix (str_append "-" p) ∙ ap (◌+◌ 10) (len-append "-" p) ∙ omega arith

len-tail : (lib : Library) (n : String) → len (tail lib n) ≡ 1 + len (hash_node_name lib n)
len-tail lib n =
    len-append "-" (str_append (hash_node_name lib n) "")
    ∙ ap (◌+◌ 1) (ap len (append-nil (hash_node_name lib n)))

-- A job's name has at most 63 bytes.
pub len-generate_job_name-le :
    (lib : Library) (ppi_name node : String) → len (generate_job_name lib ppi_name node) ≤ 63
len-generate_job_name-le lib ppi_name node = rw (name-slice lib ppi_name node) (len-slice-le _ 63)

-- When the resource's name has 52 bytes or more, the hash of the node is cut off whole: the jobs of
-- all nodes have one name.
pub generate_job_name_collides :
    (lib : Library) (ppi_name node other : String)
    → 52 ≤ len ppi_name
    → generate_job_name lib ppi_name node ≡ generate_job_name lib ppi_name other
generate_job_name_collides lib p n m h =
    name-slice lib p n
    ∙ slice-append_absorb (stem p) (tail lib n) 63 (omega (arith, len-stem p))
    ∙ sym (slice-append_absorb (stem p) (tail lib m) 63 (omega (arith, len-stem p)))
    ∙ sym (name-slice lib p m)

whole_name :
    (lib : Library) (p n : String)
    → len p ≤ 43
    → len (hash_node_name lib n) ≡ 8
    → generate_job_name lib p n ≡ str_append (stem p) (tail lib n)
whole_name lib p n short e =
    name-slice lib p n
    ∙ slice_whole _ 63 (omega (arith, len-append (stem p) (tail lib n), len-stem p, len-tail lib n))

-- Two texts in two parts, the first parts of one length.
append_inj_of_len :
    (a b s t : String) → len a ≡ len b → str_append a s ≡ str_append b t → (a ≡ b) × (s ≡ t)
append_inj_of_len a b s t l e =
    (fronts, append_cancel_left a _ _ (e ∙ ap (λ x. str_append x t) (sym fronts)))
  where
    fronts : a ≡ b
    fronts = sym (slice-append_left a s) ∙ ap₂ (λ x k. slice x 0 k) e l ∙ slice-append_left b t

-- While the resources' names have at most 43 bytes and the hashes 8, two jobs have one name only if
-- they are for one resource name and for nodes with the same hash.
pub generate_job_name_inj :
    (lib : Library) (p q n m : String)
    → len p ≤ 43
    → len q ≤ 43
    → len (hash_node_name lib n) ≡ 8
    → len (hash_node_name lib m) ≡ 8
    → generate_job_name lib p n ≡ generate_job_name lib q m
    → (p ≡ q) × (hash_node_name lib n ≡ hash_node_name lib m)
generate_job_name_inj lib p q n m hp hq hn hm e = (
  append_cancel_left "-" _ _ (append_cancel_left job_name_prefix _ _ parts.0),
  append_cancel_right _ _ "" (append_cancel_left "-" _ _ parts.1),
)
  where
    texts : str_append (stem p) (tail lib n) ≡ str_append (stem q) (tail lib m)
    texts = sym (whole_name lib p n hp hn) ∙ e ∙ whole_name lib q m hq hm

    parts : (stem p ≡ stem q) × (tail lib n ≡ tail lib m)
    parts =
        append_inj_of_len _ _ _ _
          (omega (
            arith,
            ap len texts,
            len-append (stem p) (tail lib n),
            len-append (stem q) (tail lib m),
            len-tail lib n,
            len-tail lib m,
          ))
          texts
