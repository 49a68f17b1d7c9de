-- ===== src/Base/Maps.antt =====
-- A Go map from strings to numbers as an association list: a missing key reads 0.
use text.Mathlib.TextEquality.{eq_iff}
use Prim.Native.Nat.{ℕ, ◌<◌}
use Prim.Native.String.{String}
use mathlib.Core.Bool.{false}
use mathlib.Core.Option.{Option, none, some}
use mathlib.Core.List.{List, [], ◌∷◌}
use mathlib.Core.Path.{◌≡◌, refl, sym, subst}
use native.Mathlib.Omega.{arith}
use kwarm.Base.Lists.{All}
use kwarm.Base.Tests.{if◌then◌else◌}
use kwarm.Base.Text.{str_eq}

abbrev pub Counts : Type 0
Counts = List (String × ℕ)

unfoldable pub get : String → Counts → ℕ
get k [] = 0
get k ((j, v) ∷ m) = if str_eq j k then v else get k m

-- `m[k] = v`
unfoldable pub put : String → ℕ → Counts → Counts
put k v [] = (k, v) ∷ []
put k v ((j, w) ∷ m) = if str_eq j k then (k, v) ∷ m else (j, w) ∷ put k v m

-- `delete(m, k)`
unfoldable pub delete : String → Counts → Counts
delete k [] = []
delete k ((j, w) ∷ m) = let rest = delete k m in if str_eq j k then rest else (j, w) ∷ rest

pub get-put :
    (k j : String) (v : ℕ) (m : Counts) → get j (put k v m) ≡ (if str_eq k j then v else get j m)
unfolding get put
get-put k j v [] = refl
get-put k j v ((i, w) ∷ m) = ground (arith, eq_iff k j, eq_iff i k, eq_iff i j, get-put k j v m)

pub get-delete :
    (k j : String) (m : Counts) → get j (delete k m) ≡ (if str_eq k j then 0 else get j m)
unfolding get delete
get-delete k j [] = ground arith
get-delete k j ((i, w) ∷ m) = ground (arith, eq_iff k j, eq_iff i k, eq_iff i j, get-delete k j m)

-- No key is stored with the value 0.
abbrev pub IsOccupied : Counts → Type 0
IsOccupied = All (λ e. 0 < e.1)

pub put-IsOccupied :
    (k : String) (v : ℕ) (m : Counts) → 0 < v → IsOccupied m → IsOccupied (put k v m)
unfolding put
put-IsOccupied k v [] p h = (p, tt)
put-IsOccupied k v ((j, w) ∷ m) p h = ground (arith, put-IsOccupied k v m p h.1)

pub delete-IsOccupied : (k : String) (m : Counts) → IsOccupied m → IsOccupied (delete k m)
unfolding delete
delete-IsOccupied k [] h = tt
delete-IsOccupied k ((j, w) ∷ m) h = ground (arith, delete-IsOccupied k m h.1)

pub delete-put : (k : String) (v : ℕ) (m : Counts) → delete k (put k v m) ≡ delete k m
unfolding put delete
delete-put k v [] = ground (arith, eq_iff k k)
delete-put k v ((j, w) ∷ m) = ground (arith, eq_iff j k, eq_iff k k, delete-put k v m)

-- A map from strings to strings, or to anything else.
module _ {ℓ} {V : Type ℓ} where
  unfoldable pub find : String → List (String × V) → Option V
  find k [] = none
  find k ((j, v) ∷ m) = if str_eq j k then some v else find k m

  unfoldable pub assign : String → V → List (String × V) → List (String × V)
  assign k v [] = (k, v) ∷ []
  assign k v ((j, w) ∷ m) = if str_eq j k then (k, v) ∷ m else (j, w) ∷ assign k v m

  pub find-assign :
      (k j : String) (v : V) (m : List (String × V))
      → find j (assign k v m) ≡ (if str_eq k j then some v else find j m)
  unfolding find assign
  find-assign k j v [] = refl
  find-assign k j v ((i, w) ∷ m) =
      ground (arith, eq_iff k j, eq_iff i k, eq_iff i j, find-assign k j v m)

-- The key does not stand in the list.
abbrev pub IsAbsent : {V : Type 0} → String → List (String × V) → Type 0
IsAbsent k [] = Unit
IsAbsent k ((j, v) ∷ m) = (str_eq j k ≡ false) × IsAbsent k m

-- No key stands twice.
abbrev pub IsMap : {V : Type 0} → List (String × V) → Type 0
IsMap [] = Unit
IsMap ((j, v) ∷ m) = IsAbsent j m × IsMap m

assign-IsAbsent :
    {V : Type 0} (k j : String) (v : V) (m : List (String × V))
    → str_eq k j ≡ false
    → IsAbsent j m
    → IsAbsent j (assign k v m)
unfolding assign
assign-IsAbsent k j v [] e h = (e, tt)
assign-IsAbsent k j v ((i, w) ∷ m) e h = ground (arith, assign-IsAbsent k j v m e h.1)

pub assign-IsMap :
    {V : Type 0} (k : String) (v : V) (m : List (String × V)) → IsMap m → IsMap (assign k v m)
unfolding assign
assign-IsMap k v [] h = (tt, tt)
assign-IsMap k v ((j, w) ∷ m) h =
    ground (arith, eq_iff j k, eq_iff k j, assign-IsMap k v m h.1, assign-IsAbsent k j v m)

-- A map of numbers is a map: `put` is `assign`, and `get` reads what `find` finds.
pub put-IsMap : (k : String) (v : ℕ) (m : Counts) → IsMap m → IsMap (put k v m)
put-IsMap k v m h = subst IsMap (sym (same m)) (assign-IsMap k v m h)
  where
    same : (m : Counts) → put k v m ≡ assign k v m
    same [] = unfold put assign in refl
    same ((j, w) ∷ m) = unfold put assign in ground (arith, same m)

pub find-put :
    (k j : String) (v : ℕ) (m : Counts)
    → find j (put k v m) ≡ (if str_eq k j then some v else find j m)
unfolding find put
find-put k j v [] = refl
find-put k j v ((i, w) ∷ m) = ground (arith, eq_iff k j, eq_iff i k, eq_iff i j, find-put k j v m)

pub find-IsAbsent :
    {V : Type 0} (k : String) (m : List (String × V)) → IsAbsent k m → find k m ≡ none
unfolding find
find-IsAbsent k [] h = refl
find-IsAbsent k ((j, v) ∷ m) h = rw h.0 (find-IsAbsent k m h.1)
