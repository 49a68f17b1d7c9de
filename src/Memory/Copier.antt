-- ===== src/Memory/Copier.antt =====
-- Memory and the copies of what lies there. Whatever Go refers to (the array of a slice, a map, the
-- target of a pointer) stands with its address, and the state is the first address that is free.
use kwarm.Base.{
  ℕ, suc, ◌≡◌, ◌≤◌, ◌<◌, List, [], ◌∷◌, ◌++◌, Option, none, some, Elem, inl, inr, arith,
}

abbrev pub Mem : Type 0 → Type 0
Mem A = ℕ → A × ℕ

infixl 5 ◌>>=◌
abbrev pub ◌>>=◌ : {A B : Type 0} → Mem A → (A → Mem B) → Mem B
◌>>=◌ m f n = f (m n).0 (m n).1

abbrev pub return : {A : Type 0} → A → Mem A
return a n = (a, n)

-- `new` or `make`: an address that was free.
abbrev pub reserve : Mem ℕ
reserve n = (n, suc n)

pub record Place (A : Type 0) : Type 0 where
  pub address : ℕ
  pub content : A

-- A pointer, a slice or a map is copied unless it is nil: it gets memory of its own, where the
-- content is copied.
abbrev pub into_new : {A : Type 0} → (A → Mem A) → Option (Place A) → Mem (Option (Place A))
into_new into none = return none
into_new into (some p) = do
  a ← reserve
  x ← into p.content
  return (some (record { address = a; content = x }))

-- `for i := range *in { (*in)[i].DeepCopyInto(&(*out)[i]) }`
abbrev pub each : {A : Type 0} → (A → Mem A) → List A → Mem (List A)
each into [] = return []
each into (x ∷ xs) = do y ← into x; ys ← each into xs; return (y ∷ ys)

-- The addresses, in order, are all different, from `n` on and below `m`.
unfoldable pub AreReserved : ℕ → ℕ → List ℕ → Type 0
AreReserved n m [] = n ≤ m
AreReserved n m (a ∷ xs) = (n ≤ a) × AreReserved (suc a) m xs

weaken : (n m k : ℕ) (xs : List ℕ) → n ≤ m → AreReserved m k xs → AreReserved n k xs
unfolding AreReserved
weaken n m k [] l r = omega arith
weaken n m k (a ∷ xs) l (b, r) = (omega arith, r)

pub append-AreReserved :
    (n m k : ℕ) (xs ys : List ℕ)
    → AreReserved n m xs
    → AreReserved m k ys
    → AreReserved n k (xs ++ ys)
unfolding AreReserved
append-AreReserved n m k [] ys l r = weaken n m k ys l r
append-AreReserved n m k (a ∷ xs) ys (l, q) r = (l, append-AreReserved (suc a) m k xs ys q r)

pub reserved_from : (n m a : ℕ) (xs : List ℕ) → AreReserved n m xs → Elem a xs → n ≤ a
unfolding AreReserved
reserved_from n m a [] r e = absurd e
reserved_from n m a (b ∷ xs) (l, r) (inl e) = ground (arith, e, l)
reserved_from n m a (b ∷ xs) (l, r) (inr e) = ground (arith, l, reserved_from (suc b) m a xs r e)

reserved_ends : (n m : ℕ) (xs : List ℕ) → AreReserved n m xs → n ≤ m
unfolding AreReserved
reserved_ends n m [] r = r
reserved_ends n m (b ∷ xs) (l, r) = ground (arith, l, reserved_ends (suc b) m xs r)

pub reserved_below : (n m a : ℕ) (xs : List ℕ) → AreReserved n m xs → Elem a xs → a < m
unfolding AreReserved
reserved_below n m a [] r e = absurd e
reserved_below n m a (b ∷ xs) (l, r) (inl e) = ground (arith, e, reserved_ends (suc b) m xs r)
reserved_below n m a (b ∷ xs) (l, r) (inr e) = reserved_below (suc b) m a xs r e

-- How a type lies in memory: what it is with its addresses forgotten, and the addresses it holds.
pub record Layout (A V : Type 0) : Type 0 where
  pub value : A → V
  pub addresses : A → List ℕ

-- A copy is the same but for the addresses, and holds only addresses that were free.
pub record IsCopy {A V : Type 0} (layout : Layout A V) (copy : A → Mem A) : Type 0 where
  pub same : (a : A) (n : ℕ) → layout.value (copy a n).0 ≡ layout.value a
  pub reserved : (a : A) (n : ℕ) → AreReserved n (copy a n).1 (layout.addresses (copy a n).0)

-- A type with its deep copy.
pub record Copier (A V : Type 0) : Type 0 where
  pub layout : Layout A V
  pub copy : A → Mem A
  pub correct : IsCopy layout copy
