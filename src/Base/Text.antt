-- ===== src/Base/Text.antt =====
-- Go strings as native texts: concatenation, prefixes, and decimal numbers as `fmt` prints them.
-- A position counts bytes, as in Go; a prefix that ends inside a character drops that character,
-- which differs from Go only for texts that are not ASCII.
use Prim.Native.Nat.{ℕ, zero, suc, ◌-◌, ◌/◌, ◌%◌, ◌^◌, ◌≤◌, compare as compare_ℕ, Ordering}
use Prim.Native.Char.{Char, len_utf8}
use Prim.Native.String.append
use Prim.Native.String.len
use Prim.Native.String.slice
use Prim.Native.String.{String, [], ◌∷◌, ◌++◌, len, slice, fits}
use mathlib.Core.Path.{◌≡◌, refl, sym, ap, ◌∙◌}
use mathlib.Core.Bool.{Bool}
use mathlib.Core.List.{List}
use native.Mathlib.Omega.{arith}
use text.Mathlib.Text.{◌==◌}
use text.Mathlib.TextPositions.{slice-zero-zero}
use kwarm.Base.Tests.{ltb, if◌then◌else◌}

abbrev pub str_eq : String → String → Bool
str_eq a b = a == b

-- What `fmt.Sprintf` makes of its pieces.
abbrev pub concat : List String → String
concat List.[] = ""
concat (List.◌∷◌ s ss) = s ++ concat ss

-- `if len(s) > k { s = s[:k] }`
unfoldable pub truncate : ℕ → String → String
truncate k s = if ltb k (len s) then slice s 0 k else s

len-fits :
    (o : Ordering) (c : Char) (r : String) (k : ℕ)
    → compare_ℕ (len_utf8 c) k ≡ o
    → len r ≤ k - len_utf8 c
    → len (fits o c r) ≤ k
len-fits Ordering.lt c r k e h = rw (len.cons c r) (ground arith)
len-fits Ordering.eq c r k e h = rw (len.cons c r) (ground arith)
len-fits Ordering.gt c r k e h = rw len.nil (omega arith)

pub len-slice-le : (s : String) (k : ℕ) → len (slice s 0 k) ≤ k
len-slice-le [] k = rw (slice.nil 0 k, len.nil) (omega arith)
len-slice-le (c ∷ s) k =
    rw (slice.cons-zero c s k) (len-fits _ c _ k refl (len-slice-le s (k - len_utf8 c)))

-- What follows a text that fills the prefix does not matter.
pub slice-append_absorb : (p s : String) (k : ℕ) → k ≤ len p → slice (p ++ s) 0 k ≡ slice p 0 k
slice-append_absorb [] s k h = rw (none_left k h, slice-zero-zero ([] ++ s)) (sym (slice.nil 0 0))
  where
    none_left : (k : ℕ) → k ≤ len [] → k ≡ 0
    none_left k h = omega (arith, len.nil)
slice-append_absorb (c ∷ p) s k h =
    ap (λ t. slice t 0 k) (append.cons c p s)
    ∙ slice.cons-zero c (p ++ s) k
    ∙ ap (fits (compare_ℕ (len_utf8 c) k) c)
        (slice-append_absorb p s (k - len_utf8 c) (omega (arith, len.cons c p)))
    ∙ sym (slice.cons-zero c p k)

fits_whole :
    (o : Ordering) (c : Char) (r s : String) (k : ℕ)
    → compare_ℕ (len_utf8 c) k ≡ o
    → len_utf8 c ≤ k
    → r ≡ s
    → fits o c r ≡ c ∷ s
fits_whole Ordering.lt c r s k e h p = ap (◌∷◌ c) p
fits_whole Ordering.eq c r s k e h p = ap (◌∷◌ c) p
fits_whole Ordering.gt c r s k e h p = absurd (ground arith)

-- A prefix that is long enough is the whole text.
pub slice_whole : (s : String) (k : ℕ) → len s ≤ k → slice s 0 k ≡ s
slice_whole [] k h = slice.nil 0 k
slice_whole (c ∷ s) k h =
    slice.cons-zero c s k
    ∙ fits_whole _ c _ s k refl (omega (arith, len.cons c s))
        (slice_whole s (k - len_utf8 c) (omega (arith, len.cons c s)))

pub truncate-slice : (k : ℕ) (s : String) → truncate k s ≡ slice s 0 k
unfolding truncate
truncate-slice k s = ground (arith, slice_whole s k)

digit : ℕ → String
digit n = elim n [
  | zero ↦ "0"
  | suc zero ↦ "1"
  | suc (suc zero) ↦ "2"
  | suc (suc (suc zero)) ↦ "3"
  | suc (suc (suc (suc zero))) ↦ "4"
  | suc (suc (suc (suc (suc zero)))) ↦ "5"
  | suc (suc (suc (suc (suc (suc zero))))) ↦ "6"
  | suc (suc (suc (suc (suc (suc (suc zero)))))) ↦ "7"
  | suc (suc (suc (suc (suc (suc (suc (suc zero))))))) ↦ "8"
  | _ ↦ "9"
]

-- A number has at most as many digits as it counts, so `n + 1` rounds are enough.
digits_from : ℕ → ℕ → String
digits_from zero n = ""
digits_from (suc f) n =
    let more = digits_from f (n / 10) ++ digit (n % 10) in if ltb n 10 then digit n else more

-- `%d` of an `int` that is not negative
unfoldable pub decimal : ℕ → String
unfolding digits_from digit
decimal n = digits_from (suc n) n

-- `%d` of an `int32`
unfoldable pub decimal32 : ℕ → String
unfolding decimal
decimal32 n = if ltb n (2 ^ 31) then decimal n else "-" ++ decimal (2 ^ 32 - n)

decimal_test : decimal32 1050 ≡ "1050"
unfolding decimal32
decimal_test = refl
