-- ===== src/Prelude/Text.antt =====
-- std::string and char arrays: the list of their bytes. A char array that starts zeroed is the bytes
-- up to its first NUL, which is all that the code reads of it.
use native.Mathlib.Nat.{pow-succ'}
use Prim.Native.String.{String}
use Prim.Native.Char.{code}
use quantforge_engine.Prelude.{
  ℕ, zero, suc, ◌+◌, ◌-◌, ◌*◌, ◌/◌, ◌%◌, ◌^◌, ◌≤◌, ◌<◌, ◌≡◌, refl, ◌↔◌, inl, inr, Bool, true, false,
  ◌&&◌, List, [], ◌∷◌, ◌++◌, arith, ◌==◌, ltb, if◌then◌else◌, Eq, take, All, All-append, Bool-cases,
}

abbrev pub Text : Type 0
Text = List ℕ

-- The bytes of an ASCII literal.
abbrev pub codes : String → Text
codes String.[] = []
codes (String.◌∷◌ c s) = code c ∷ codes s

abbrev pub text_beq : Text → Text → Bool
text_beq [] [] = true
text_beq [] (y ∷ ys) = false
text_beq (x ∷ xs) [] = false
text_beq (x ∷ xs) (y ∷ ys) = (x == y) && text_beq xs ys

pub text_beq_iff : (xs ys : Text) → (text_beq xs ys ≡ true) ↔ (xs ≡ ys)
text_beq_iff [] [] = (λ _. refl, λ _. refl)
text_beq_iff [] (y ∷ ys) = (λ h. cc, λ h. cc)
text_beq_iff (x ∷ xs) [] = (λ h. cc, λ h. cc)
text_beq_iff (x ∷ xs) (y ∷ ys) =
    let ih = text_beq_iff xs ys in (λ h. ground arith, λ h. ground arith)

instance abbrev pub text_eq : Eq Text
text_eq = record { beq = text_beq; beq_iff = text_beq_iff }

-- `s.c_str()` read as a C string: the bytes before the first NUL.
abbrev pub c_str : Text → Text
c_str [] = []
c_str (x ∷ xs) = if x == 0 then [] else x ∷ c_str xs

-- `strncpy(dst, src, n)` into a zeroed array of more than `n` bytes.
abbrev pub strncpy : Text → ℕ → Text
strncpy src n = take n (c_str src)

-- `strncmp(a, b, n) == 0`.
abbrev pub strncmp_eq : Text → Text → ℕ → Bool
strncmp_eq a b n = text_beq (take n (c_str a)) (take n (c_str b))

-- What `<<` prints for an unsigned integer; a uint64_t has at most twenty digits.
pub decimal_from : ℕ → ℕ → Text
decimal_from zero n = []
decimal_from (suc f) n =
    let rest = decimal_from f (n / 10) in
    if ltb n 10 then (48 + n) ∷ [] else rest ++ ((48 + n % 10) ∷ [])

unfoldable pub decimal : ℕ → Text
unfolding decimal_from
decimal n = decimal_from 20 n

-- The number that digits write, and the converse of `decimal`.
abbrev pub value_from : ℕ → Text → ℕ
value_from v [] = v
value_from v (c ∷ cs) = value_from (v * 10 + (c - 48)) cs

value_from-append :
    (xs ys : Text) (v : ℕ) → value_from v (xs ++ ys) ≡ value_from (value_from v xs) ys
value_from-append [] ys v = refl
value_from-append (x ∷ xs) ys v = value_from-append xs ys (v * 10 + (x - 48))

n_div : (f n : ℕ) → n < 10 ^ suc f → n / 10 < 10 ^ f
n_div f n h = let e : 10 ^ suc f ≡ 10 * 10 ^ f = pow-succ' 10 f in omega arith

value-decimal_from : (f n : ℕ) → n < 10 ^ f → value_from 0 (decimal_from f n) ≡ n
unfolding decimal_from
value-decimal_from zero n h = omega arith
value-decimal_from (suc f) n h = elim (Bool-cases (ltb n 10)) [
  | inl small ↦ rw small (ground arith)
  | inr more ↦
      rw (more, value_from-append (decimal_from f (n / 10)) ((48 + n % 10) ∷ []) 0)
        (omega (arith, value-decimal_from f (n / 10) (n_div f n h)))
]

abbrev pub IsDigit : ℕ → Type 0
IsDigit c = (48 ≤ c) × (c < 58)

decimal_from-IsDigit : (f n : ℕ) → All IsDigit (decimal_from f n)
unfolding decimal_from
decimal_from-IsDigit zero n = tt
decimal_from-IsDigit (suc f) n = elim (Bool-cases (ltb n 10)) [
  | inl small ↦ rw small (ground arith, tt)
  | inr more ↦
      rw more (All-append IsDigit _ _ (decimal_from-IsDigit f (n / 10)) ((omega arith), tt))
]

pub value-decimal : (n : ℕ) → n < 10 ^ 20 → value_from 0 (decimal n) ≡ n
unfolding decimal
value-decimal n h = value-decimal_from 20 n h

pub decimal-IsDigit : (n : ℕ) → All IsDigit (decimal n)
unfolding decimal
decimal-IsDigit n = decimal_from-IsDigit 20 n
