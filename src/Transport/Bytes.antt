-- ===== src/Transport/Bytes.antt =====
-- Memory as the serializers of cpp/transport/kafka_publisher.cpp write it: `memcpy` into a buffer and
-- the little-endian integers of the x86-64 machine that cpp/main/main.cpp names.
use native.Mathlib.Nat.{pow-succ'}
use quantforge_engine.Prelude.{
  ℕ, zero, suc, ◌+◌, ◌-◌, ◌*◌, ◌/◌, ◌%◌, ◌^◌, ◌≤◌, ◌<◌, ◌≡◌, refl, [], ◌∷◌, ap, ◌∙◌, arith, length,
  take, drop, ltb, if◌then◌else◌, ◌≢◌, All,
}
use quantforge_engine.Prelude.Int.{ℤ, pos, negsuc, ◌≤ℤ◌}
use quantforge_engine.Prelude.Text.{Text, c_str}

-- The bytes of an unsigned integer of `k` bytes, the lowest first.
unfoldable pub le_bytes : ℕ → ℕ → Text
le_bytes zero n = []
le_bytes (suc k) n = (n % 256) ∷ le_bytes k (n / 256)

-- The integer that such bytes hold.
unfoldable pub le_value : Text → ℕ
le_value [] = 0
le_value (b ∷ bs) = b + 256 * le_value bs

-- The object of an `int`: two's complement with 32 bits, and the way back.
abbrev pub bits32 : ℤ → ℕ
bits32 (pos n) = n % 2 ^ 32
bits32 (negsuc n) = 2 ^ 32 - 1 - n % 2 ^ 32

abbrev pub signed32 : ℕ → ℤ
signed32 w = if ltb w (2 ^ 31) then pos w else negsuc (2 ^ 32 - w - 1)

abbrev overlay : Text → Text → Text
overlay [] buf = buf
overlay (b ∷ bs) [] = []
overlay (b ∷ bs) (x ∷ buf) = b ∷ overlay bs buf

-- `memcpy(buf.data() + off, bs, n)` with the `n` bytes `bs`; nothing is written behind the end.
unfoldable pub memcpy : Text → ℕ → Text → Text
memcpy buf zero bs = overlay bs buf
memcpy [] (suc off) bs = []
memcpy (x ∷ buf) (suc off) bs = x ∷ memcpy buf off bs

-- The `n` bytes from `off`.
abbrev pub slice : ℕ → ℕ → Text → Text
slice off n buf = take n (drop off buf)

-- A char array of `n` bytes that was zeroed and then filled with a text.
abbrev pub char_array : ℕ → Text → Text
char_array zero s = []
char_array (suc n) [] = 0 ∷ char_array n []
char_array (suc n) (c ∷ cs) = c ∷ char_array n cs

pub length-le_bytes : (k n : ℕ) → length (le_bytes k n) ≡ k
unfolding le_bytes
length-le_bytes zero n = refl
length-le_bytes (suc k) n = ap suc (length-le_bytes k (n / 256))

pub length-char_array : (n : ℕ) (s : Text) → length (char_array n s) ≡ n
length-char_array zero s = refl
length-char_array (suc n) [] = ap suc (length-char_array n [])
length-char_array (suc n) (c ∷ cs) = ap suc (length-char_array n cs)

pub le_value-le_bytes : (k n : ℕ) → n < 256 ^ k → le_value (le_bytes k n) ≡ n
unfolding le_bytes le_value
le_value-le_bytes zero n h = omega arith
le_value-le_bytes (suc k) n h =
    let e : 256 ^ suc k ≡ 256 * 256 ^ k = pow-succ' 256 k in
    omega (arith, le_value-le_bytes k (n / 256) (omega arith))

pub signed32-bits32 :
    (z : ℤ) → negsuc (2 ^ 31 - 1) ≤ℤ z → z ≤ℤ pos (2 ^ 31 - 1) → signed32 (bits32 z) ≡ z
signed32-bits32 (pos n) lo hi = ground arith
signed32-bits32 (negsuc n) lo hi = ground arith

pub bits32-lt : (z : ℤ) → bits32 z < 2 ^ 32
bits32-lt (pos n) = omega arith
bits32-lt (negsuc n) = omega arith

-- An array holds its text up to the first zero.
pub c_str-char_array :
    (n : ℕ) (s : Text) → length s < n → All (λ c. c ≢ 0) s → c_str (char_array n s) ≡ s
c_str-char_array zero s h _ = absurd (omega arith)
c_str-char_array (suc n) [] h _ = refl
c_str-char_array (suc n) (c ∷ cs) h (nz, rest) =
    ground (arith, c_str-char_array n cs (omega arith) rest)

length-overlay : (bs buf : Text) → length bs ≤ length buf → length (overlay bs buf) ≡ length buf
length-overlay [] buf h = refl
length-overlay (b ∷ bs) [] h = absurd (omega arith)
length-overlay (b ∷ bs) (x ∷ buf) h = ap suc (length-overlay bs buf (omega arith))

take-overlay : (bs buf : Text) → length bs ≤ length buf → take (length bs) (overlay bs buf) ≡ bs
take-overlay [] buf h = refl
take-overlay (b ∷ bs) [] h = absurd (omega arith)
take-overlay (b ∷ bs) (x ∷ buf) h = ap (λ r. b ∷ r) (take-overlay bs buf (omega arith))

pub length-memcpy :
    (buf : Text) (off : ℕ) (bs : Text)
    → off + length bs ≤ length buf
    → length (memcpy buf off bs) ≡ length buf
unfolding memcpy
length-memcpy buf zero bs h = length-overlay bs buf (omega arith)
length-memcpy [] (suc off) bs h = refl
length-memcpy (x ∷ buf) (suc off) bs h = ap suc (length-memcpy buf off bs (omega arith))

-- What was written is read back.
pub slice-memcpy_self :
    (buf : Text) (off n : ℕ) (bs : Text)
    → length bs ≡ n
    → off + n ≤ length buf
    → slice off n (memcpy buf off bs) ≡ bs
unfolding memcpy
slice-memcpy_self buf zero n bs e h =
    ap (λ m. take m (overlay bs buf)) (omega arith) ∙ take-overlay bs buf (omega arith)
slice-memcpy_self [] (suc off) n bs e h = absurd (omega arith)
slice-memcpy_self (x ∷ buf) (suc off) n bs e h = slice-memcpy_self buf off n bs e (omega arith)

-- A write changes nothing in front of it.
pub slice-memcpy_before :
    (buf : Text) (i n off : ℕ) (bs : Text)
    → i + n ≤ off
    → slice i n (memcpy buf off bs) ≡ slice i n buf
unfolding memcpy
slice-memcpy_before buf zero zero off bs h = refl
slice-memcpy_before buf (suc i) n zero bs h = absurd (omega arith)
slice-memcpy_before buf zero (suc n) zero bs h = absurd (omega arith)
slice-memcpy_before [] (suc i) n (suc off) bs h = refl
slice-memcpy_before [] zero (suc n) (suc off) bs h = refl
slice-memcpy_before (x ∷ buf) (suc i) n (suc off) bs h =
    slice-memcpy_before buf i n off bs (omega arith)
slice-memcpy_before (x ∷ buf) zero (suc n) (suc off) bs h =
    ap (λ r. x ∷ r) (slice-memcpy_before buf zero n off bs (omega arith))
