-- ===== src/Common/Words.antt =====
-- Little-endian words: the bytes of a number, and the number that bytes stand for.
use Prim.Native.Nat.{ℕ, zero, suc, ◌+◌, ◌*◌, ◌/◌, ◌%◌, ◌^◌, ◌≤◌, ◌<◌}
use mathlib.Core.Path.{◌≡◌, refl, sym, ap, ap₂, ◌∙◌}
use mathlib.Core.List.{List, [], ◌∷◌}
use native.Mathlib.Omega.{arith}
use native.Mathlib.Nat.{pow-suc}
use midi2pwmv2_libcomm.Common.Lists.{length, All}

abbrev pub IsByte : ℕ → Type 0
IsByte b = b < 256

abbrev pub le_bytes : ℕ → ℕ → List ℕ
le_bytes zero v = []
le_bytes (suc n) v = (v % 256) ∷ le_bytes n (v / 256)

abbrev pub le_word : List ℕ → ℕ
le_word [] = 0
le_word (b ∷ bs) = b + 256 * le_word bs

length-le_bytes : (n v : ℕ) → length (le_bytes n v) ≡ n
length-le_bytes zero v = refl
length-le_bytes (suc n) v = ap suc (length-le_bytes n (v / 256))

pub le_bytes-IsByte : (n v : ℕ) → All IsByte (le_bytes n v)
le_bytes-IsByte zero v = tt
le_bytes-IsByte (suc n) v = (omega arith, le_bytes-IsByte n (v / 256))

pub le_word-le_bytes : (n v : ℕ) → v < 256 ^ n → le_word (le_bytes n v) ≡ v
le_word-le_bytes zero v h = omega arith
le_word-le_bytes (suc n) v h =
    omega (arith, le_word-le_bytes n (v / 256) (omega (arith, pow-suc 256 n)))

le_word-lt : (bs : List ℕ) → All IsByte bs → le_word bs < 256 ^ length bs
le_word-lt [] h = omega arith
le_word-lt (b ∷ bs) h = omega (arith, le_word-lt bs h.1, h.0, pow-suc 256 (length bs))

-- Bytes are read back from the word that they make up.
pub le_bytes-le_word : (bs : List ℕ) → All IsByte bs → le_bytes (length bs) (le_word bs) ≡ bs
le_bytes-le_word [] h = refl
le_bytes-le_word (b ∷ bs) h =
    let low : (b + 256 * le_word bs) % 256 ≡ b = omega (arith, h.0) in
    let high : (b + 256 * le_word bs) / 256 ≡ le_word bs = omega (arith, h.0) in
    rw (low, high) (ap (λ r. b ∷ r) (le_bytes-le_word bs h.1))

pub le_word_injective :
    (xs ys : List ℕ)
    → All IsByte xs
    → All IsByte ys
    → length xs ≡ length ys
    → le_word xs ≡ le_word ys
    → xs ≡ ys
le_word_injective xs ys hx hy l e =
    sym (le_bytes-le_word xs hx) ∙ ap₂ le_bytes l e ∙ le_bytes-le_word ys hy

-- Four bytes at most make a 32-bit word.
pub short_word : (bs : List ℕ) → All IsByte bs → length bs ≤ 4 → le_word bs < 2 ^ 32
short_word [] h l = omega arith
short_word (a ∷ []) h l = omega arith
short_word (a ∷ b ∷ []) h l = omega arith
short_word (a ∷ b ∷ c ∷ []) h l = omega arith
short_word (a ∷ b ∷ c ∷ d ∷ []) h l = omega arith
short_word (a ∷ b ∷ c ∷ d ∷ e ∷ rest) h l = absurd (omega arith)
