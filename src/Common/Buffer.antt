-- ===== src/Common/Buffer.antt =====
-- Pointers with a size, and writes into a buffer.
use Prim.Native.Nat.{ℕ, zero, suc, ◌+◌, ◌≤◌}
use mathlib.Core.Path.{◌≡◌, refl, sym, ap, ◌∙◌}
use mathlib.Core.List.{List, [], ◌∷◌, ◌++◌, append_assoc}
use native.Mathlib.Omega.{arith}
use midi2pwmv2_libcomm.Common.Lists.{
  length, take, drop, length-append, length-drop, length-take, take_append, drop_append,
}

-- A `const std::uint8_t*` and a size: null with any size, or a pointer to that many bytes.
pub data Span : Type 0 where
  null : ℕ → Span
  points : List ℕ → Span

abbrev pub span_size : Span → ℕ
span_size (null n) = n
span_size (points bytes) = length bytes

-- `memcpy` or `copy` of `bytes` to `offset`. The callers keep within the buffer.
pub store : List ℕ → ℕ → List ℕ → List ℕ
store buffer offset bytes = take offset buffer ++ (bytes ++ drop (offset + length bytes) buffer)

drop-nil : (n : ℕ) → drop {A = ℕ} n [] ≡ []
drop-nil zero = refl
drop-nil (suc n) = refl

pub drop-drop : (m n : ℕ) (xs : List ℕ) → drop m (drop n xs) ≡ drop (n + m) xs
drop-drop m zero xs = ap (λ k. drop k xs) (omega arith)
drop-drop m (suc n) [] = drop-nil m ∙ sym (drop-nil (suc n + m))
drop-drop m (suc n) (x ∷ xs) =
    let one_more : suc n + m ≡ suc (n + m) = omega arith in rw one_more (drop-drop m n xs)

-- A write right behind what has been written.
pub store_next :
    (written rest bytes : List ℕ) (offset : ℕ)
    → length written ≡ offset
    → store (written ++ rest) offset bytes ≡ (written ++ bytes) ++ drop (length bytes) rest
unfolding store
store_next written rest bytes offset h =
    let past : drop (offset + length bytes) (written ++ rest) ≡ drop (length bytes) rest =
      sym (drop-drop (length bytes) offset (written ++ rest))
      ∙ ap (drop (length bytes)) (drop_append offset written rest h) in
    rw (take_append offset written rest h, past) (sym (append_assoc written bytes _))

pub length-store :
    (buffer : List ℕ) (offset : ℕ) (bytes : List ℕ)
    → offset + length bytes ≤ length buffer
    → length (store buffer offset bytes) ≡ length buffer
unfolding store
length-store buffer offset bytes h = omega (
  arith,
  length-append (take offset buffer) (bytes ++ drop (offset + length bytes) buffer),
  length-append bytes (drop (offset + length bytes) buffer),
  length-take offset buffer,
  length-drop (offset + length bytes) buffer,
)
