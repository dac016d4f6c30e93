-- ===== src/BinaryParser/BigEndian.antt =====
-- savate/binary_parser.py: `str_to_long` and `parse`.
use native.Mathlib.Numerals.{towards_suc}
use native.Mathlib.Nat.{pow-suc}
use savate.Prelude.{
  Bytes, [], ap, arith, length, length-append, refl, reverse, reverse-append, suc, take-append,
  zero, ℕ, ◌%◌, ◌*◌, ◌++◌, ◌+◌, ◌/◌, ◌<◌, ◌^◌, ◌∙◌, ◌∷◌, ◌≡◌, ◌≤◌,
}
use savate.BinaryParser.{Parser, object_size, parse, str_to_long, str_to_long_from}

-- The number that a string of bytes spells, most significant byte first.
pub big_endian : Bytes → ℕ
big_endian [] = 0
big_endian (b ∷ bs) = b * 256 ^ length bs + big_endian bs

-- Its inverse at a given width.
unfoldable pub to_big_endian : ℕ → ℕ → Bytes
to_big_endian zero n = []
to_big_endian (suc w) n = to_big_endian w (n / 256) ++ (n % 256) ∷ []

-- The number in `bs` read in the source's order, from the last byte on.
little_endian : Bytes → ℕ
little_endian [] = 0
little_endian (b ∷ bs) = b + 256 * little_endian bs

pow_8 : (c : ℕ) → 2 ^ ((c + 1) * 8) ≡ 256 * 2 ^ (c * 8)
pow_8 c = let e : (c + 1) * 8 ≡ c * 8 + 8 = omega arith in rw e (simp towards_suc (omega arith))

str_to_long_from-little_endian :
    (c r : ℕ) (bs : Bytes) → str_to_long_from c r bs ≡ r + little_endian bs * 2 ^ (c * 8)
unfolding str_to_long_from little_endian
str_to_long_from-little_endian c r [] = omega arith
str_to_long_from-little_endian c r (b ∷ bs) =
    str_to_long_from-little_endian (c + 1) (r + b * 2 ^ (c * 8)) bs
    ∙ omega (arith, ap (λ (t : ℕ). little_endian bs * t) (pow_8 c))

little_endian-append_one :
    (bs : Bytes) (b : ℕ) → little_endian (bs ++ b ∷ []) ≡ little_endian bs + 256 ^ length bs * b
unfolding little_endian
little_endian-append_one [] b = omega arith
little_endian-append_one (c ∷ bs) b =
    omega (arith, little_endian-append_one bs b, ap (λ (t : ℕ). t * b) (pow-suc 256 (length bs)))

length-reverse : (bs : Bytes) → length (reverse bs) ≡ length bs
length-reverse [] = refl
length-reverse (b ∷ bs) =
    ap length (reverse-append (b ∷ []) bs)
    ∙ omega (arith, length-append (reverse bs) (b ∷ []), length-reverse bs)

little_endian-reverse : (bs : Bytes) → little_endian (reverse bs) ≡ big_endian bs
unfolding big_endian little_endian
little_endian-reverse [] = refl
little_endian-reverse (b ∷ bs) =
    ap little_endian (reverse-append (b ∷ []) bs)
    ∙ ground (
      arith,
      little_endian-append_one (reverse bs) b,
      little_endian-reverse bs,
      length-reverse bs,
    )

-- `str_to_long` is the big-endian reading of its argument.
pub str_to_long-eq-big_endian : (bs : Bytes) → str_to_long bs ≡ big_endian bs
unfolding str_to_long
str_to_long-eq-big_endian bs =
    str_to_long_from-little_endian 0 0 (reverse bs) ∙ omega (arith, little_endian-reverse bs)

big_endian-append_one : (bs : Bytes) (b : ℕ) → big_endian (bs ++ b ∷ []) ≡ 256 * big_endian bs + b
unfolding big_endian
big_endian-append_one [] b = omega arith
big_endian-append_one (c ∷ bs) b = omega (
  arith,
  big_endian-append_one bs b,
  ap (λ (t : ℕ). c * 256 ^ t) (length-append bs (b ∷ [])),
  ap (λ (t : ℕ). c * t) (pow_length (length bs)),
)
  where
    pow_length : (n : ℕ) → 256 ^ (n + 1) ≡ 256 * 256 ^ n
    pow_length n = simp towards_suc (omega arith)

pub length-to_big_endian : (w n : ℕ) → length (to_big_endian w n) ≡ w
unfolding to_big_endian
length-to_big_endian zero n = refl
length-to_big_endian (suc w) n = omega (
  arith,
  length-append (to_big_endian w (n / 256)) ((n % 256) ∷ []),
  length-to_big_endian w (n / 256),
)

big_endian-to_big_endian : (w n : ℕ) → n < 256 ^ w → big_endian (to_big_endian w n) ≡ n
unfolding to_big_endian big_endian
big_endian-to_big_endian zero n h = omega arith
big_endian-to_big_endian (suc w) n h =
    big_endian-append_one (to_big_endian w (n / 256)) (n % 256)
    ∙ omega (arith, big_endian-to_big_endian w (n / 256) (omega (arith, pow-suc 256 w)))

-- A number that fits `w` bytes survives being written big-endian and read by `str_to_long`.
pub str_to_long-to_big_endian : (w n : ℕ) → n < 256 ^ w → str_to_long (to_big_endian w n) ≡ n
str_to_long-to_big_endian w n h =
    str_to_long-eq-big_endian (to_big_endian w n) ∙ big_endian-to_big_endian w n h

module _ {O : Type 0} where
  -- `parse` looks at the first `object_size` bytes alone.
  pub parse-append :
      (p : Parser O) (d e : Bytes) → object_size p ≤ length d → parse p (d ++ e) ≡ parse p d
  unfolding parse
  parse-append p d e h = rw (take-append (object_size p) d e h)
