-- ===== src/Treasury/Encoding/RoundTrip.antt =====
-- The bytes of `u256be` are the number.
use bufi.Base.{
  ℕ, zero, suc, ◌+◌, ◌*◌, ◌/◌, ◌%◌, ◌^◌, ◌≤◌, ◌<◌, ◌≡◌, false, refl, sym, ap, ◌⊎◌, none, some, List,
  [], ◌∷◌, ◌++◌, arith, length, All, length-append, inl, inr, Bool-cases, ◌==◌,
}
use bufi.Base.Int.{ℤ, pos, negsuc}
use bufi.Treasury.Encoding.{big_endian, word, words_from, u256be}

-- The number that bytes stand for, the highest first.
abbrev pub value_from : ℕ → List ℕ → ℕ
value_from acc [] = acc
value_from acc (b ∷ bs) = value_from (acc * 256 + b) bs

value_from-append :
    (acc : ℕ) (xs ys : List ℕ) → value_from acc (xs ++ ys) ≡ value_from (value_from acc xs) ys
value_from-append acc [] ys = refl
value_from-append acc (x ∷ xs) ys = value_from-append (acc * 256 + x) xs ys

-- The bytes of a word shift what stands before them, and add the word.
value_from-big_endian :
    (n acc w : ℕ) → w < 256 ^ n → value_from acc (big_endian n w) ≡ acc * 256 ^ n + w
unfolding big_endian
value_from-big_endian zero acc w h = omega arith
value_from-big_endian (suc n) acc w h =
    rw
      (
        value_from-append acc (big_endian n (w / 256)) ((w % 256) ∷ []),
        value_from-big_endian n acc (w / 256) (omega arith),
        pow_step,
      )
      (omega arith)
  where
    pow_step : 256 ^ suc n ≡ 256 ^ n * 256
    pow_step = omega arith

length-big_endian : (n w : ℕ) → length (big_endian n w) ≡ n
unfolding big_endian
length-big_endian zero w = refl
length-big_endian (suc n) w =
    rw (length-append (big_endian n (w / 256)) ((w % 256) ∷ []), length-big_endian n (w / 256))
      (omega arith)

All-append :
    (xs ys : List ℕ) → All (λ b. b < 256) xs → All (λ b. b < 256) ys → All (λ b. b < 256) (xs ++ ys)
All-append [] ys p q = q
All-append (x ∷ xs) ys p q = (p.0, All-append xs ys p.1 q)

big_endian-bytes : (n w : ℕ) → All (λ b. b < 256) (big_endian n w)
unfolding big_endian
big_endian-bytes zero w = tt
big_endian-bytes (suc n) w =
    All-append (big_endian n (w / 256)) ((w % 256) ∷ []) (big_endian-bytes n (w / 256))
      (omega arith, tt)

words_from-bytes :
    (v rounds i : ℕ)
    → (length (words_from v rounds i) ≡ rounds * 8) × All (λ b. b < 256) (words_from v rounds i)
unfolding words_from
words_from-bytes v zero i = (omega arith, tt)
words_from-bytes v (suc rounds) i =
    let rest = words_from-bytes v rounds (suc i) in
    (
      rw
          (
            length-append (big_endian 8 (word v i)) (words_from v rounds (suc i)),
            length-big_endian 8 (word v i),
          )
          (omega (arith, rest.0)),
      All-append (big_endian 8 (word v i)) _ (big_endian-bytes 8 (word v i)) rest.1,
    )

-- One more word.
value_from-words :
    (v acc rounds i : ℕ)
    → value_from acc (words_from v (suc rounds) i)
      ≡ value_from (acc * 2 ^ 64 + word v i) (words_from v rounds (suc i))
unfolding words_from word
value_from-words v acc rounds i = rw (
  value_from-append acc (big_endian 8 (word v i)) (words_from v rounds (suc i)),
  value_from-big_endian 8 acc (word v i) (omega arith),
)

joined :
    (v : ℕ)
    → v < 2 ^ 256
    → value_from
        ((((0 * 2 ^ 64 + word v 0) * 2 ^ 64 + word v 1) * 2 ^ 64 + word v 2) * 2 ^ 64 + word v 3)
        (words_from v 0 4)
      ≡ v
unfolding words_from word
joined v h = omega arith

value_from-four : (v : ℕ) → v < 2 ^ 256 → value_from 0 (words_from v 4 0) ≡ v
value_from-four v h =
    rw
      (
        value_from-words v 0 3 0,
        value_from-words v (0 * 2 ^ 64 + word v 0) 2 1,
        value_from-words v ((0 * 2 ^ 64 + word v 0) * 2 ^ 64 + word v 1) 1 2,
        value_from-words v (((0 * 2 ^ 64 + word v 0) * 2 ^ 64 + word v 1) * 2 ^ 64 + word v 2) 0 3,
      )
      (joined v h)

-- The bytes of a call.
abbrev pub Encodes : ℤ → List ℕ → Type 0
Encodes z bs = (length bs ≡ 32) × All (λ b. b < 256) bs × (z ≡ pos (value_from 0 bs))

-- A number of 256 bits is encoded in 32 bytes that stand for it, the highest first; any other
-- number, a negative one too, is refused.
pub u256be-Encodes :
    (z : ℤ)
    → ((bs : List ℕ) × (u256be z ≡ some bs) × Encodes z bs)
      ⊎ ((u256be z ≡ none) × ((v : ℕ) → z ≡ pos v → 2 ^ 256 ≤ v))
unfolding u256be
u256be-Encodes (negsuc n) = inr (refl, λ v e. absurd (cc))
u256be-Encodes (pos v) = elim (Bool-cases (v / 2 ^ 256 == 0)) [
  | inl e ↦
      let small : v < 2 ^ 256 = ground arith in
      let bytes = words_from-bytes v 4 0 in
      inl (
        words_from v 4 0,
        rw e,
        (omega (arith, bytes.0), bytes.1, ap pos (sym (value_from-four v small))),
      )
  | inr e ↦ inr (rw e, large e)
]
  where
    large : (v / 2 ^ 256 == 0) ≡ false → (w : ℕ) → pos v ≡ pos w → 2 ^ 256 ≤ w
    large e w f = ground arith
