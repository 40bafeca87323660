-- ===== src/Subgraph/Base64/Alphabet.antt =====
-- The 64 digits of packages/subgraph-arc/src/shared/base64.ts: each is found at its own place, and
-- none is white space or padding.
use bufi.Base.{
  ℕ, zero, suc, ◌%◌, ◌<◌, ◌==◌, ◌≡◌, refl, Bool, true, false, ◌&&◌, ◌||◌, not, Option, none, some,
  arith, and_true, ==_iff, Bool-cases, inl, inr,
}
use bufi.Subgraph.Base64.{alphabet, is_whitespace, index_of, letter, sextet}

-- A test at every number below a bound.
abbrev all_below : ℕ → (ℕ → Bool) → Bool
all_below zero test = true
all_below (suc n) test = test n && all_below n test

all_below-at : (n : ℕ) (test : ℕ → Bool) (i : ℕ) → all_below n test ≡ true → i < n → test i ≡ true
all_below-at zero test i h lt = absurd (omega arith)
all_below-at (suc n) test i h lt = elim (Bool-cases (i == n)) [
  | inl e ↦ rw ((==_iff i n).0 e) (and_true (test n) (all_below n test) h).0
  | inr e ↦ all_below-at n test i (and_true (test n) (all_below n test) h).1 (ground arith)
]

abbrev is_some : Option ℕ → ℕ → Bool
is_some none i = false
is_some (some j) i = j == i

is_some_eq : (o : Option ℕ) (i : ℕ) → is_some o i ≡ true → o ≡ some i
is_some_eq none i h = cc
is_some_eq (some j) i h = rw ((==_iff j i).0 h) refl

abbrev is_digit : ℕ → Bool
is_digit i =
    is_some (index_of (letter i alphabet) 0 alphabet) i
    && not (is_whitespace (letter i alphabet))
    && not (letter i alphabet == b'=')

digits_test : all_below 64 is_digit ≡ true
unfolding index_of letter
digits_test = refl

three_tests : (a b c : Bool) → (a && not b && not c) ≡ true → (a ≡ true) × (b ≡ false) × (c ≡ false)
three_tests a b c h = ground arith

digit-facts :
    (n : ℕ)
    → (is_some (index_of (sextet n) 0 alphabet) (n % 64) ≡ true)
      × (is_whitespace (sextet n) ≡ false)
      × ((sextet n == b'=') ≡ false)
unfolding sextet
digit-facts n =
    three_tests (is_some (index_of (sextet n) 0 alphabet) (n % 64)) (is_whitespace (sextet n))
      (sextet n == b'=') (all_below-at 64 is_digit (n % 64) digits_test (omega arith))

pub index_of-sextet : (n : ℕ) → index_of (sextet n) 0 alphabet ≡ some (n % 64)
index_of-sextet n = is_some_eq (index_of (sextet n) 0 alphabet) (n % 64) (digit-facts n).0

pub sextet-black : (n : ℕ) → is_whitespace (sextet n) ≡ false
sextet-black n = (digit-facts n).1

pub sextet-unpadded : (n : ℕ) → (sextet n == b'=') ≡ false
sextet-unpadded n = (digit-facts n).2

abbrev opens_json : ℕ → Bool
opens_json c = c == b'{' || c == b'['

no_json_test : all_below 64 (λ i. not (opens_json (letter i alphabet))) ≡ true
unfolding letter
no_json_test = refl

-- No digit opens an object or an array.
pub sextet-no_json : (n : ℕ) → ((sextet n == b'{') ≡ false) × ((sextet n == b'[') ≡ false)
unfolding sextet
sextet-no_json n = ground (
  arith,
  all_below-at 64 (λ i. not (opens_json (letter i alphabet))) (n % 64) no_json_test (omega arith),
)
