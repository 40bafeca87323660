-- ===== src/Treasury/SdkArgs/Digits.antt =====
-- The decimal texts that packages/weighted-treasury/src/squads/sdk-args.ts hands to `new BN`, read
-- back.
use bufi.Base.{
  ℕ, zero, suc, ◌+◌, ◌-◌, ◌*◌, ◌/◌, ◌%◌, ◌≤◌, ◌==◌, ◌≡◌, ap, ◌∙◌, [], ◌∷◌, arith, ltb, Bool-cases,
  inl, inr, if◌then◌else◌,
}
use bufi.Base.Int.{ℤ, pos, negsuc}
use bufi.Base.Texts.{Text}
use bufi.Treasury.SdkArgs.{decimal_from, decimal, to_string}

unfoldable pub read_digits : ℕ → Text → ℕ
read_digits n [] = n
read_digits n (c ∷ cs) = read_digits (n * 10 + (c - 48)) cs

abbrev signed : ℕ → ℤ
signed zero = pos 0
signed (suc n) = negsuc n

-- A decimal text with an optional sign.
unfoldable pub read_integer : Text → ℤ
read_integer [] = pos 0
read_integer (c ∷ cs) =
    if c == b'-' then signed (read_digits 0 cs) else pos (read_digits 0 (c ∷ cs))

read_digits-decimal_from :
    (fuel n : ℕ) (behind : Text)
    → n ≤ fuel
    → read_digits 0 (decimal_from fuel n behind) ≡ read_digits n behind
unfolding read_digits decimal_from
read_digits-decimal_from zero n behind le = ap (λ m. read_digits m behind) (omega arith)
read_digits-decimal_from (suc fuel) n behind le = elim (Bool-cases (ltb n 10)) [
  | inl small ↦ rw small (ap (λ m. read_digits m behind) (omega arith))
  | inr large ↦ rw large (
      read_digits-decimal_from fuel (n / 10) ((n % 10 + 48) ∷ behind) (ground arith)
      ∙ ap (λ m. read_digits m behind) (omega arith))
]

pub read_digits-decimal : (n : ℕ) → read_digits 0 (decimal n) ≡ n
unfolding decimal read_digits
read_digits-decimal n = read_digits-decimal_from n n [] (omega arith)

read_integer-digit :
    (d : ℕ) (cs : Text) → read_integer ((d + 48) ∷ cs) ≡ pos (read_digits 0 ((d + 48) ∷ cs))
unfolding read_integer
read_integer-digit d cs = ground arith

-- A decimal text opens with a digit.
read_integer-decimal_from :
    (fuel n : ℕ) (behind : Text)
    → n ≤ fuel
    → read_integer (decimal_from fuel n behind) ≡ pos (read_digits 0 (decimal_from fuel n behind))
unfolding read_integer decimal_from
read_integer-decimal_from zero n behind le = read_integer-digit (n % 10) behind
read_integer-decimal_from (suc fuel) n behind le = elim (Bool-cases (ltb n 10)) [
  | inl small ↦ rw small (read_integer-digit n behind)
  | inr large ↦
      rw large (read_integer-decimal_from fuel (n / 10) ((n % 10 + 48) ∷ behind) (ground arith))
]

pub read_integer-to_string : (z : ℤ) → read_integer (to_string z) ≡ z
unfolding read_integer to_string decimal
read_integer-to_string (pos n) =
    read_integer-decimal_from n n [] (omega arith) ∙ ap pos (read_digits-decimal n)
read_integer-to_string (negsuc n) = ap signed (read_digits-decimal (suc n))
