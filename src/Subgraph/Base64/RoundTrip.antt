-- ===== src/Subgraph/Base64/RoundTrip.antt =====
-- The decoder of packages/subgraph-arc/src/shared/base64.ts against the encoding of RFC 4648.
use bufi.Base.{
  ℕ, ◌+◌, ◌*◌, ◌/◌, ◌%◌, ◌<◌, ◌==◌, ◌≡◌, refl, ap, ◌∙◌, Bool, true, false, not, some, List, [], ◌∷◌,
  arith, keep, All,
}
use bufi.Base.Texts.{Text}
use bufi.Subgraph.Base64.{
  without_whitespace, padded, significant, read_chunk, byte_at, push_bytes, chunk_bytes,
  decode_chunk, append_to, decode_loop, base64_decode, sextet, digits, padding, base64_encode,
}
use bufi.Subgraph.Base64.Alphabet.{index_of-sextet, sextet-black, sextet-unpadded}

-- One more digit of a chunk.
read_sextet :
    (buffer n : ℕ) (cs : Text)
    → read_chunk buffer (sextet n ∷ cs) ≡ read_chunk (buffer * 64 + n % 64) cs
unfolding read_chunk
read_sextet buffer n cs = rw (read_chunk, index_of-sextet n) refl

read_first : (n : ℕ) (cs : Text) → read_chunk 0 (sextet n ∷ cs) ≡ read_chunk (n % 64) cs
read_first n cs = read_sextet 0 n cs ∙ ap (λ buffer. read_chunk buffer cs) (omega arith)

read_two : (a b : ℕ) → read_chunk 0 (sextet a ∷ sextet b ∷ []) ≡ some (a % 64 * 64 + b % 64)
unfolding read_chunk
read_two a b = read_first a (sextet b ∷ []) ∙ read_sextet (a % 64) b []

read_three :
    (a b c : ℕ)
    → read_chunk 0 (sextet a ∷ sextet b ∷ sextet c ∷ [])
      ≡ some ((a % 64 * 64 + b % 64) * 64 + c % 64)
unfolding read_chunk
read_three a b c =
    read_first a (sextet b ∷ sextet c ∷ [])
    ∙ read_sextet (a % 64) b (sextet c ∷ [])
    ∙ read_sextet (a % 64 * 64 + b % 64) c []

read_four :
    (a b c d : ℕ)
    → read_chunk 0 (sextet a ∷ sextet b ∷ sextet c ∷ sextet d ∷ [])
      ≡ some (((a % 64 * 64 + b % 64) * 64 + c % 64) * 64 + d % 64)
unfolding read_chunk
read_four a b c d =
    read_first a (sextet b ∷ sextet c ∷ sextet d ∷ [])
    ∙ read_sextet (a % 64) b (sextet c ∷ sextet d ∷ [])
    ∙ read_sextet (a % 64 * 64 + b % 64) c (sextet d ∷ [])
    ∙ read_sextet ((a % 64 * 64 + b % 64) * 64 + c % 64) d []

three_eq : {a b c x y z : ℕ} → a ≡ x → b ≡ y → c ≡ z → a ∷ b ∷ c ∷ [] ≡ x ∷ y ∷ z ∷ []
three_eq p q r = cc

three_bytes :
    (x y z : ℕ)
    → x < 256
    → y < 256
    → z < 256
    → chunk_bytes 24 (
        some
          (((x / 4 % 64 * 64 + (x * 16 + y / 16) % 64) * 64 + (y * 4 + z / 64) % 64) * 64 + z % 64))
      ≡ some (x ∷ y ∷ z ∷ [])
unfolding push_bytes byte_at
three_bytes x y z p q r = ap some (three_eq (omega arith) (omega arith) (omega arith))

two_eq : {a b x y : ℕ} → a ≡ x → b ≡ y → a ∷ b ∷ [] ≡ x ∷ y ∷ []
two_eq p q = cc

two_bytes :
    (x y : ℕ)
    → x < 256
    → y < 256
    → chunk_bytes 18 (some ((x / 4 % 64 * 64 + (x * 16 + y / 16) % 64) * 64 + y * 4 % 64))
      ≡ some (x ∷ y ∷ [])
unfolding push_bytes byte_at
two_bytes x y p q = ap some (two_eq (omega arith) (omega arith))

one_byte : (x : ℕ) → x < 256 → chunk_bytes 12 (some (x / 4 % 64 * 64 + x * 16 % 64)) ≡ some (x ∷ [])
unfolding push_bytes byte_at
one_byte x p = ap some (ap (λ b. b ∷ []) (omega arith))

decode-digits :
    (bytes : List ℕ) → All (λ b. b < 256) bytes → decode_loop (digits bytes) ≡ some bytes
unfolding decode_loop digits decode_chunk
decode-digits [] small = refl
decode-digits (x ∷ []) (p, small) = ap (chunk_bytes 12) (read_two (x / 4) (x * 16)) ∙ one_byte x p
decode-digits (x ∷ y ∷ []) (p, (q, small)) =
    ap (chunk_bytes 18) (read_three (x / 4) (x * 16 + y / 16) (y * 4)) ∙ two_bytes x y p q
decode-digits (x ∷ y ∷ z ∷ rest) (p, (q, (r, small))) =
    let front =
      ap (chunk_bytes 24) (read_four (x / 4) (x * 16 + y / 16) (y * 4 + z / 64) z)
      ∙ three_bytes x y z p q r in
    rw (decode-digits rest small) (ap (λ f. append_to f (some rest)) front)

keep-true : (p : ℕ → Bool) (x : ℕ) (xs : List ℕ) → p x ≡ true → keep p (x ∷ xs) ≡ x ∷ keep p xs
keep-true p x xs h = rw (h, keep) refl

black_sextet :
    (n : ℕ) (cs : Text) → without_whitespace (sextet n ∷ cs) ≡ sextet n ∷ without_whitespace cs
unfolding without_whitespace
black_sextet n cs = keep-true _ (sextet n) cs (ap not (sextet-black n))

padded-kept : (c : ℕ) (rest : Text) → (c == b'=') ≡ false → padded c rest ≡ c ∷ rest
padded-kept c [] h = rw h refl
padded-kept c (d ∷ rest) h = refl

kept_sextet : (n : ℕ) (cs : Text) → significant (sextet n ∷ cs) ≡ sextet n ∷ significant cs
unfolding significant
kept_sextet n cs = padded-kept (sextet n) (significant cs) (sextet-unpadded n)

without_whitespace-encode :
    (bytes : List ℕ) → without_whitespace (base64_encode bytes) ≡ base64_encode bytes
unfolding base64_encode digits padding without_whitespace
without_whitespace-encode [] = refl
without_whitespace-encode (x ∷ []) = rw (black_sextet, black_sextet) refl
without_whitespace-encode (x ∷ y ∷ []) = rw (black_sextet, black_sextet, black_sextet) refl
without_whitespace-encode (x ∷ y ∷ z ∷ rest) =
    rw (black_sextet, black_sextet, black_sextet, black_sextet, without_whitespace-encode rest) refl

significant-encode : (bytes : List ℕ) → significant (base64_encode bytes) ≡ digits bytes
unfolding base64_encode digits padding significant
significant-encode [] = refl
significant-encode (x ∷ []) = rw (kept_sextet, kept_sextet) refl
significant-encode (x ∷ y ∷ []) = rw (kept_sextet, kept_sextet, kept_sextet) refl
significant-encode (x ∷ y ∷ z ∷ rest) =
    rw (kept_sextet, kept_sextet, kept_sextet, kept_sextet, significant-encode rest) refl

-- Whatever bytes are encoded, their decoding gives them back, padding and all.
pub base64_decode-encode :
    (bytes : List ℕ) → All (λ b. b < 256) bytes → base64_decode (base64_encode bytes) ≡ some bytes
unfolding base64_decode
base64_decode-encode bytes small =
    rw (without_whitespace-encode bytes, significant-encode bytes) (decode-digits bytes small)
