-- ===== src/Cre/Checked.antt =====
-- What a function of packages/cre/src/evidence.ts returns or throws: one refusal for each message.
use mathlib.Core.Path.{subst}
use bufi.Base.{◌≡◌, refl, Bool, true, false, if◌then◌else◌, ◌⊎◌, inl, inr}
use bufi.Base.Texts.{Text}

pub data Refusal : Type 0 where
  invalid_field : Text → Refusal
  not_an_integer : Text → Refusal
  invalid_decimal non_finite_number contains_undefined unsupported_value : Refusal
  invalid_contract_event invalid_workspace : Refusal
  invalid_reimbursement_phase invalid_project_phase : Refusal
  invalid_agreement invalid_chain_id : Refusal
  funding_not_ready signing_not_ready completion_not_ready : Refusal
  cancellation_not_ready deployment_not_ready : Refusal
  invalid_ttl token_too_large invalid_token expired_token invalid_lifetime : Refusal
  not_executed invalid_recipient_count invalid_recipients : Refusal
  invalid_recipient_group invalid_recipient recipient_count_differs : Refusal
  report_not_completed incomplete_sources : Refusal
  not_attestable not_paid invalid_items invalid_settlement : Refusal
  not_a_commitment : Text → Refusal
  invalid_items_hash invalid_response invalid_kind : Refusal

pub data Checked {ℓ} (A : Type ℓ) : Type ℓ where
  returned : A → Checked A
  thrown : Refusal → Checked A

infixl 5 ◌>>=◌ ◌>>◌
abbrev pub ◌>>=◌ {m n} : {S : Type m} {T : Type n} → Checked S → (S → Checked T) → Checked T
thrown refusal >>= after = thrown refusal
returned value >>= after = after value

abbrev pub ◌>>◌ {n} : {T : Type n} → Checked (Unit {0}) → Checked T → Checked T
first >> after = first >>= λ _. after

-- `if (test) throw refusal`
abbrev pub throw_if : Bool → Refusal → Checked (Unit {0})
throw_if test refusal = if test then thrown refusal else returned tt

-- A postcondition: `P` is true of the value, where one is returned.
pub data Gives {ℓ κ} {A : Type ℓ} (P : A → Type κ) : Checked A → Type (ℓ ⊔ κ) where
  gives : {value : A} → P value → Gives P (returned value)
  refuses : {refusal : Refusal} → Gives P (thrown refusal)

module _ {ℓ κ} {A : Type ℓ} {P : A → Type κ} where
  pub Gives-returned : {run : Checked A} {a : A} → Gives P run → run ≡ returned a → P a
  Gives-returned (gives p) e = subst P (cc) p
  Gives-returned refuses e = cc

  pub >>=-Gives {m n} :
      {B : Type m} {Q : B → Type n} {first : Checked B} {after : B → Checked A}
      → Gives Q first
      → ((b : B) → Q b → Gives P (after b))
      → Gives P (first >>= after)
  >>=-Gives (gives {value} q) next = next value q
  >>=-Gives refuses next = refuses

  pub after-Gives {m} :
      {B : Type m} (first : Checked B) {after : B → Checked A}
      → ((b : B) → Gives P (after b))
      → Gives P (first >>= after)
  after-Gives (returned value) next = next value
  after-Gives (thrown refusal) next = refuses

  pub throw_if-Gives :
      (test : Bool) (refusal : Refusal) {after : Checked A}
      → (test ≡ false → Gives P after)
      → Gives P (throw_if test refusal >> after)
  throw_if-Gives true refusal next = refuses
  throw_if-Gives false refusal next = next refl

  pub if-Gives :
      (test : Bool) {first second : Checked A}
      → (test ≡ true → Gives P first)
      → (test ≡ false → Gives P second)
      → Gives P (if test then first else second)
  if-Gives true p q = p refl
  if-Gives false p q = q refl

-- A step of which nothing is asked.
pub Gives-any {ℓ} : {A : Type ℓ} (run : Checked A) → Gives (λ a. Unit {0}) run
Gives-any (returned value) = gives tt
Gives-any (thrown refusal) = refuses

pub Gives-same {ℓ} : {A : Type ℓ} (run : Checked A) → Gives (λ a. run ≡ returned a) run
Gives-same (returned value) = gives refl
Gives-same (thrown refusal) = refuses

-- `if (test) throw refusal` where it does not throw.
pub Gives-unless {κ} :
    {P : Unit {0} → Type κ} (test : Bool) (refusal : Refusal)
    → (test ≡ false → P tt)
    → Gives P (throw_if test refusal)
Gives-unless true refusal p = refuses
Gives-unless false refusal p = gives (p refl)

pub Checked-cases :
    {A : Type 0} (run : Checked A)
    → ((a : A) × (run ≡ returned a)) ⊎ ((refusal : Refusal) × (run ≡ thrown refusal))
Checked-cases (returned value) = inl (value, refl)
Checked-cases (thrown refusal) = inr (refusal, refl)
