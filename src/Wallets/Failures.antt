-- ===== src/Wallets/Failures.antt =====
-- What the builders of packages/modular-wallets-core/src return or throw.
use bufi.Base.{◌≡◌, refl, Bool, true, false, if◌then◌else◌}
use bufi.Base.Int.{ℤ}
use bufi.Base.Texts.{Text}

pub data Failure : Type 0 where
  no_target expires_too_early no_float_recipient no_vault no_recipient : Failure
  vault_is_token : Text → Failure
  negative_amount : Text → Failure
  short : ℤ → Text → Failure

pub data Fallible (A : Type 0) : Type 0 where
  done : A → Fallible A
  failed : Failure → Fallible A

abbrev pub and_then : {S T : Type 0} → Fallible S → (S → Fallible T) → Fallible T
and_then (done s) next = next s
and_then (failed why) next = failed why

abbrev pub fail_when : {T : Type 0} → Bool → Failure → Fallible T → Fallible T
fail_when test why rest = if test then failed why else rest

pub and_then-done :
    {S T : Type 0} (run : Fallible S) (next : S → Fallible T) {t : T}
    → and_then run next ≡ done t
    → (s : S) × (run ≡ done s) × (next s ≡ done t)
and_then-done (failed why) next h = cc
and_then-done (done s) next h = (s, refl, h)

pub fail_when-done :
    {T : Type 0} (test : Bool) (why : Failure) {rest : Fallible T} {t : T}
    → fail_when test why rest ≡ done t
    → (test ≡ false) × (rest ≡ done t)
fail_when-done true why h = cc
fail_when-done false why h = (refl, h)

pub done-injective : {A : Type 0} (a b : A) → done a ≡ done b → b ≡ a
done-injective a b h = cc
