-- ===== src/Errors.antt =====
-- The errors of internal/state: the sentinels of types.go and the ways in which the code makes one
-- error from another, with `errors.Is`; and fallible code as a result.
use agent_state.Common.{ℕ, String, Bool, true, false, ◌≡◌, refl, ◌⊎◌, inl, inr}

-- uuid.UUID: 16 bytes, which the code only compares and prints.
abbrev pub Uuid : Type 0
Uuid = ℕ

-- The package variables `Err...`.
pub data Sentinel : Type 0 where
  conversation_not_found invalid_range_spec message_not_found : Sentinel
  duplicate_message snapshot_not_found : Sentinel

pub data Err : Type 0 where
  sentinel : Sentinel → Err
  -- pgx.ErrNoRows
  no_rows : Err
  -- errors.New, and fmt.Errorf without %w
  plain : String → Err
  -- fmt.Errorf("text: %w", err)
  wrap : String → Err → Err
  -- fmt.Errorf("%w: %s", err, id)
  with_id : Err → Uuid → Err
  -- an error of the database, the driver or a library
  external : String → Err

abbrev same_sentinel : Sentinel → Sentinel → Bool
same_sentinel conversation_not_found conversation_not_found = true
same_sentinel invalid_range_spec invalid_range_spec = true
same_sentinel message_not_found message_not_found = true
same_sentinel duplicate_message duplicate_message = true
same_sentinel snapshot_not_found snapshot_not_found = true
same_sentinel _ _ = false

-- errors.Is: through every wrapper.
abbrev pub errors_is : Err → Sentinel → Bool
errors_is (sentinel s) t = same_sentinel s t
errors_is no_rows t = false
errors_is (plain m) t = false
errors_is (wrap m e) t = errors_is e t
errors_is (with_id e i) t = errors_is e t
errors_is (external m) t = false

pub data Result {ℓ} (A : Type ℓ) : Type ℓ where
  ok : A → Result A
  err : Err → Result A

module _ {ℓ κ} {A : Type ℓ} {B : Type κ} where
  infixl 5 ◌>>=◌
  -- `if err != nil { return err }` after a call
  abbrev pub ◌>>=◌ : Result A → (A → Result B) → Result B
  err e >>= next = err e
  ok a >>= next = next a

  -- Inversion of a bind that succeeded.
  pub bind-eq-ok :
      (call : Result A) (next : A → Result B) {b : B}
      → (call >>= next) ≡ ok b
      → (a : A) × (call ≡ ok a) × (next a ≡ ok b)
  bind-eq-ok (err e) next h = cc
  bind-eq-ok (ok a) next h = (a, refl, h)

infixl 5 ◌>>◌
abbrev pub ◌>>◌ {ℓ} : {B : Type ℓ} → Result (Unit {0}) → Result B → Result B
err e >> rest = err e
ok _ >> rest = rest

pub Result-cases {ℓ} :
    {A : Type ℓ} (r : Result A) → ((a : A) × (r ≡ ok a)) ⊎ ((e : Err) × (r ≡ err e))
Result-cases (ok a) = inl (a, refl)
Result-cases (err e) = inr (e, refl)

pub ok-injective {ℓ} : {A : Type ℓ} {a b : A} → ok a ≡ ok b → a ≡ b
ok-injective h = cc

-- `return fmt.Errorf("text: %w", err)` after a call that computes, and the texts of a status alike.
abbrev pub annotated {ℓ} : {A : Type ℓ} → String → Result A → Result A
annotated text (ok a) = ok a
annotated text (err e) = err (wrap text e)

pub annotated-eq-ok {ℓ} :
    {A : Type ℓ} (text : String) (r : Result A) {a : A} → annotated text r ≡ ok a → r ≡ ok a
annotated-eq-ok text (ok a) h = h
annotated-eq-ok text (err e) h = cc
