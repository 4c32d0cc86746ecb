-- ===== src/Store/Operations/Steps.antt =====
-- The steps of a transaction of internal/state, on every path of which a property of the tables and of
-- the sequence is kept.
use mathlib.Core.Path.{subst₂}
use agent_state.Common.{ℕ, String, Option, none, some, List, ◌≡◌, ◌≤◌, refl, arith, subst, sym}
use agent_state.Errors.{Uuid, Result, ok, err, ok-injective}
use agent_state.Message.{Time}
use agent_state.Message.Row.{MessageRow}
use agent_state.Database.{Tables, World, Driver}
use agent_state.Database.Keeps.{Keeps, Kept, Keeps-bind, Keeps-wrapped, Keeps-modify}
use agent_state.Database.Monad.{
  Db, ◌>>=◌, continue, rewrap, answer, written, tick, lift, modify, wrapped,
}
use agent_state.Database.Outcome.{pair_eq}
use agent_state.Database.Statements.{
  Counts, ensure_conversation, update_counts, insert_message, insert_item, delete_items,
  delete_messages,
}

-- The statements of appends, replacements and deletions keep the property.
pub record KeptByWrites (P : Tables → ℕ → Type 0) : Type 0 where
  pub later : (t : Tables) (s s' : ℕ) → s ≤ s' → P t s → P t s'
  pub ensured :
      (id : Uuid) (now : Time) (t : Tables) (s : ℕ) (u : Unit {0}) (t' : Tables)
      → P t s
      → ensure_conversation id now t ≡ ok (u, t')
      → P t' s
  pub counted :
      (count : ℕ → ℕ) (id : Uuid) (now : Time) (t : Tables) (s : ℕ) (c : Counts) (t' : Tables)
      → P t s
      → update_counts count id now t ≡ ok (c, t')
      → P t' s
  pub inserted :
      (d : Driver) (now : Time) (row : MessageRow) (t : Tables) (s : ℕ) (c : Time) (t' : Tables)
      → P t s
      → insert_message d now row t ≡ ok (c, t')
      → P t' s
  pub placed : (d : Driver) (id x : Uuid) → Keeps P (insert_item d id x)
  pub cleared : (id : Uuid) (t : Tables) (s : ℕ) → P t s → P (delete_items id t) s
  pub deleted :
      (id : Uuid) (ids : List Uuid) (t : Tables) (s : ℕ) → P t s → P (delete_messages id ids t) s

module _ (P : Tables → ℕ → Type 0) where
  -- A change of the tables that is always made.
  pub changed :
      (f : Tables → Tables)
      → ((t : Tables) (s : ℕ) → P t s → P (f t) s)
      → (t : Tables) (s : ℕ) (u : Unit {0}) (t' : Tables) → P t s
      → ◌≡◌ {A = Result (Unit {0} × Tables)} (ok (tt, f t)) (ok (u, t'))
      → P t' s
  changed f keep t s u t' v e = subst (λ y. P y s) (pair_eq (ok-injective e)).1 (keep t s v)

  module _ {ℓ κ} {A : Type ℓ} {B : Type κ} where
    pub bind : (m : Db A) (f : A → Db B) → Keeps P m → ((a : A) → Keeps P (f a)) → Keeps P (m >>= f)
    bind m f = Keeps-bind P m f

  module _ {ℓ} {A : Type ℓ} (d : Driver) where
    pub step :
        (text : String) (change : Tables → Result (A × Tables))
        → ((t : Tables) (s : ℕ) (a : A) (t' : Tables) → P t s → change t ≡ ok (a, t') → P t' s)
        → Keeps P (wrapped text (modify d change))
    step text change h = Keeps-wrapped P text _ (Keeps-modify P d change h)

    -- Calls that only read.
    pub reading :
        (m : Db A)
        → ((w : World) → ((m w).1.tables ≡ w.tables) × ((m w).1.sequence ≡ w.sequence))
        → Keeps P m
    reading m h = record {
      at = λ w v. (subst₂ P (sym (h w).0) (sym (h w).1) v, omega (arith, h w));
    }

  module _ {ℓ κ} {A : Type ℓ} {B : Type κ} where
    -- What is computed from a result that is not an error.
    pub lifted :
        (r : Result A) (f : A → Db B)
        → ((a : A) → r ≡ ok a → Keeps P (f a))
        → Keeps P (lift r >>= f)
    lifted (ok a) f h = record { at = λ w v. (h a refl).at w v }
    lifted (err e) f h = record { at = λ w v. (v, omega arith) }

    unwritten-Kept :
        (d : Driver) (text : String) (f : A → Db B) (r : Result (A × Tables)) (w : World)
        → P w.tables w.sequence
        → ((a : A) (t : Tables) → r ≡ ok (a, t) → ⊥)
        → Kept P w (continue f (rewrap text (written d r (tick w)))).1
    unwritten-Kept d text f (ok (a, t)) w v h = absurd (h a t refl)
    unwritten-Kept d text f (err e) w v h = (v, omega arith)

    refused-Kept :
        (d : Driver) (text : String) (change : Tables → Result (A × Tables)) (f : A → Db B)
        (o : Option String) (w : World)
        → P w.tables w.sequence
        → ((a : A) (t : Tables) → change w.tables ≡ ok (a, t) → ⊥)
        → Kept P w
            (continue f (rewrap text (answer o (λ u. written d (change u.tables) u) (tick w)))).1
    refused-Kept d text change f (some m) w v h = (v, omega arith)
    refused-Kept d text change f none w v h = unwritten-Kept d text f (change w.tables) w v h

    -- A statement that is always refused, and what would follow it.
    pub refused :
        (d : Driver) (text : String) (change : Tables → Result (A × Tables)) (f : A → Db B)
        → ((t : Tables) (s : ℕ) (a : A) (t' : Tables) → P t s → change t ≡ ok (a, t') → ⊥)
        → Keeps P (wrapped text (modify d change) >>= f)
    refused d text change f h = record {
      at = λ w v.
          refused-Kept d text change f (d.fault w.calls) w v
            (λ a t e. h w.tables w.sequence a t v e);
    }
