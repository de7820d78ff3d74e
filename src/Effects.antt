-- ===== src/Effects.antt =====
-- What an `async` method does: it changes the state of what it calls, and returns or throws. What was
-- done before a throw stays done, so the state stands beside the error too.
pub mod Calls
pub mod Leads
pub mod Ends
use coupi.Prelude.{ℕ, Option, Text, units, [], ◌++◌}

-- The errors that the services tell apart, and any other, with its HTTP status if it has one.
-- `out_of_fuel` stands for a loop that has not come to its end.
pub data Thrown : Type 0 where
  reauth_required_error history_expired_error : Text → Thrown
  unique_violation out_of_fuel : Thrown
  other_error : Option ℕ → Text → Thrown

-- `error.message`
unfoldable pub message_of : Thrown → Text
message_of (reauth_required_error reason) = units "재인증이 필요하다: " ++ reason
message_of (history_expired_error cursor) = units "히스토리 커서가 만료되었다: " ++ cursor
message_of unique_violation = units "P2002"
message_of out_of_fuel = []
message_of (other_error status m) = m

pub data Result (A : Type 0) : Type 0 where
  ok : A → Result A
  thrown : Thrown → Result A

abbrev pub Exec : Type 0 → Type 0 → Type 0
Exec S A = S → Result A × S

module _ {S A : Type 0} where
  unfoldable pub pure : A → Exec S A
  pure a s = (ok a, s)

  unfoldable pub throw : Thrown → Exec S A
  throw e s = (thrown e, s)

module _ {S A B : Type 0} where
  -- What follows an `await`, which a throw passes over.
  unfoldable pub resume : (A → Exec S B) → Result A × S → Result B × S
  resume f (thrown e, s) = (thrown e, s)
  resume f (ok a, s) = f a s

  infixl 10 ◌>>=◌ ◌>>◌
  unfoldable pub ◌>>=◌ : Exec S A → (A → Exec S B) → Exec S B
  unfolding pure throw resume
  (m >>= f) s = resume f (m s)

  abbrev pub ◌>>◌ : Exec S A → Exec S B → Exec S B
  m >> n = m >>= λ _. n

module _ {S A : Type 0} where
  unfoldable pub recover : (Thrown → Exec S A) → Result A × S → Result A × S
  recover handler (ok a, s) = (ok a, s)
  recover handler (thrown e, s) = handler e s

  -- `try { ... } catch (error) { ... }`
  unfoldable pub catch : Exec S A → (Thrown → Exec S A) → Exec S A
  unfolding recover
  catch m handler s = recover handler (m s)

-- Calls of one of two services that share no state.
module _ {D F A : Type 0} where
  unfoldable pub on_left : Exec D A → Exec (D × F) A
  on_left m (d, f) = let (r, d') = m d in (r, (d', f))

  unfoldable pub on_right : Exec F A → Exec (D × F) A
  on_right m (d, f) = let (r, f') = m f in (r, (d, f'))
