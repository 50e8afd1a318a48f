-- ===== src/Messages/Decoding.antt =====
-- What decoding a message gives: a value, an error that is thrown, or, where a field that the
-- source's `!` takes for granted is missing or a term is negative, a value outside of the declared
-- type.
use hamok_ts.Prelude.{ℕ, ℤ, pos, negsuc, Option, none, some, if◌then◌else◌, ◌==◌}
use hamok_ts.Message.{MessageType, type_number}

pub data Decoded (A : Type 0) : Type 0 where
  decoded : A → Decoded A
  throws : Decoded A
  untyped : Decoded A

-- `message.field!`.
abbrev pub asserted : {A B : Type 0} → Option A → (A → Decoded B) → Decoded B
asserted none f = untyped
asserted (some a) f = f a

abbrev pub natural : {B : Type 0} → ℤ → (ℕ → Decoded B) → Decoded B
natural (pos n) f = f n
natural (negsuc n) f = untyped

abbrev pub map_decoded : {A B : Type 0} → (A → B) → Decoded A → Decoded B
map_decoded f (decoded a) = decoded (f a)
map_decoded f throws = throws
map_decoded f untyped = untyped

-- `if (message.type !== MessageType.X) throw`.
unfoldable pub expects : {A : Type 0} → MessageType → Option MessageType → Decoded A → Decoded A
unfolding type_number
expects t none d = throws
expects t (some u) d = if type_number u == type_number t then d else throws
