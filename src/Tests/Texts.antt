-- ===== src/Tests/Texts.antt =====
-- A codec of strings to run the theorems with: a string becomes the numbers of its characters.
use Prim.Native.Nat.{Ordering, compare}
use Prim.Native.Char.{Char, char, code, nul, IsScalar}
use Prim.Native.String.{[] as no_text, ◌∷◌ as ◌▸◌}
use text.Mathlib.TextEquality.{Char-path}
use hamok_ts.Prelude.{ℕ, String, ◌≡◌, refl, [], ◌∷◌, number_key, string_key}
use hamok_ts.Message.{Bytes}
use hamok_ts.Messages.HamokCodec.{HamokCodec}

abbrev Below : Ordering → Type 0
Below Ordering.lt = Unit
Below Ordering.eq = ⊥
Below Ordering.gt = ⊥

abbrev Between : Ordering → Ordering → Type 0
Between Ordering.lt o = Below o
Between Ordering.eq _ = ⊥
Between Ordering.gt _ = ⊥

abbrev Either : Ordering → Ordering → Ordering → Type 0
Either Ordering.lt _ _ = Unit
Either Ordering.eq o p = Between o p
Either Ordering.gt o p = Between o p

below? : (o : Ordering) → Dec (Below o)
below? Ordering.lt = yes tt
below? Ordering.eq = no (λ e. e)
below? Ordering.gt = no (λ e. e)

between? : (o p : Ordering) → Dec (Between o p)
between? Ordering.lt o = below? o
between? Ordering.eq _ = no (λ e. e)
between? Ordering.gt _ = no (λ e. e)

either? : (o p q : Ordering) → Dec (Either o p q)
either? Ordering.lt _ _ = yes tt
either? Ordering.eq o p = between? o p
either? Ordering.gt o p = between? o p

is_scalar? : (n : ℕ) → Dec (IsScalar n)
is_scalar? n = either? (compare n 55296) (compare 57343 n) (compare n 1114112)

char_if : (n : ℕ) → Dec (IsScalar n) → Char
char_if n (yes p) = char n p
char_if n (no _) = nul

char_if-code : (c : Char) (d : Dec (IsScalar (code c))) → char_if (code c) d ≡ c
unfolding char_if
char_if-code (char n p) (yes q) = Char-path (char n q) (char n p) refl
char_if-code (char n p) (no r) = absurd (r p)

encode_string : String → Bytes
encode_string no_text = []
encode_string (c ▸ s) = code c ∷ encode_string s

decode_string : Bytes → String
unfolding is_scalar? char_if
decode_string [] = no_text
decode_string (n ∷ ns) = char_if n (is_scalar? n) ▸ decode_string ns

decode_string-encode_string : (s : String) → decode_string (encode_string s) ≡ s
unfolding decode_string encode_string
decode_string-encode_string no_text = refl
decode_string-encode_string (c ▸ s) =
    λ i. char_if-code c (is_scalar? (code c)) i ▸ decode_string-encode_string s i

unfoldable pub text_codec : HamokCodec String Bytes
unfolding encode_string decode_string is_scalar? char_if either? between? below?
text_codec = record { encode = encode_string; decode = decode_string }

pub text_codec-decodes : (s : String) → text_codec.decode (text_codec.encode s) ≡ s
unfolding text_codec encode_string decode_string
text_codec-decodes = decode_string-encode_string
