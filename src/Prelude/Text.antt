-- ===== src/Prelude/Text.antt =====
-- `str.upper` on ASCII text, with the one other character that it maps to a letter of the words
-- GTC, IOC and FOK, the dotless i. The source asks only whether the result is one of these words.
use Prim.Native.String.{String, [], ◌∷◌}
use Prim.Native.Char.{Char, code}
use omni_trade.Prelude.Tests.{eqb, if◌then◌else◌}

upper_char : String → String → Char → Char
upper_char (l ∷ lower) (u ∷ capital) c =
    if eqb (code l) (code c) then u else upper_char lower capital c
upper_char _ _ c = c

unfoldable pub upper : String → String
unfolding upper_char
upper [] = []
upper (c ∷ s) = upper_char "abcdefghijklmnopqrstuvwxyzı" "ABCDEFGHIJKLMNOPQRSTUVWXYZI" c ∷ upper s
