-- ===== src/Codec/Text.antt =====
-- Python text as a list of code points: `_check_text`, `sanitize` and `utf8_len` of
-- src/fronta/codec.py. A lone surrogate has no UTF-8 encoding.
use Prim.Native.Char.{code}
use Prim.Native.String.{String}
use fronta.Prelude.{ℕ, ◌+◌, Bool, not, ◌&&◌, List, [], ◌∷◌, ltb, leb, ◌==◌, if◌then◌else◌, exists}

abbrev pub Text : Type 0
Text = List ℕ

-- The code points of a native string, which holds no surrogate.
abbrev pub codes : String → Text
codes String.[] = []
codes (String.◌∷◌ c s) = code c ∷ codes s

-- U+FFFD
abbrev pub replacement : ℕ
replacement = 0xfffd

abbrev pub is_nul : ℕ → Bool
is_nul c = c == 0

abbrev pub is_surrogate : ℕ → Bool
is_surrogate c = leb 0xd800 c && leb c 0xdfff

-- `text.encode("utf-8")` does not raise `UnicodeEncodeError`
abbrev pub encodable : Text → Bool
encodable text = not (exists is_surrogate text)

-- The bytes of one encoded code point.
abbrev pub utf8_width : ℕ → ℕ
utf8_width c = if ltb c 0x80 then 1 else if ltb c 0x800 then 2 else if ltb c 0x10000 then 3 else 4

-- `len(text.encode("utf-8"))` of encodable text.
unfoldable pub utf8_len : Text → ℕ
utf8_len [] = 0
utf8_len (c ∷ text) = utf8_width c + utf8_len text

-- `_check_text`: true where it does not raise `Unstorable`.
unfoldable pub check_text : Text → Bool
check_text text = not (exists is_nul text) && encodable text

-- `text.replace("\x00", _REPLACEMENT)`
unfoldable pub replace_nul : Text → Text
replace_nul [] = []
replace_nul (c ∷ text) = (if is_nul c then replacement else c) ∷ replace_nul text

-- `_replace_lone_surrogates`, applied over the text by the codec machinery.
unfoldable pub replace_lone_surrogates : Text → Text
replace_lone_surrogates [] = []
replace_lone_surrogates (c ∷ text) =
    (if is_surrogate c then replacement else c) ∷ replace_lone_surrogates text

unfoldable pub sanitize : Text → Text
sanitize text =
    let text' = replace_nul text in if encodable text' then text' else replace_lone_surrogates text'
