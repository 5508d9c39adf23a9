-- ===== src/Codec/Examples.antt =====
-- Tests of the codec, and its theorem at a concrete error.
use fronta.Prelude.{◌≤◌, ◌≡◌, refl, ◌⊎◌, some, [], ◌∷◌, arith}
use fronta.Codec.Text.{Text, codes, utf8_len}
use fronta.Codec.Check.{
  Value, array, item, no_items, scalar, nesting, encoded, check, encode_capped,
  encode_capped-nesting,
}
use fronta.Codec.Truncate.{Data, text, other, weight, truncate, fallback, truncate-ends}

abbrev failure : Data
failure = ("type", text (codes "E")) ∷ ("traceback", text (codes "abcdefgh")) ∷ []

truncate_test :
    truncate weight 3 ("traceback" ∷ []) (codes "E") 20 failure
    ≡ some (
        ("type", text (codes "E")) ∷ ("traceback", text (codes "gh")) ∷ ("truncated", other 1) ∷ [])
unfolding truncate
truncate_test = refl

truncate-ends_example :
    (r : Data) × (truncate weight 3 ("traceback" ∷ []) (codes "E") 20 failure ≡ some r)
    × ((weight r ≤ 3) ⊎ (r ≡ fallback (codes "E")))
truncate-ends_example =
    truncate-ends weight 3 ("traceback" ∷ []) (codes "E") 20 failure (omega arith)

abbrev pair : Value
pair = array (item (array (item scalar no_items)) (item scalar no_items))

abbrev dumped : Value → Text
dumped v = codes "[[1],2]"

pair-encoded : encode_capped dumped pair 7 ≡ encoded (codes "[[1],2]")
unfolding encode_capped check utf8_len
pair-encoded = refl

encode_capped-nesting_example :
    (codes "[[1],2]" ≡ dumped pair) × (utf8_len (codes "[[1],2]") ≤ 7) × (nesting pair ≤ 200)
encode_capped-nesting_example = encode_capped-nesting dumped pair 7 (codes "[[1],2]") pair-encoded
