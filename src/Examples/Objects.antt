-- ===== src/Examples/Objects.antt =====
-- Objects of the serializer at concrete inputs.
use rt_csp.Base.{◌≡◌, refl, true, none, some, [], ◌∷◌, ◌++◌, arith, length, pos, negsuc, codes}
use rt_csp.Serialize.Number.{print_nat, digits_to}
use rt_csp.Serialize.{
  Format, Formats, end, field, object, scalar, int, ubyte, string_length, array, arrlen, hashtable,
  Value, serialize_string_ex,
}
use rt_csp.Serialize.Elements.{read}
use rt_csp.Serialize.Parse.{blank, _serialize_parse}
use rt_csp.Serialize.Objects.{are_keys-AreKeys}
use rt_csp.Serialize.Values.{IsValue, _serialize_parse-value}
use rt_csp.Serialize.Tables.{Reads}
use rt_csp.Serialize.Memory.{IsWithin, blank-IsWithin, _serialize_parse-IsWithin}

-- An array of three cells and a table.
abbrev formats : Formats
formats =
    field (codes "rows") (arrlen 3 (array (scalar int)))
      (field (codes "tab") (hashtable true (scalar ubyte)) end)

abbrev format : Format
format = object formats

-- Two of the three cells are in use, and the second holds NULL.
abbrev value : Value format
value =
    ((2, some (pos 1 ∷ negsuc 1 ∷ []) ∷ none ∷ none ∷ []), (some ((codes "7", pos 200) ∷ []), tt))

value-IsValue : IsValue 2 format value
unfolding blank print_nat digits_to
value-IsValue = (
  are_keys-AreKeys formats refl,
  omega arith,
  (
    ((omega arith, refl, refl), ((omega arith, (omega arith, tt)), (tt, tt))),
    (((tt, (7, omega arith, refl), omega arith, tt), omega arith), tt),
  ),
)

-- o:{s:4:rows;A:2[a:2[i:1;i:-2;]a:0[]]s:3:tab;h:(I:7;Y:200;)}
_serialize_parse-value_example :
    _serialize_parse blank 3 format
      (blank format)
      (serialize_string_ex format value ++ b'x' ∷ [])
      80
    ≡ read value (length (serialize_string_ex format value))
unfolding serialize_string_ex print_nat digits_to
_serialize_parse-value_example =
    _serialize_parse-value blank 2 format value (b'x' ∷ []) 80 value-IsValue (omega arith)
      (omega arith)

-- A text of five bytes for an array of three.
_serialize_parse-IsWithin_example :
    Reads
      (IsWithin (string_length 3))
      (_serialize_parse blank 1 (string_length 3) [] (codes "S:5:hello;") 10)
_serialize_parse-IsWithin_example =
    _serialize_parse-IsWithin blank 1 (string_length 3) [] (codes "S:5:hello;") 10 blank-IsWithin
      (omega arith)
