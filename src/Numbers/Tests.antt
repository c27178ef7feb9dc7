-- ===== src/Numbers/Tests.antt =====
-- Numbers in a buffer of twelve bytes.
use pinyon.Prelude.{arith, List, ℕ, replicate}
use pinyon.Files.{negsuc}
use pinyon.Numbers.{to_strbuf, to_strbuf_signed}
use pinyon.Numbers.Texts.{
  Formatted, FormattedInt, to_strbuf-Formatted, to_strbuf_signed-FormattedInt,
}

abbrev nines : List ℕ
nines = replicate 12 9

to_strbuf-Formatted_example : Formatted nines 12 345 (to_strbuf nines 12 345)
to_strbuf-Formatted_example = to_strbuf-Formatted nines 12 345 (omega arith) (omega arith)

to_strbuf_signed-FormattedInt_example :
    FormattedInt nines 12 (negsuc 344) (to_strbuf_signed nines 12 (negsuc 344))
to_strbuf_signed-FormattedInt_example =
    to_strbuf_signed-FormattedInt nines 12 (negsuc 344) (omega arith) (omega arith)
