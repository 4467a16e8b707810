-- ===== src/Examples/CodecRuns.antt =====
-- coding.cpp on concrete inputs.
use my_leveldb.Common.{none, some, [], ◌∷◌, ◌++◌, Bytes, drop, ◌≡◌, refl, arith}
use my_leveldb.Coding.{
  varint_loop, decode_fixed64_portable, put_varint32, get_varint32, get_varint32_ptr,
  get_varint32_ptr_fallback, advance,
}
use my_leveldb.Coding.Fixed.{decode_fixed64_portable-ne-some}
use my_leveldb.Coding.Decode.{get_varint32-put_varint32}
use my_leveldb.Coding.AnyInput.{parse_varint, get_varint32-parse_varint}

abbrev two_bytes : Bytes
two_bytes = 0xac ∷ 2 ∷ []

get_varint32_of_two_bytes : get_varint32 (0xac ∷ 2 ∷ 9 ∷ []) ≡ (9 ∷ [], some 300)
unfolding get_varint32 get_varint32_ptr get_varint32_ptr_fallback varint_loop
get_varint32_of_two_bytes = refl

get_varint32-put_varint32_example :
    get_varint32 (drop 1 (put_varint32 (7 ∷ []) 300 ++ (9 ∷ []))) ≡ (9 ∷ [], some 300)
get_varint32-put_varint32_example = get_varint32-put_varint32 (7 ∷ []) (9 ∷ []) 300 (omega arith)

get_varint32-parse_varint_example :
    get_varint32 two_bytes ≡ advance two_bytes (parse_varint 32 4 two_bytes)
get_varint32-parse_varint_example =
    get_varint32-parse_varint two_bytes (omega arith, (omega arith, tt))

decode_fixed64_portable-ne-some_example :
    decode_fixed64_portable 3 (1 ∷ 2 ∷ 3 ∷ 4 ∷ 5 ∷ 6 ∷ 7 ∷ 8 ∷ []) ≡ none
decode_fixed64_portable-ne-some_example =
    decode_fixed64_portable-ne-some 3 (1 ∷ 2 ∷ 3 ∷ 4 ∷ 5 ∷ 6 ∷ 7 ∷ 8 ∷ [])
