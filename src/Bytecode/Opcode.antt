-- ===== src/Bytecode/Opcode.antt =====
-- The opcodes of code/bytecode/include/bytecode/opcode.h and their bytes.
use basedlang.Prelude.{ℕ, ◌≡◌, refl, Option, some, List, [], ◌∷◌, get_elem?}

-- `enum class Opcode : std::uint8_t`, in the order of the source.
pub data Opcode : Type 0 where
  exit wide jmp_i jnz_i call_i call_void_i ret ret_void lookup_k load_8 load_16 load_32 load_64 :
      Opcode
  store_8 store_16 store_32 store_64 alloca alloca_i load_sp_8 load_sp_16 load_sp_32 load_sp_64 :
      Opcode
  store_sp_8 store_sp_16 store_sp_32 store_sp_64 mov mov_i mov_sp_i sx_8 sx_16 sx_32 neg_i32 :
      Opcode
  neg_i64 neg_f32 neg_f64 add_i32 add_i32_k add_i32_i add_i64 add_i64_k add_i64_i add_f32 : Opcode
  add_f32_k add_f64 add_f64_k sub_i32 sub_i32_k sub_i32_i sub_i64 sub_i64_k sub_i64_i sub_f32 :
      Opcode
  sub_f32_k sub_f64 sub_f64_k mul_i32 mul_i32_k mul_i32_i mul_i64 mul_i64_k mul_i64_i mul_f32 :
      Opcode
  mul_f32_k mul_f64 mul_f64_k div_i32 div_i32_k div_i32_i div_i64 div_i64_k div_i64_i div_f32 :
      Opcode
  div_f32_k div_f64 div_f64_k mod_i32 mod_i32_k mod_i32_i mod_i64 mod_i64_k mod_i64_i cmp_eq_i32 :
      Opcode
  cmp_eq_i32_k cmp_eq_i32_i cmp_eq_i64 cmp_eq_i64_k cmp_eq_i64_i cmp_eq_f32 cmp_eq_f32_k : Opcode
  cmp_eq_f64 cmp_eq_f64_k cmp_ne_i32 cmp_ne_i32_k cmp_ne_i32_i cmp_ne_i64 cmp_ne_i64_k : Opcode
  cmp_ne_i64_i cmp_ne_f32 cmp_ne_f32_k cmp_ne_f64 cmp_ne_f64_k cmp_lt_i32 cmp_lt_i32_k : Opcode
  cmp_lt_i32_i cmp_lt_i64 cmp_lt_i64_k cmp_lt_i64_i cmp_lt_f32 cmp_lt_f32_k cmp_lt_f64 : Opcode
  cmp_lt_f64_k cmp_le_i32 cmp_le_i32_k cmp_le_i32_i cmp_le_i64 cmp_le_i64_k cmp_le_i64_i : Opcode
  cmp_le_f32 cmp_le_f32_k cmp_le_f64 cmp_le_f64_k cmp_gt_i32 cmp_gt_i32_k cmp_gt_i32_i cmp_gt_i64 :
      Opcode
  cmp_gt_i64_k cmp_gt_i64_i cmp_gt_f32 cmp_gt_f32_k cmp_gt_f64 cmp_gt_f64_k cmp_ge_i32 : Opcode
  cmp_ge_i32_k cmp_ge_i32_i cmp_ge_i64 cmp_ge_i64_k cmp_ge_i64_i cmp_ge_f32 cmp_ge_f32_k : Opcode
  cmp_ge_f64 cmp_ge_f64_k : Opcode

-- The enumerators by their values.
opcodes : List Opcode
opcodes =
    exit ∷ wide ∷ jmp_i ∷ jnz_i ∷ call_i ∷ call_void_i ∷ ret ∷ ret_void ∷ lookup_k ∷ load_8
    ∷ load_16 ∷ load_32 ∷ load_64 ∷ store_8 ∷ store_16 ∷ store_32 ∷ store_64 ∷ alloca ∷ alloca_i
    ∷ load_sp_8 ∷ load_sp_16 ∷ load_sp_32 ∷ load_sp_64 ∷ store_sp_8 ∷ store_sp_16 ∷ store_sp_32
    ∷ store_sp_64 ∷ mov ∷ mov_i ∷ mov_sp_i ∷ sx_8 ∷ sx_16 ∷ sx_32 ∷ neg_i32 ∷ neg_i64 ∷ neg_f32
    ∷ neg_f64 ∷ add_i32 ∷ add_i32_k ∷ add_i32_i ∷ add_i64 ∷ add_i64_k ∷ add_i64_i ∷ add_f32
    ∷ add_f32_k ∷ add_f64 ∷ add_f64_k ∷ sub_i32 ∷ sub_i32_k ∷ sub_i32_i ∷ sub_i64 ∷ sub_i64_k
    ∷ sub_i64_i ∷ sub_f32 ∷ sub_f32_k ∷ sub_f64 ∷ sub_f64_k ∷ mul_i32 ∷ mul_i32_k ∷ mul_i32_i
    ∷ mul_i64 ∷ mul_i64_k ∷ mul_i64_i ∷ mul_f32 ∷ mul_f32_k ∷ mul_f64 ∷ mul_f64_k ∷ div_i32
    ∷ div_i32_k ∷ div_i32_i ∷ div_i64 ∷ div_i64_k ∷ div_i64_i ∷ div_f32 ∷ div_f32_k ∷ div_f64
    ∷ div_f64_k ∷ mod_i32 ∷ mod_i32_k ∷ mod_i32_i ∷ mod_i64 ∷ mod_i64_k ∷ mod_i64_i ∷ cmp_eq_i32
    ∷ cmp_eq_i32_k ∷ cmp_eq_i32_i ∷ cmp_eq_i64 ∷ cmp_eq_i64_k ∷ cmp_eq_i64_i ∷ cmp_eq_f32
    ∷ cmp_eq_f32_k ∷ cmp_eq_f64 ∷ cmp_eq_f64_k ∷ cmp_ne_i32 ∷ cmp_ne_i32_k ∷ cmp_ne_i32_i
    ∷ cmp_ne_i64 ∷ cmp_ne_i64_k ∷ cmp_ne_i64_i ∷ cmp_ne_f32 ∷ cmp_ne_f32_k ∷ cmp_ne_f64
    ∷ cmp_ne_f64_k ∷ cmp_lt_i32 ∷ cmp_lt_i32_k ∷ cmp_lt_i32_i ∷ cmp_lt_i64 ∷ cmp_lt_i64_k
    ∷ cmp_lt_i64_i ∷ cmp_lt_f32 ∷ cmp_lt_f32_k ∷ cmp_lt_f64 ∷ cmp_lt_f64_k ∷ cmp_le_i32
    ∷ cmp_le_i32_k ∷ cmp_le_i32_i ∷ cmp_le_i64 ∷ cmp_le_i64_k ∷ cmp_le_i64_i ∷ cmp_le_f32
    ∷ cmp_le_f32_k ∷ cmp_le_f64 ∷ cmp_le_f64_k ∷ cmp_gt_i32 ∷ cmp_gt_i32_k ∷ cmp_gt_i32_i
    ∷ cmp_gt_i64 ∷ cmp_gt_i64_k ∷ cmp_gt_i64_i ∷ cmp_gt_f32 ∷ cmp_gt_f32_k ∷ cmp_gt_f64
    ∷ cmp_gt_f64_k ∷ cmp_ge_i32 ∷ cmp_ge_i32_k ∷ cmp_ge_i32_i ∷ cmp_ge_i64 ∷ cmp_ge_i64_k
    ∷ cmp_ge_i64_i ∷ cmp_ge_f32 ∷ cmp_ge_f32_k ∷ cmp_ge_f64 ∷ cmp_ge_f64_k ∷ []

-- `static_cast<std::byte>(opcode)`
unfoldable pub to_byte : Opcode → ℕ
to_byte exit = 0
to_byte wide = 1
to_byte jmp_i = 2
to_byte jnz_i = 3
to_byte call_i = 4
to_byte call_void_i = 5
to_byte ret = 6
to_byte ret_void = 7
to_byte lookup_k = 8
to_byte load_8 = 9
to_byte load_16 = 10
to_byte load_32 = 11
to_byte load_64 = 12
to_byte store_8 = 13
to_byte store_16 = 14
to_byte store_32 = 15
to_byte store_64 = 16
to_byte alloca = 17
to_byte alloca_i = 18
to_byte load_sp_8 = 19
to_byte load_sp_16 = 20
to_byte load_sp_32 = 21
to_byte load_sp_64 = 22
to_byte store_sp_8 = 23
to_byte store_sp_16 = 24
to_byte store_sp_32 = 25
to_byte store_sp_64 = 26
to_byte mov = 27
to_byte mov_i = 28
to_byte mov_sp_i = 29
to_byte sx_8 = 30
to_byte sx_16 = 31
to_byte sx_32 = 32
to_byte neg_i32 = 33
to_byte neg_i64 = 34
to_byte neg_f32 = 35
to_byte neg_f64 = 36
to_byte add_i32 = 37
to_byte add_i32_k = 38
to_byte add_i32_i = 39
to_byte add_i64 = 40
to_byte add_i64_k = 41
to_byte add_i64_i = 42
to_byte add_f32 = 43
to_byte add_f32_k = 44
to_byte add_f64 = 45
to_byte add_f64_k = 46
to_byte sub_i32 = 47
to_byte sub_i32_k = 48
to_byte sub_i32_i = 49
to_byte sub_i64 = 50
to_byte sub_i64_k = 51
to_byte sub_i64_i = 52
to_byte sub_f32 = 53
to_byte sub_f32_k = 54
to_byte sub_f64 = 55
to_byte sub_f64_k = 56
to_byte mul_i32 = 57
to_byte mul_i32_k = 58
to_byte mul_i32_i = 59
to_byte mul_i64 = 60
to_byte mul_i64_k = 61
to_byte mul_i64_i = 62
to_byte mul_f32 = 63
to_byte mul_f32_k = 64
to_byte mul_f64 = 65
to_byte mul_f64_k = 66
to_byte div_i32 = 67
to_byte div_i32_k = 68
to_byte div_i32_i = 69
to_byte div_i64 = 70
to_byte div_i64_k = 71
to_byte div_i64_i = 72
to_byte div_f32 = 73
to_byte div_f32_k = 74
to_byte div_f64 = 75
to_byte div_f64_k = 76
to_byte mod_i32 = 77
to_byte mod_i32_k = 78
to_byte mod_i32_i = 79
to_byte mod_i64 = 80
to_byte mod_i64_k = 81
to_byte mod_i64_i = 82
to_byte cmp_eq_i32 = 83
to_byte cmp_eq_i32_k = 84
to_byte cmp_eq_i32_i = 85
to_byte cmp_eq_i64 = 86
to_byte cmp_eq_i64_k = 87
to_byte cmp_eq_i64_i = 88
to_byte cmp_eq_f32 = 89
to_byte cmp_eq_f32_k = 90
to_byte cmp_eq_f64 = 91
to_byte cmp_eq_f64_k = 92
to_byte cmp_ne_i32 = 93
to_byte cmp_ne_i32_k = 94
to_byte cmp_ne_i32_i = 95
to_byte cmp_ne_i64 = 96
to_byte cmp_ne_i64_k = 97
to_byte cmp_ne_i64_i = 98
to_byte cmp_ne_f32 = 99
to_byte cmp_ne_f32_k = 100
to_byte cmp_ne_f64 = 101
to_byte cmp_ne_f64_k = 102
to_byte cmp_lt_i32 = 103
to_byte cmp_lt_i32_k = 104
to_byte cmp_lt_i32_i = 105
to_byte cmp_lt_i64 = 106
to_byte cmp_lt_i64_k = 107
to_byte cmp_lt_i64_i = 108
to_byte cmp_lt_f32 = 109
to_byte cmp_lt_f32_k = 110
to_byte cmp_lt_f64 = 111
to_byte cmp_lt_f64_k = 112
to_byte cmp_le_i32 = 113
to_byte cmp_le_i32_k = 114
to_byte cmp_le_i32_i = 115
to_byte cmp_le_i64 = 116
to_byte cmp_le_i64_k = 117
to_byte cmp_le_i64_i = 118
to_byte cmp_le_f32 = 119
to_byte cmp_le_f32_k = 120
to_byte cmp_le_f64 = 121
to_byte cmp_le_f64_k = 122
to_byte cmp_gt_i32 = 123
to_byte cmp_gt_i32_k = 124
to_byte cmp_gt_i32_i = 125
to_byte cmp_gt_i64 = 126
to_byte cmp_gt_i64_k = 127
to_byte cmp_gt_i64_i = 128
to_byte cmp_gt_f32 = 129
to_byte cmp_gt_f32_k = 130
to_byte cmp_gt_f64 = 131
to_byte cmp_gt_f64_k = 132
to_byte cmp_ge_i32 = 133
to_byte cmp_ge_i32_k = 134
to_byte cmp_ge_i32_i = 135
to_byte cmp_ge_i64 = 136
to_byte cmp_ge_i64_k = 137
to_byte cmp_ge_i64_i = 138
to_byte cmp_ge_f32 = 139
to_byte cmp_ge_f32_k = 140
to_byte cmp_ge_f64 = 141
to_byte cmp_ge_f64_k = 142

-- `static_cast<Opcode>(byte)`; a byte with no enumerator is `none`.
unfoldable pub from_byte : ℕ → Option Opcode
unfolding opcodes
from_byte b = get_elem? opcodes b

-- A written opcode byte reads back as the opcode.
pub from_byte-to_byte : (op : Opcode) → from_byte (to_byte op) ≡ some op
unfolding from_byte to_byte
from_byte-to_byte exit = refl
from_byte-to_byte _ = refl
