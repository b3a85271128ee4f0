-- ===== src/Spelling/Table.antt =====
-- `Spelling_table` and its `Builder` (code/spelling/include/spelling/spelling.h). A function that probes
-- gives none if its rounds run out.
use basedlang.Prelude.{
  ℕ, zero, suc, ◌+◌, ◌-◌, ◌*◌, ◌%◌, ◌^◌, ◌==◌, ltb, Option, none, some, List, [], ◌∷◌, ◌++◌, length,
  get_elem?, take, drop, if◌then◌else◌,
}
use basedlang.Spelling.Buckets.{
  Buckets, found, free, unfinished, home, probe, probe_home, place, assign, empty_buckets,
}

pub record Entry : Type 0 where
  pub offset : ℕ
  pub text_length : ℕ

pub record Table : Type 0 where
  pub bytes : List ℕ
  pub entries : List Entry
  pub buckets : Buckets
  pub building_start : ℕ

-- A conversion to `std::uint32_t`
abbrev pub to_u32 : ℕ → ℕ
to_u32 n = n % 2 ^ 32

abbrev pub entry_view : List ℕ → Entry → List ℕ
entry_view bytes e = take (e.text_length) (drop (e.offset) bytes)

-- `entry_view(_entries[value - 1])`, for a handle of the table
abbrev pub entry_at : List ℕ → Option Entry → List ℕ
entry_at bytes (some e) = entry_view bytes e
entry_at bytes none = []

abbrev pub text_of : List ℕ → List Entry → ℕ → List ℕ
text_of bytes entries value = entry_at bytes (get_elem? entries (value - 1))

unfoldable pub new : Table
new = record { bytes = []; entries = []; buckets = empty_buckets 32; building_start = 0 }

unfoldable pub lookup : Table → ℕ → Option (List ℕ)
lookup t value = if value == 0 then none else elim (get_elem? (t.entries) (value - 1)) [
  | some e ↦ some (entry_view (t.bytes) e)
  | none ↦ none
]

unfoldable pub lookup_text : Table → List ℕ → Option ℕ
unfolding probe
lookup_text t text = elim (probe_home (text_of (t.bytes) (t.entries)) text (t.buckets)) [
  | found value ↦ some value
  | free index ↦ some 0
  | unfinished ↦ none
]

-- The loop of `rehash` over the first `i` entries.
unfoldable pub refill : List ℕ → List Entry → ℕ → ℕ → Option Buckets
unfolding place
refill bytes entries bucket_count zero = some (empty_buckets bucket_count)
refill bytes entries bucket_count (suc i) = elim (refill bytes entries bucket_count i) [
  | none ↦ none
  | some b ↦ elim (place (b.count) b (home (text_of bytes entries (suc i)) (b.count))) [
    | none ↦ none
    | some index ↦ some (assign b index (to_u32 (i + 1)))
  ]
]

-- The buckets with room for one more entry, and the bucket for it: the table grows if it is full.
unfoldable pub make_room : List ℕ → List Entry → Buckets → List ℕ → ℕ → Option (Buckets × ℕ)
unfolding refill place
make_room bytes entries buckets text index =
    if ltb (buckets.count * 2) ((length entries + 1) * 3)
    then elim (refill bytes entries (buckets.count * 2) (length entries)) [
      | none ↦ none
      | some b ↦ elim (place (b.count) b (home text (b.count))) [
        | none ↦ none
        | some i ↦ some (b, i)
      ]
    ]
    else some (buckets, index)

-- A new entry, whose handle goes to the bucket.
abbrev pub add_entry : Table → List ℕ → Entry → Buckets × ℕ → ℕ × Table
add_entry t bytes e room =
    let entries = t.entries ++ e ∷ [] in
    let value = to_u32 (length entries) in
    (value, record t { bytes = bytes; entries = entries; buckets = assign room.0 room.1 value })

unfoldable pub intern : Table → List ℕ → Option (ℕ × Table)
unfolding probe make_room
intern t text = elim (probe_home (text_of (t.bytes) (t.entries)) text (t.buckets)) [
  | found value ↦ some (value, t)
  | free index ↦ elim (make_room (t.bytes) (t.entries) (t.buckets) text index) [
    | none ↦ none
    | some room ↦ some (
        add_entry t (t.bytes ++ text)
          (record { offset = to_u32 (length (t.bytes)); text_length = to_u32 (length text) }) room)
  ]
  | unfinished ↦ none
]

-- `builder`, and `append` of the builder
abbrev pub builder : Table → Table
builder t = record t { building_start = to_u32 (length (t.bytes)) }

abbrev pub append : Table → List ℕ → Table
append t text = record t { bytes = t.bytes ++ text }

abbrev pub build_view : Table → List ℕ
build_view t = entry_view (t.bytes) (record {
  offset = t.building_start;
  text_length = to_u32 (length (t.bytes) + 2 ^ 64 - t.building_start);
})

abbrev pub cancel_build : Table → Table
cancel_build t = record t { bytes = take (t.building_start) (t.bytes) }

unfoldable pub finalize : Table → Option (ℕ × Table)
unfolding probe make_room
finalize t =
    let text = build_view t in
    elim (probe_home (text_of (t.bytes) (t.entries)) text (t.buckets)) [
      | found value ↦ some (value, cancel_build t)
      | free index ↦ elim (make_room (t.bytes) (t.entries) (t.buckets) text index) [
        | none ↦ none
        | some room ↦ some (
            add_entry t (t.bytes)
              (record { offset = t.building_start; text_length = to_u32 (length text) }) room)
      ]
      | unfinished ↦ none
    ]
