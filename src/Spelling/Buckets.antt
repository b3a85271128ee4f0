-- ===== src/Spelling/Buckets.antt =====
-- The hash table inside a `Spelling_table` (code/spelling/include/spelling/spelling.h): buckets, each
-- with a handle or zero, that are probed in turn from a text's home.
use Prim.Native.Nat.{bit_and}
use basedlang.Prelude.{
  ℕ, zero, suc, ◌+◌, ◌-◌, ◌==◌, Option, none, some, List, text_eq, if◌then◌else◌,
}
use basedlang.Hashing.{hash_text}

-- `_buckets`
pub record Buckets : Type 0 where
  pub count : ℕ
  pub slots : ℕ → ℕ

-- How a probe ends: at the bucket with the handle of the text, or at one that has none.
pub data Probe : Type 0 where
  found free : ℕ → Probe
  unfinished : Probe

abbrev pub bucket_index : ℕ → ℕ → ℕ
bucket_index hash bucket_count = bit_and hash (bucket_count - 1)

-- The bucket where the probing of a text begins.
abbrev pub home : List ℕ → ℕ → ℕ
home text bucket_count = bucket_index (hash_text text) bucket_count

-- `(index + 1) & mask`
abbrev pub next_index : Buckets → ℕ → ℕ
next_index b index = bit_and (index + 1) (b.count - 1)

-- The loop of `lookup`, `intern` and `finalize`, for at most so many rounds; `text_of` is the text of a
-- handle.
unfoldable pub probe : (ℕ → List ℕ) → ℕ → List ℕ → Buckets → ℕ → Probe
probe text_of zero text b index = unfinished
probe text_of (suc rounds) text b index =
    let rest = probe text_of rounds text b (next_index b index) in
    if b.slots index == 0
    then free index
    else if text_eq (text_of (b.slots index)) text
    then found (b.slots index)
    else rest

-- The probe for a text, from its home.
abbrev pub probe_home : (ℕ → List ℕ) → List ℕ → Buckets → Probe
probe_home text_of text b = probe text_of (b.count) text b (home text (b.count))

-- The loop that looks for a bucket without a handle.
unfoldable pub place : ℕ → Buckets → ℕ → Option ℕ
place zero b index = none
place (suc rounds) b index =
    let rest = place rounds b (next_index b index) in
    if b.slots index == 0 then some index else rest

abbrev pub assign : Buckets → ℕ → ℕ → Buckets
assign b index handle = record b { slots = λ i. if i == index then handle else b.slots i }

abbrev pub empty_buckets : ℕ → Buckets
empty_buckets bucket_count = record { count = bucket_count; slots = λ _. 0 }
