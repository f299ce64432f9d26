-- ===== src/Hooks/MixedLineEnding.antt =====
-- crates/prek/src/hooks/pre_commit_hooks/mixed_line_ending.rs. The file is its bytes; errors of the file system are left
-- out. The crate `memchr` is a parameter; `find_byte` of the crate `bstr` is its search for one byte.
pub mod Count
pub mod Fix
mod Tests
use prek.Prelude.{
  ℕ, zero, suc, ◌+◌, ◌-◌, ◌*◌, ◌/◌, ◌%◌, ◌^◌, ◌≤◌, ◌<◌, min, max, ◌≡◌, refl, sym, fun_ext, ap, ap₂,
  subst, ◌∙◌, ◌≢◌, ◌↔◌, ◌⊎◌, inl, inr, Bool, true, false, not, ◌&&◌, ◌||◌, Option, none, some, List,
  [], ◌∷◌, ◌++◌, map, append_assoc, append-nil, arith, ltb, leb, ◌==◌, if◌then◌else◌, ltb→lt,
  ltb→le, lt→ltb, leb→le, ==_iff, Bool-cases, Option-cases, Bytes, codes, length, get_elem?, take,
  drop, any, all, length-append, take-append-drop, length-take, length-drop, take-split,
  take-length, take-append, take-append_add, drop-append_add, take-take, drop-take, drop-length,
  drop-drop, eq_bytes, eq_bytes_iff, All, All-append, All-append_inv, All-drop,
}
use prek.Hooks.Output.{HookOutput, FileRun, known, unchanged}
use prek.Hooks.Bytes.{Memchr, lf, cr, ends_with, is_empty, copy_within}

abbrev pub crlf_bytes : Bytes
crlf_bytes = codes "\r\n"

abbrev pub lf_bytes : Bytes
lf_bytes = codes "\n"

abbrev pub cr_bytes : Bytes
cr_bytes = codes "\r"

pub data FixMode : Type 0 where
  auto no to_lf to_crlf to_cr : FixMode

pub record LineEndingCounts : Type 0 where
  pub cr : ℕ
  pub crlf : ℕ
  pub lf : ℕ

-- `usize::from` of a test.
abbrev pub from_bool : Bool → ℕ
from_bool true = 1
from_bool false = 0

pub kind_count : LineEndingCounts → ℕ
kind_count c = from_bool (ltb 0 c.cr) + from_bool (ltb 0 c.crlf) + from_bool (ltb 0 c.lf)

pub has_any_except : LineEndingCounts → Bytes → Bool
has_any_except c ending =
    (not (eq_bytes ending cr_bytes) && ltb 0 c.cr)
    || ((not (eq_bytes ending crlf_bytes) && ltb 0 c.crlf)
        || (not (eq_bytes ending lf_bytes) && ltb 0 c.lf))

-- The three tests on a byte and the one before it.
abbrev pub is_cr : ℕ → ℕ → Bool
is_cr previous byte = byte == cr

abbrev pub is_lf : ℕ → ℕ → Bool
is_lf previous byte = byte == lf

abbrev pub is_crlf : ℕ → ℕ → Bool
is_crlf previous byte = previous == cr && byte == lf

-- The 64 counters of one kind, each a `u8`.
abbrev pub zeros : ℕ → List ℕ
zeros zero = []
zeros (suc n) = 0 ∷ zeros n

abbrev pub sum : List ℕ → ℕ
sum [] = 0
sum (n ∷ ns) = n + sum ns

abbrev pub u8_add : ℕ → ℕ → ℕ
u8_add a b = (a + b) % 2 ^ 8

-- The inner loop over a block, for one kind.
pub add_block : (ℕ → ℕ → Bool) → List ℕ → Bytes → Bytes → List ℕ
add_block test [] previous block = []
add_block test (n ∷ lanes) (p ∷ previous) (b ∷ block) =
    u8_add n (from_bool (test p b)) ∷ add_block test lanes previous block
add_block test (n ∷ lanes) [] block = n ∷ lanes
add_block test (n ∷ lanes) (p ∷ previous) [] = n ∷ lanes

pub record Lanes : Type 0 where
  pub cr_lanes : List ℕ
  pub lf_lanes : List ℕ
  pub crlf_lanes : List ℕ

-- The loop over the blocks of a batch and those one byte before.
pub add_blocks : Lanes → List Bytes → List Bytes → Lanes
unfolding add_block
add_blocks l [] previous = l
add_blocks l (block ∷ blocks) [] = l
add_blocks l (block ∷ blocks) (before ∷ previous) =
    add_blocks
      (record {
        cr_lanes = add_block is_cr l.cr_lanes before block;
        lf_lanes = add_block is_lf l.lf_lanes before block;
        crlf_lanes = add_block is_crlf l.crlf_lanes before block;
      })
      blocks previous

-- The loop over the rest of a batch, for one kind.
pub count_tail : (ℕ → ℕ → Bool) → Bytes → Bytes → ℕ
count_tail test [] tail = 0
count_tail test (p ∷ previous) [] = 0
count_tail test (p ∷ previous) (b ∷ tail) = from_bool (test p b) + count_tail test previous tail

-- `chunks(n)` and `as_chunks`, on fuel as there are bytes.
pub chunks : ℕ → ℕ → Bytes → List Bytes
chunks zero n bytes = []
chunks (suc fuel) n [] = []
chunks (suc fuel) n (b ∷ bytes) = take n (b ∷ bytes) ∷ chunks fuel n (drop n (b ∷ bytes))

abbrev push_chunk : Bytes → List Bytes × Bytes → List Bytes × Bytes
push_chunk chunk (blocks, tail) = (chunk ∷ blocks, tail)

pub as_chunks : ℕ → ℕ → Bytes → List Bytes × Bytes
as_chunks zero n bytes = ([], bytes)
as_chunks (suc fuel) n bytes =
    let rest = push_chunk (take n bytes) (as_chunks fuel n (drop n bytes)) in
    if ltb (length bytes) n then ([], bytes) else rest

-- The three sums, before the pairs are taken off.
pub record Sums : Type 0 where
  pub cr : ℕ
  pub lf : ℕ
  pub crlf : ℕ

abbrev pub lane_count : ℕ
lane_count = 64

abbrev no_lanes : Lanes
no_lanes = record {
  cr_lanes = zeros lane_count;
  lf_lanes = zeros lane_count;
  crlf_lanes = zeros lane_count;
}

-- One batch.
pub count_batch : Sums → Bytes → Bytes → Sums
unfolding add_blocks count_tail as_chunks
count_batch s batch previous =
    let (blocks, tail) = as_chunks (length batch) lane_count batch in
    let lanes = add_blocks no_lanes blocks (as_chunks (length previous) lane_count previous).0 in
    let before = drop (length blocks * lane_count) previous in
    record {
      cr = s.cr + sum lanes.cr_lanes + count_tail is_cr before tail;
      lf = s.lf + sum lanes.lf_lanes + count_tail is_lf before tail;
      crlf = s.crlf + sum lanes.crlf_lanes + count_tail is_crlf before tail;
    }

pub count_batches : Sums → List Bytes → List Bytes → Sums
unfolding count_batch
count_batches s [] previous = s
count_batches s (batch ∷ batches) [] = s
count_batches s (batch ∷ batches) (before ∷ previous) =
    count_batches (count_batch s batch before) batches previous

abbrev pub batch_size : ℕ
batch_size = 64 * 255

abbrev counts_of : Sums → LineEndingCounts
counts_of s = record { cr = s.cr - s.crlf; crlf = s.crlf; lf = s.lf - s.crlf }

-- The sums over all bytes; the batches of the bytes before begin with the first byte.
pub sum_line_endings : ℕ → Bytes → Sums
unfolding count_batches chunks
sum_line_endings first rest =
    count_batches (record { cr = from_bool (first == cr); lf = from_bool (first == lf); crlf = 0 })
      (chunks (length rest) batch_size rest) (chunks (suc (length rest)) batch_size (first ∷ rest))

pub count_line_endings : Bytes → LineEndingCounts
unfolding sum_line_endings
count_line_endings [] = record { cr = 0; crlf = 0; lf = 0 }
count_line_endings (first ∷ rest) = counts_of (sum_line_endings first rest)

unfoldable pub find_most_common_ending : LineEndingCounts → Bytes
find_most_common_ending c =
    if leb c.crlf c.lf && leb c.cr c.lf
    then lf_bytes
    else if leb c.cr c.crlf
    then crlf_bytes
    else cr_bytes
