-- ===== src/MemoryLog.antt =====
-- internal/server/log.go: the log in memory that the HTTP server keeps.
use aphros.Base.{
  ℕ, ◌+◌, ◌<◌, ◌≡◌, sym, ◌∙◌, some, none, List, [], ◌∷◌, ◌++◌, arith, leb, if◌then◌else◌, length,
  length-append, get_elem?, get_elem?-append_lt, get_elem?-append_length, Option,
}

pub record Entry : Type 0 where
  pub value : List ℕ
  pub offset : ℕ

abbrev pub new_log : List Entry
new_log = []

-- `none` is ErrOffsetNotFound.
unfoldable pub append : Entry → List Entry → ℕ × List Entry
append r l = let r' : Entry = record r { offset = length l } in (length l, l ++ (r' ∷ []))

unfoldable pub read : ℕ → List Entry → Option Entry
read offset l = if leb (length l) offset then none else get_elem? l offset

read_inside : (i : ℕ) (l : List Entry) → i < length l → read i l ≡ get_elem? l i
unfolding read
read_inside i l h = ground arith

read_beyond_end : (i : ℕ) (l : List Entry) {r : Entry} → read i l ≡ some r → i < length l
unfolding read
read_beyond_end i l h = ground arith

pub read_appended :
    (r : Entry) (l : List Entry)
    → read (append r l).0 (append r l).1 ≡ some (record r { offset = (append r l).0 })
unfolding append
read_appended r l =
    let r' : Entry = record r { offset = length l } in
    let count : length (l ++ (r' ∷ [])) ≡ length l + 1 =
      omega (arith, length-append {0} l (r' ∷ [])) in
    read_inside (length l) (l ++ (r' ∷ [])) (omega (arith, count)) ∙ get_elem?-append_length l r' []

-- Append returns an offset at which Read gives the record's value with that offset, and a Read that
-- found a record before still finds it.
pub memory_round_trip :
    (r : Entry) (l : List Entry) (i : ℕ) (x : Entry)
    → read i l ≡ some x
    → (read (append r l).0 (append r l).1 ≡ some (record r { offset = (append r l).0 }))
      × (read i (append r l).1 ≡ some x)
unfolding append
memory_round_trip r l i x found =
    let inside = read_beyond_end i l found in
    let r' : Entry = record r { offset = length l } in
    let count : length (l ++ (r' ∷ [])) ≡ length l + 1 =
      omega (arith, length-append {0} l (r' ∷ [])) in
    (
      unfold append in read_appended r l,
      read_inside i (l ++ (r' ∷ [])) (omega (arith, count))
          ∙ get_elem?-append_lt l (r' ∷ []) i inside
          ∙ sym (read_inside i l inside)
          ∙ found,
    )
