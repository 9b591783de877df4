-- ===== src/Disk/Creating.antt =====
-- Files that are created.
use aphros.Base.{ℕ, ◌+◌, ◌≡◌, refl, List, [], ◌∷◌, ◌++◌, some, none, true, arith, if◌then◌else◌}
use aphros.Result.{ok}
use aphros.Disk.{Disk, FileName, same_name, set_bytes, find_name, open_file}

-- A name behind the others is found if none of them is the same.
pub find_name-snoc :
    (l : List (FileName × ℕ)) (m : FileName) (i : ℕ) (n : FileName)
    → find_name l n ≡ none
    → find_name (l ++ ((m, i) ∷ [])) n ≡ (if same_name m n then some i else none)
unfolding find_name
find_name-snoc [] m i n h = refl
find_name-snoc ((m', i') ∷ l) m i n h = ground (arith, find_name-snoc l m i n)

-- The disk on which a file has been created under the name `n`.
abbrev pub created : FileName → Disk → Disk
created n d = record (set_bytes d d.fresh []) {
  names = d.names ++ ((n, d.fresh) ∷ []);
  fresh = d.fresh + 1;
}

pub open_file_new :
    (n : FileName) (d : Disk)
    → d.present ≡ true
    → find_name d.names n ≡ none
    → open_file n d ≡ (ok d.fresh, created n d)
unfolding open_file
open_file_new n d there missing = ground arith
