-- ===== src/Log/Restarting/Names.antt =====
-- The directory of a log: two files for each segment, and what setup makes of their names.
use mathlib.Core.List.{map}
use aphros.Base.{ℕ, ◌+◌, ◌≤◌, ◌<◌, ◌≡◌, refl, ap, ◌∙◌, some, List, [], ◌∷◌, arith, length}
use aphros.Api.{Record}
use aphros.Disk.{FileName, store_file, index_file, find_name}
use aphros.Segment.{Segment}
use aphros.Log.{parsed_offset, insert, sort}
use aphros.Log.Restarting.Opening.{AllNamed, AllFit, doubles}
use aphros.Log.Restarting.Reading.{Starts}

abbrev pub names_of : List Segment → List (FileName × ℕ)
names_of [] = []
names_of (s ∷ ss) =
    (store_file s.base_offset, s.store.ino) ∷ (index_file s.base_offset, s.index.ino) ∷ names_of ss

parsed_names :
    (ss : List Segment)
    → map parsed_offset (map (λ (e : FileName × ℕ). e.0) (names_of ss)) ≡ doubles ss
parsed_names [] = refl
parsed_names (s ∷ ss) = ap (λ l. s.base_offset ∷ s.base_offset ∷ l) (parsed_names ss)

insert_first : (a b : ℕ) (l : List ℕ) → a ≤ b → insert a (b ∷ l) ≡ a ∷ b ∷ l
unfolding insert
insert_first a b l h = ground arith

insert_twice :
    (m n : ℕ) (ss : List Segment) (rss : List (List Record))
    → m ≤ n
    → Starts n ss rss
    → insert m (insert m (doubles ss)) ≡ m ∷ m ∷ doubles ss
insert_twice m n [] rss h starts =
    let one : insert m [] ≡ m ∷ [] = unfold insert in refl in
    ap (insert m) one ∙ insert_first m m [] (omega arith)
insert_twice m n (s ∷ ss) [] h starts = absurd starts
insert_twice m n (s ∷ ss) (rs ∷ rss) h (starts, _) =
    let b = s.base_offset in
    ap (insert m) (insert_first m b (b ∷ doubles ss) (omega arith))
    ∙ insert_first m m (b ∷ b ∷ doubles ss) (omega arith)

sort-doubles :
    (n : ℕ) (ss : List Segment) (rss : List (List Record))
    → Starts n ss rss
    → sort (doubles ss) ≡ doubles ss
unfolding sort
sort-doubles n [] rss starts = refl
sort-doubles n (s ∷ ss) [] starts = absurd starts
sort-doubles n (s ∷ ss) (rs ∷ rss) (start, starts) =
    ap (λ l. insert s.base_offset (insert s.base_offset l))
      (sort-doubles (n + length rs) ss rss starts)
    ∙ insert_twice s.base_offset (n + length rs) ss rss (omega arith) starts

-- What setup makes of the names: the base of each segment twice, in order.
pub sorted_names :
    (n : ℕ) (ss : List Segment) (rss : List (List Record))
    → Starts n ss rss
    → sort (map parsed_offset (map (λ (e : FileName × ℕ). e.0) (names_of ss))) ≡ doubles ss
sorted_names n ss rss starts = ap sort (parsed_names ss) ∙ sort-doubles n ss rss starts

-- A name of a later segment is not among the two of an earlier one.
find_store :
    (b i j c : ℕ) (names : List (FileName × ℕ))
    → b < c
    → find_name ((store_file b, i) ∷ (index_file b, j) ∷ names) (store_file c)
      ≡ find_name names (store_file c)
unfolding find_name
find_store b i j c names h = ground arith

find_index :
    (b i j c : ℕ) (names : List (FileName × ℕ))
    → b < c
    → find_name ((store_file b, i) ∷ (index_file b, j) ∷ names) (index_file c)
      ≡ find_name names (index_file c)
unfolding find_name
find_index b i j c names h = ground arith

find_own :
    (b i j : ℕ) (names : List (FileName × ℕ))
    → (find_name ((store_file b, i) ∷ (index_file b, j) ∷ names) (store_file b) ≡ some i)
      × (find_name ((store_file b, i) ∷ (index_file b, j) ∷ names) (index_file b) ≡ some j)
unfolding find_name
find_own b i j names = (ground arith, ground arith)

AllNamed-later :
    (m b i j n : ℕ) (names : List (FileName × ℕ)) (ss : List Segment) (rss : List (List Record))
    → b < n
    → Starts n ss rss
    → AllFit m rss
    → AllNamed names ss
    → AllNamed ((store_file b, i) ∷ (index_file b, j) ∷ names) ss
AllNamed-later m b i j n names [] rss h starts room named = tt
AllNamed-later m b i j n names (s ∷ ss) [] h starts room named = absurd starts
AllNamed-later m b i j n names (s ∷ ss) (rs ∷ rss) h (start, starts) (filled, _, room)
      (named, named', rest) =
    (
      find_store b i j s.base_offset names (omega arith) ∙ named,
      find_index b i j s.base_offset names (omega arith) ∙ named',
      AllNamed-later m b i j (n + length rs) names ss rss (omega arith) starts room rest,
    )

-- Every segment finds its files in the directory.
pub names_of-AllNamed :
    (m n : ℕ) (ss : List Segment) (rss : List (List Record))
    → Starts n ss rss
    → AllFit m rss
    → AllNamed (names_of ss) ss
names_of-AllNamed m n [] rss starts room = tt
names_of-AllNamed m n (s ∷ ss) [] starts room = absurd starts
names_of-AllNamed m n (s ∷ ss) (rs ∷ rss) (start, starts) (filled, _, room) =
    let (own, own') = find_own s.base_offset s.store.ino s.index.ino (names_of ss) in
    (
      own,
      own',
      AllNamed-later m s.base_offset s.store.ino s.index.ino (n + length rs) (names_of ss) ss rss
          (omega arith) starts room (names_of-AllNamed m (n + length rs) ss rss starts room),
    )
