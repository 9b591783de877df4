-- ===== src/Segment/Removing.antt =====
-- A segment closed, and its files removed.
use aphros.Base.{
  ℕ, ◌≡◌, ◌≢◌, refl, sym, ap, ◌∙◌, true, false, ==_iff, Bool-cases, inl, inr, some, List, [], ◌∷◌,
  arith,
}
use aphros.Result.{Result, ok, Exec, ◌>>◌, >>=-ok}
use aphros.Api.{Record, Codec}
use aphros.Disk.{
  Disk, FileName, foreign, same_name, find_name, drop_name, remove_file, store_file, index_file,
}
use aphros.Segment.{Env, close, remove, on_disk}
use aphros.Segment.Contents.{Holds}
use aphros.Segment.Closing.{close_lem}

-- Both names are in the directory, and the index's file is not faulty.
pub record CanRemove (d : Disk) (base index_ino : ℕ) : Type 0 where
  pub store_at : ℕ
  pub index_at : ℕ
  pub store_named : find_name d.names (store_file base) ≡ some store_at
  pub index_named : find_name d.names (index_file base) ≡ some index_at
  pub index_sound : (d.node index_ino).faulty ≡ false

-- What removing the segment with the files `i` and `j` leaves alone.
pub record Removed (base i j : ℕ) (d d' : Disk) : Type 0 where
  pub others : (l : ℕ) → i ≢ l → j ≢ l → d'.node l ≡ d.node l
  pub faulty_same : (l : ℕ) → (d'.node l).faulty ≡ (d.node l).faulty
  pub names_left : d'.names ≡ drop_name (drop_name d.names (index_file base)) (store_file base)

-- Dropping a name leaves the others.
find_name-drop_name :
    (l : List (FileName × ℕ)) (n m : FileName)
    → ((x : FileName) → same_name x n ≡ true → same_name x m ≡ true → ⊥)
    → find_name (drop_name l n) m ≡ find_name l m
unfolding find_name drop_name
find_name-drop_name [] n m apart = refl
find_name-drop_name ((x, i) ∷ l) n m apart = elim (Bool-cases (same_name x n)) [
  | inl drops ↦ elim (Bool-cases (same_name x m)) [
    | inl both ↦ absurd (apart x drops both)
    | inr other ↦ rw drops (rw other refl)
  ]
  | inr keeps ↦ elim (Bool-cases (same_name x m)) [
    | inl here ↦ rw keeps (rw here refl)
    | inr other ↦ rw keeps (rw other (find_name-drop_name l n m apart))
  ]
]

remove_file_lem :
    (n : FileName) (i : ℕ) (d : Disk)
    → find_name d.names n ≡ some i
    → remove_file n d ≡ (ok tt, record d { names = drop_name d.names n })
unfolding remove_file
remove_file_lem n i d found = ground arith

other_kind :
    (a b : ℕ) (x : FileName)
    → same_name x (index_file a) ≡ true
    → same_name x (store_file b) ≡ true
    → ⊥
other_kind a b (store_file c) one two = cc
other_kind a b (index_file c) one two = cc
other_kind a b (foreign c) one two = cc

same_kind :
    (a b : ℕ)
    → a ≢ b
    → (x : FileName) → same_name x (store_file a) ≡ true
    → same_name x (store_file b) ≡ true
    → ⊥
same_kind a b apart (store_file c) one two =
    absurd (apart (sym ((==_iff c a).0 one) ∙ (==_iff c b).0 two))
same_kind a b apart (index_file c) one two = cc
same_kind a b apart (foreign c) one two = cc

same_kind' :
    (a b : ℕ)
    → a ≢ b
    → (x : FileName) → same_name x (index_file a) ≡ true
    → same_name x (index_file b) ≡ true
    → ⊥
same_kind' a b apart (index_file c) one two =
    absurd (apart (sym ((==_iff c a).0 one) ∙ (==_iff c b).0 two))
same_kind' a b apart (store_file c) one two = cc
same_kind' a b apart (foreign c) one two = cc

on_disk-ok :
    {A : Type 0} (m : Exec Disk A) (e : Env) {a : A} {d : Disk}
    → m e.disk ≡ (ok a, d)
    → on_disk m e ≡ (ok a, record { self = e.self; disk = d })
on_disk-ok {A} m e h = ap (λ (x : Result A × Disk). (x.0, record { self = e.self; disk = x.1 })) h

-- Remove of a segment that holds records closes it and drops its two names, and touches no other file.
pub remove_lem :
    (k : Codec) (e : Env) (rs : List Record)
    → Holds k e rs
    → CanRemove e.disk e.self.base_offset e.self.index.ino
    → (t : Env) × (remove e ≡ (ok tt, t))
      × Removed e.self.base_offset e.self.store.ino e.self.index.ino e.disk t.disk
unfolding remove
remove_lem k e rs h can =
    let (e₁, closes, _, _, touches, base) = close_lem k e rs h can.index_sound in
    let b = e.self.base_offset in
    let names = drop_name e.disk.names (index_file b) in
    let d₁ : Disk = record e₁.disk { names = names } in
    let d₂ : Disk = record e₁.disk { names = drop_name names (store_file b) } in
    let still : find_name names (store_file b) ≡ some can.store_at =
      find_name-drop_name e.disk.names (index_file b) (store_file b) (other_kind b b)
      ∙ can.store_named in
    let first : remove_file (index_file b) e₁.disk ≡ (ok tt, d₁) =
      remove_file_lem (index_file b) can.index_at e₁.disk
        (ap (λ l. find_name l (index_file b)) touches.names_same ∙ can.index_named)
      ∙ ap (λ l. (ok tt, record e₁.disk { names = drop_name l (index_file b) }))
          touches.names_same in
    let second : remove_file (store_file b) d₁ ≡ (ok tt, d₂) =
      remove_file_lem (store_file b) can.store_at d₁ still in
    (
      record { self = e₁.self; disk = d₂ },
      >>=-ok close _ closes
          ∙ ap
              (λ m.
                (on_disk (remove_file (index_file m)) >> on_disk (remove_file (store_file m))) e₁)
              base
          ∙ >>=-ok (on_disk (remove_file (index_file b))) _
              (on_disk-ok (remove_file (index_file b)) e₁ first)
          ∙ on_disk-ok (remove_file (store_file b)) (record { self = e₁.self; disk = d₁ }) second,
      record { others = touches.others; faulty_same = touches.faulty_same; names_left = refl },
    )

-- Another segment can be removed still.
pub CanRemove-kept :
    (base i j : ℕ) (d d' : Disk) (base' ino' : ℕ)
    → Removed base i j d d'
    → base ≢ base'
    → CanRemove d base' ino'
    → CanRemove d' base' ino'
CanRemove-kept base i j d d' base' ino' gone apart can = record {
  store_at = can.store_at;
  index_at = can.index_at;
  store_named =
      ap (λ l. find_name l (store_file base')) gone.names_left
      ∙ find_name-drop_name (drop_name d.names (index_file base)) (store_file base)
          (store_file base') (same_kind base base' apart)
      ∙ find_name-drop_name d.names (index_file base) (store_file base') (other_kind base base')
      ∙ can.store_named;
  index_named =
      ap (λ l. find_name l (index_file base')) gone.names_left
      ∙ find_name-drop_name (drop_name d.names (index_file base)) (store_file base)
          (index_file base') (λ x one two. other_kind base' base x two one)
      ∙ find_name-drop_name d.names (index_file base) (index_file base')
          (same_kind' base base' apart)
      ∙ can.index_named;
  index_sound = gone.faulty_same ino' ∙ can.index_sound;
}
