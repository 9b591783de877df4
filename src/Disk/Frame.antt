-- ===== src/Disk/Frame.antt =====
-- What an operation on one file leaves alone.
use native.Mathlib.Decide.{ℕ_discrete}
use aphros.Base.{
  ◌==◌, Bool-cases, inl, inr, ℕ, ◌≡◌, ◌≢◌, refl, ap, ◌∙◌, List, some, true, false, arith,
}
use aphros.Result.{ok}
use aphros.Disk.{Disk, FileName, set_bytes, find_name, open_file}

-- Only the bytes of the file `i` differ.
pub record Touches (i : ℕ) (d d' : Disk) : Type 0 where
  pub others : (j : ℕ) → i ≢ j → d'.node j ≡ d.node j
  pub faulty_same : (d'.node i).faulty ≡ (d.node i).faulty
  pub names_same : d'.names ≡ d.names
  pub fresh_same : d'.fresh ≡ d.fresh
  pub present_same : d'.present ≡ d.present

pub Touches-refl : (i : ℕ) (d : Disk) → Touches i d d
Touches-refl i d = record {
  others = λ j h. refl;
  faulty_same = refl;
  names_same = refl;
  fresh_same = refl;
  present_same = refl;
}

pub Touches-trans : {i : ℕ} {a b c : Disk} → Touches i a b → Touches i b c → Touches i a c
Touches-trans h k = record {
  others = λ j ne. k.others j ne ∙ h.others j ne;
  faulty_same = k.faulty_same ∙ h.faulty_same;
  names_same = k.names_same ∙ h.names_same;
  fresh_same = k.fresh_same ∙ h.fresh_same;
  present_same = k.present_same ∙ h.present_same;
}

pub set_bytes_self : (d : Disk) (i : ℕ) (bs : List ℕ) → ((set_bytes d i bs).node i).bytes ≡ bs
set_bytes_self d i bs = ground arith

pub set_bytes-Touches : (d : Disk) (i : ℕ) (bs : List ℕ) → Touches i d (set_bytes d i bs)
set_bytes-Touches d i bs = ground arith

-- Writing what a file has already changes no file.
pub set_bytes_same :
    (d : Disk) (i : ℕ) (bs : List ℕ)
    → bs ≡ (d.node i).bytes
    → (l : ℕ) → (set_bytes d i bs).node l ≡ d.node l
set_bytes_same d i bs same l =
    let whole : record { bytes = bs; faulty = (d.node i).faulty } ≡ d.node i =
      ap (λ b. record (d.node i) { bytes = b }) same in
    elim (Bool-cases (i == l)) [
      | inl here ↦ let e : i ≡ l = ground arith in rw here (whole ∙ ap d.node e)
      | inr other ↦ rw other refl
    ]

-- Only the bytes of the files `i` and `j` differ.
pub record TouchesTwo (i j : ℕ) (d d' : Disk) : Type 0 where
  pub others : (l : ℕ) → i ≢ l → j ≢ l → d'.node l ≡ d.node l
  pub faulty_same : (l : ℕ) → (d'.node l).faulty ≡ (d.node l).faulty
  pub names_same : d'.names ≡ d.names
  pub fresh_same : d'.fresh ≡ d.fresh
  pub present_same : d'.present ≡ d.present

Touches-faulty :
    {i : ℕ} {d d' : Disk} → Touches i d d' → (l : ℕ) → (d'.node l).faulty ≡ (d.node l).faulty
Touches-faulty {i} h l = elim (ℕ_discrete i l) [
  | yes e ↦ rw (← e) h.faulty_same
  | no ne ↦ ap (λ f. f.faulty) (h.others l ne)
]

pub Touches-first : {i : ℕ} (j : ℕ) {d d' : Disk} → Touches i d d' → TouchesTwo i j d d'
Touches-first j h = record {
  others = λ l n m. h.others l n;
  faulty_same = Touches-faulty h;
  names_same = h.names_same;
  fresh_same = h.fresh_same;
  present_same = h.present_same;
}

pub Touches-second : (i : ℕ) {j : ℕ} {d d' : Disk} → Touches j d d' → TouchesTwo i j d d'
Touches-second i h = record {
  others = λ l n m. h.others l m;
  faulty_same = Touches-faulty h;
  names_same = h.names_same;
  fresh_same = h.fresh_same;
  present_same = h.present_same;
}

pub TouchesTwo-trans :
    {i j : ℕ} {a b c : Disk} → TouchesTwo i j a b → TouchesTwo i j b c → TouchesTwo i j a c
TouchesTwo-trans h k = record {
  others = λ l n m. k.others l n m ∙ h.others l n m;
  faulty_same = λ l. k.faulty_same l ∙ h.faulty_same l;
  names_same = k.names_same ∙ h.names_same;
  fresh_same = k.fresh_same ∙ h.fresh_same;
  present_same = k.present_same ∙ h.present_same;
}

pub TouchesTwo-refl : (i j : ℕ) (d : Disk) → TouchesTwo i j d d
TouchesTwo-refl i j d = Touches-first j (Touches-refl i d)

-- Opening a file that is there changes nothing.
pub open_file_found :
    (n : FileName) (i : ℕ) (d : Disk)
    → d.present ≡ true
    → find_name d.names n ≡ some i
    → (d.node i).faulty ≡ false
    → open_file n d ≡ (ok i, d)
unfolding open_file
open_file_found n i d there found sound = ground arith
