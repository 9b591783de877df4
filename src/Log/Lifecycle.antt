-- ===== src/Log/Lifecycle.antt =====
-- Remove, Reset and Truncate.
use aphros.Base.{ℕ, ◌≡◌, refl, ap, ◌∙◌, true, false, List, [], ◌∷◌, inl, inr, arith}
use aphros.Result.{Result-cases, Error, not_exist, panic, ok, err, >>=-ok, >>=-err}
use aphros.Disk.{Disk, read_dir, remove_all}
use aphros.Segment
use aphros.Segment.{Segment}
use aphros.Log.{
  Env, close, remove, setup, reset, expired, truncate_in, truncate, highest_offset, lowest_offset,
}

-- With the directory gone, setup fails.
setup_absent : (e : Env) → e.disk.present ≡ false → setup e ≡ (err not_exist, e)
unfolding setup read_dir
setup_absent e gone = rw gone refl

abbrev gone : Env → Env
gone e = record {
  self = e.self;
  disk = record { node = e.disk.node; names = []; fresh = e.disk.fresh; present = false };
}

-- Whatever the log is, Reset returns an error.
pub reset_never : (e : Env) → (x : Error) × (e' : Env) × (reset e ≡ (err x, e'))
unfolding reset remove remove_all
reset_never e = elim (Result-cases (close e).0) [
  | inl (_, closes) ↦
      let removed : remove e ≡ (ok tt, gone (close e).1) =
        >>=-ok close _ (ap (λ r. (r, (close e).1)) closes) in
      (not_exist, gone (close e).1, >>=-ok remove (λ _. setup) removed ∙ setup_absent _ refl)
  | inr (x, fails) ↦
      let refused : remove e ≡ (err x, (close e).1) =
        >>=-err close _ (ap (λ r. (r, (close e).1)) fails) in
      (x, (close e).1, >>=-err remove (λ _. setup) refused)
]

-- The segments of which Truncate keeps none.
abbrev pub AllExpired : ℕ → List Segment → Type 0
AllExpired lowest [] = Unit
AllExpired lowest (s ∷ ss) = (expired lowest s ≡ true) × AllExpired lowest ss

kept_none :
    (lowest : ℕ) (ss kept : List Segment) (d : Disk)
    → AllExpired lowest ss
    → (truncate_in lowest ss d).0 ≡ ok kept
    → kept ≡ []
unfolding truncate_in
kept_none lowest [] kept d h runs = cc
kept_none lowest (s ∷ ss) kept d (h, hs) runs =
    ground
      (arith, kept_none lowest ss kept (Segment.remove (record { self = s; disk = d })).1.disk hs)

kept_segments :
    (lowest : ℕ) (e e' : Env)
    → truncate lowest e ≡ (ok tt, e')
    → (truncate_in lowest e.self.segments e.disk).0 ≡ ok e'.self.segments
unfolding truncate
kept_segments lowest e e' runs = ground arith

-- A Truncate that removes every segment leaves none, the active one neither: the lowest and the
-- highest offset panic from then on.
pub truncate_all :
    (lowest : ℕ) (e e' : Env)
    → AllExpired lowest e.self.segments
    → truncate lowest e ≡ (ok tt, e')
    → (e'.self.segments ≡ [])
      × (lowest_offset e' ≡ (err panic, e'))
      × (highest_offset e' ≡ (err panic, e'))
unfolding lowest_offset highest_offset
truncate_all lowest e e' h runs =
    let nil =
      kept_none lowest e.self.segments e'.self.segments e.disk h (kept_segments lowest e e' runs) in
    (nil, rw nil refl, rw nil refl)
