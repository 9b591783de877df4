-- ===== src/Store/Buffer.antt =====
-- The buffer of a store: what the file holds and what is buffered, read as one content.
use mathlib.Core.List.{append_assoc, append-nil}
use aphros.Base.{
  ℕ, ◌-◌, ◌≡◌, refl, sym, ap, ◌∙◌, subst, Bool-cases, inl, inr, leb, false, List, [], ◌∷◌, ◌++◌,
  arith, length, take, drop, take-append-drop,
}
use aphros.Result.{Exec, ok, >>=-ok}
use aphros.Disk.{set_bytes}
use aphros.Disk.Frame.{Touches, Touches-refl, Touches-trans}
use aphros.Store.{
  Env, buffer_size, set_buf, file_of, write_through, flush_pending, flush, write_rest, write_large,
  buf_write,
}

abbrev pub content : Env → List ℕ
content e = (file_of e).bytes ++ e.self.buf

-- Nothing has failed, and the environment lets the file be written.
pub record IsHealthy (e : Env) : Type 0 where
  pub not_failed : e.self.failed ≡ false
  pub is_open : e.self.closed ≡ false
  pub sound : (file_of e).faulty ≡ false

-- A step that succeeds from a healthy store and adds `p` to its content.
pub record Adds (p : List ℕ) (e e' : Env) : Type 0 where
  pub added : content e' ≡ content e ++ p
  pub healthy : IsHealthy e'
  pub ino_same : e'.self.ino ≡ e.self.ino
  pub size_same : e'.self.size ≡ e.self.size
  pub touches : Touches e.self.ino e.disk e'.disk

-- `m` succeeds on `e` with `a`, and leaves what `Adds p` says.
abbrev pub Succeeds : {A : Type 0} → Exec Env A → A → List ℕ → Env → Type 0
Succeeds m a p e = (e' : Env) × (m e ≡ (ok a, e')) × Adds p e e'

write_through_lem :
    (p : List ℕ) (e : Env)
    → IsHealthy e
    → e.self.buf ≡ []
    → (e' : Env) × (write_through p e ≡ (ok tt, e')) × Adds p e e' × (e'.self.buf ≡ [])
unfolding write_through
write_through_lem p e h empty = (
  record e { disk = set_bytes e.disk e.self.ino ((file_of e).bytes ++ p) },
  ground arith,
  record {
    added = ground (arith, append-nil (file_of e).bytes, append-nil ((file_of e).bytes ++ p));
    healthy = ground arith;
    ino_same = refl;
    size_same = refl;
    touches = ground arith;
  },
  empty,
)

pub Adds-trans : {p q : List ℕ} {a b c : Env} → Adds p a b → Adds q b c → Adds (p ++ q) a c
Adds-trans {p} {q} {a} {b} {c} h k = record {
  added = k.added ∙ rw h.added (append_assoc (content a) p q);
  healthy = k.healthy;
  ino_same = k.ino_same ∙ h.ino_same;
  size_same = k.size_same ∙ h.size_same;
  touches = Touches-trans h.touches (subst (λ i. Touches i b.disk c.disk) h.ino_same k.touches);
}

Adds-set_buf : (p : List ℕ) (e : Env) → IsHealthy e → Adds p e (set_buf (e.self.buf ++ p) e)
Adds-set_buf p e h = record {
  added = sym (append_assoc (file_of e).bytes e.self.buf p);
  healthy = record { not_failed = h.not_failed; is_open = h.is_open; sound = h.sound };
  ino_same = refl;
  size_same = refl;
  touches = Touches-refl _ _;
}

flush_pending_lem :
    (bs : List ℕ) (e : Env)
    → IsHealthy e
    → e.self.buf ≡ bs
    → (e' : Env) × (flush_pending bs e ≡ (ok tt, e')) × Adds [] e e' × (e'.self.buf ≡ [])
unfolding flush_pending write_through
flush_pending_lem [] e h same = (
  e,
  refl,
  record {
    added = sym (append-nil (content e));
    healthy = h;
    ino_same = refl;
    size_same = refl;
    touches = Touches-refl _ _;
  },
  same,
)
flush_pending_lem (b ∷ bs) e h same = (
  record {
    self = record e.self { buf = [] };
    disk = set_bytes e.disk e.self.ino ((file_of e).bytes ++ (b ∷ bs));
  },
  ground arith,
  record {
    added = ground (arith, append-nil ((file_of e).bytes ++ (b ∷ bs)));
    healthy = ground arith;
    ino_same = refl;
    size_same = refl;
    touches = ground arith;
  },
  refl,
)

-- A flush writes out what is buffered, and the content stays.
pub flush_lem :
    (e : Env)
    → IsHealthy e
    → (e' : Env) × (flush e ≡ (ok tt, e')) × Adds [] e e' × (e'.self.buf ≡ [])
unfolding flush
flush_lem e h =
    let (e', runs, adds, empty) = flush_pending_lem e.self.buf e h refl in
    (e', ground (arith, runs), adds, empty)

write_rest_lem :
    (q : List ℕ) (e : Env) → IsHealthy e → e.self.buf ≡ [] → Succeeds (write_rest q) tt q e
unfolding write_rest
write_rest_lem q e h empty = elim (Bool-cases (leb (length q) buffer_size)) [
  | inl small ↦ (set_buf q e, rw small, rw (ap (λ b. b ++ q) empty) at (Adds-set_buf q e h))
  | inr large ↦ let (e', runs, adds, _) = write_through_lem q e h empty in (e', rw large runs, adds)
]

write_large_lem :
    (p bs : List ℕ) (e : Env) → IsHealthy e → e.self.buf ≡ bs → Succeeds (write_large p bs) tt p e
unfolding write_large
write_large_lem p [] e h same =
    let (e', runs, adds, _) = write_through_lem p e h same in (e', runs, adds)
write_large_lem p (b ∷ bs) e h same =
    let room = buffer_size - length (b ∷ bs) in
    let filled = set_buf ((b ∷ bs) ++ take room p) e in
    let fills : Adds (take room p) e filled =
      rw (ap (λ q. q ++ take room p) same) at (Adds-set_buf (take room p) e h) in
    let (e₁, runs₁, adds₁, empty) = flush_lem filled fills.healthy in
    let (e₂, runs₂, adds₂) = write_rest_lem (drop room p) e₁ adds₁.healthy empty in
    (
      e₂,
      >>=-ok flush _ runs₁ ∙ runs₂,
      subst (λ q. Adds q e e₂) (take-append-drop room p)
          (Adds-trans fills (Adds-trans adds₁ adds₂)),
    )

-- A write to a healthy buffer succeeds, and its bytes come behind the content.
pub buf_write_lem : (p : List ℕ) (e : Env) → IsHealthy e → Succeeds (buf_write p) tt p e
unfolding buf_write
buf_write_lem p e h = elim (Bool-cases (leb (length p) (buffer_size - length e.self.buf))) [
  | inl small ↦ (set_buf (e.self.buf ++ p) e, ground arith, Adds-set_buf p e h)
  | inr large ↦
      let (e', runs, adds) = write_large_lem p e.self.buf e h refl in
      (e', ground (arith, runs), adds)
]
