-- ===== src/Segment/Contents.antt =====
-- What a segment holds: a list of records, the first at the base offset.
use mathlib.Core.List.{append-nil}
use mathlib.Core.Path.{subst₂}
use aphros.Base.{
  ℕ, ◌+◌, ◌-◌, ◌^◌, ◌≤◌, ◌<◌, ◌≡◌, ◌≢◌, refl, sym, ap, ◌∙◌, subst, some, List, [], ◌++◌, arith,
  length, get_elem?, get_elem?-lt, u64,
}
use aphros.Result.{Error, Exec, Result, ◌>>=◌, ok, err, >>=-ok}
use aphros.Api.{Record, Codec}
use aphros.Disk.Frame.{Touches, TouchesTwo, Touches-first, TouchesTwo-trans}
use aphros.Disk.{Disk}
use aphros.Store
use aphros.Store.{len_width, max_alloc}
use aphros.Store.Buffer.{content}
use aphros.Store.Records.{HoldsAt, HoldsAt-append, HoldsAt-framed, IsStore, framed}
use aphros.Store.Records
use aphros.Index
use aphros.Index.{entry_width}
use aphros.Index.Entries.{IsIndex, HasEntry}
use aphros.Index.Entries
use aphros.Segment.{
  Segment, Env, store_env, index_env, with_store, with_index, on_store, on_index, or_bad_record,
  read, read_stored,
}

-- The bytes of a store hold, where entry `i` of the index says, a record that decodes to `r`.
pub record Stored (k : Codec) (bytes entries : List ℕ) (i : ℕ) (r : Record) : Type 0 where
  pub position : ℕ
  pub encoded : List ℕ
  pub entry : HasEntry entries i i position
  pub at : HoldsAt bytes position encoded
  pub decoded : k.unmarshal encoded ≡ some r
  pub nonempty : 0 < length encoded
  pub small : length encoded ≤ max_alloc

abbrev pub store_bytes : Env → List ℕ
store_bytes e = content (store_env e)

abbrev pub index_bytes : Env → List ℕ
index_bytes e = (Index.file_of (index_env e)).bytes

-- A segment that holds the records `rs`.
pub record Holds (k : Codec) (e : Env) (rs : List Record) : Type 0 where
  pub store_ok : IsStore (store_env e)
  pub bounded : length (store_bytes e) < 2 ^ 63
  pub index_ok : IsIndex (index_env e) (length rs)
  pub apart : e.self.store.ino ≢ e.self.index.ino
  pub next : e.self.next_offset ≡ e.self.base_offset + length rs
  pub no_wrap : e.self.base_offset + length rs < 2 ^ 64
  pub stored :
      (i : ℕ) (r : Record) → get_elem? rs i ≡ some r → Stored k (store_bytes e) (index_bytes e) i r

-- What a step leaves as it was.
pub record Keeps (e e' : Env) : Type 0 where
  pub base_same : e'.self.base_offset ≡ e.self.base_offset
  pub config_same : e'.self.config ≡ e.self.config
  pub store_ino_same : e'.self.store.ino ≡ e.self.store.ino
  pub index_ino_same : e'.self.index.ino ≡ e.self.index.ino
  pub mapped_same : e'.self.index.mapped ≡ e.self.index.mapped
  pub touches : TouchesTwo e.self.store.ino e.self.index.ino e.disk e'.disk

pub Keeps-trans : {a b c : Env} → Keeps a b → Keeps b c → Keeps a c
Keeps-trans {a} {b} {c} h g = record {
  base_same = g.base_same ∙ h.base_same;
  config_same = g.config_same ∙ h.config_same;
  store_ino_same = g.store_ino_same ∙ h.store_ino_same;
  index_ino_same = g.index_ino_same ∙ h.index_ino_same;
  mapped_same = g.mapped_same ∙ h.mapped_same;
  touches =
      TouchesTwo-trans h.touches
        (subst₂ (λ i j. TouchesTwo i j b.disk c.disk) h.store_ino_same h.index_ino_same g.touches);
}

pub on_index-ok :
    {A : Type 0} (m : Exec Index.Env A) (e : Env) {a : A} {t : Index.Env}
    → m (index_env e) ≡ (ok a, t)
    → on_index m e ≡ (ok a, with_index e t)
on_index-ok {A} m e h = ap (λ (x : Result A × Index.Env). (x.0, with_index e x.1)) h

pub on_index-err :
    {A : Type 0} (m : Exec Index.Env A) (e : Env) {x : Error} {t : Index.Env}
    → m (index_env e) ≡ (err x, t)
    → on_index m e ≡ (err x, with_index e t)
on_index-err {A} m e h = ap (λ (y : Result A × Index.Env). (y.0, with_index e y.1)) h

pub on_store-ok :
    {A : Type 0} (m : Exec Store.Env A) (e : Env) {a : A} {t : Store.Env}
    → m (store_env e) ≡ (ok a, t)
    → on_store m e ≡ (ok a, with_store e t)
on_store-ok {A} m e h = ap (λ (x : Result A × Store.Env). (x.0, with_store e x.1)) h

Stored-append :
    {k : Codec} {bytes entries : List ℕ} {i : ℕ} {r : Record} (more : List ℕ)
    → Stored k bytes entries i r
    → Stored k (bytes ++ more) entries i r
Stored-append more h = record {
  position = h.position;
  encoded = h.encoded;
  entry = h.entry;
  at = HoldsAt-append more h.at;
  decoded = h.decoded;
  nonempty = h.nonempty;
  small = h.small;
}

-- A step of the store that adds bytes behind the others: the segment holds what it held.
module _ (k : Codec) (e : Env) (t : Store.Env) where
  pub Holds-with_store :
      (rs : List Record) (q : List ℕ)
      → Holds k e rs
      → content t ≡ store_bytes e ++ q
      → IsStore t
      → length (content t) < 2 ^ 63
      → Touches e.self.store.ino e.disk t.disk
      → t.self.ino ≡ e.self.store.ino
      → Holds k (with_store e t) rs
  Holds-with_store rs q h grown store_ok bounded touches same =
      let index_same = touches.others e.self.index.ino h.apart in
      record {
        store_ok = store_ok;
        bounded = bounded;
        index_ok =
            Entries.IsIndex-kept e.self.index (length rs) e.disk t.disk index_same h.index_ok;
        apart = λ p. h.apart (sym same ∙ p);
        next = h.next;
        no_wrap = h.no_wrap;
        stored = λ i r found.
            subst (λ b. Stored k b (t.disk.node e.self.index.ino).bytes i r) (sym grown)
              (subst (λ f. Stored k (store_bytes e ++ q) f.bytes i r) (sym index_same)
                (Stored-append q (h.stored i r found)));
      }

  pub Keeps-with_store :
      Touches e.self.store.ino e.disk t.disk
      → t.self.ino ≡ e.self.store.ino
      → Keeps e (with_store e t)
  Keeps-with_store touches same = record {
    base_same = refl;
    config_same = refl;
    store_ino_same = same;
    index_ino_same = refl;
    mapped_same = refl;
    touches = Touches-first e.self.index.ino touches;
  }

-- A segment looks at no files but its own.
pub Holds-kept :
    (k : Codec) (s : Segment) (rs : List Record) (d d' : Disk)
    → d'.node s.store.ino ≡ d.node s.store.ino
    → d'.node s.index.ino ≡ d.node s.index.ino
    → Holds k (record { self = s; disk = d }) rs
    → Holds k (record { self = s; disk = d' }) rs
Holds-kept k s rs d d' store_same index_same h =
    let bytes_same = Records.content-kept s.store d d' store_same in
    record {
      store_ok = Records.IsStore-kept s.store d d' store_same h.store_ok;
      bounded = subst (λ b. length b < 2 ^ 63) (sym bytes_same) h.bounded;
      index_ok = Entries.IsIndex-kept s.index (length rs) d d' index_same h.index_ok;
      apart = h.apart;
      next = h.next;
      no_wrap = h.no_wrap;
      stored = λ i r found.
          subst₂ (λ b f. Stored k b f.bytes i r) (sym bytes_same) (sym index_same)
            (h.stored i r found);
    }

pub Holds-same :
    {k : Codec} {rs : List Record} {s s' : Segment} {d d' : Disk}
    → ◌≡◌ {A = Result Segment × Disk} (ok s, d) (ok s', d')
    → Holds k (record { self = s; disk = d }) rs
    → Holds k (record { self = s'; disk = d' }) rs
Holds-same {k} {rs} {s} {s'} {d} {d'} same h =
    let made : ok s ≡ ok s' = ap (λ x. x.0) same in
    let s_same : s ≡ s' = cc in
    subst₂ (λ a b. Holds k (record { self = a; disk = b }) rs) s_same (ap (λ x. x.1) same) h

-- Read of an offset that the segment holds returns its record, and the segment holds the same.
pub read-Holds :
    (k : Codec) (e : Env) (rs : List Record) (i : ℕ) (r : Record)
    → Holds k e rs
    → get_elem? rs i ≡ some r
    → (e' : Env) × (read k (e.self.base_offset + i) e ≡ (ok r, e')) × Holds k e' rs × Keeps e e'
unfolding read read_stored
read-Holds k e rs i r h found =
    let here = h.stored i r found in
    let below = get_elem?-lt rs i found in
    let relative : u64 (e.self.base_offset + i + 2 ^ 64 - e.self.base_offset) ≡ i =
      omega (arith, h.no_wrap, below, h.index_ok.small, h.index_ok.within, h.index_ok.sized) in
    let looked =
      Entries.read-HasEntry i i here.position (length rs) (index_env e) h.index_ok below here.entry
        (omega (arith, below, h.index_ok.small, h.index_ok.within, h.index_ok.sized))
        (omega (arith, here.at.within, h.bounded)) in
    let (t, runs, adds) =
      Records.read-HoldsAt here.position here.encoded (store_env e) h.store_ok.healthy here.at
        here.nonempty here.small h.bounded in
    let same : content t ≡ store_bytes e ++ [] = adds.added in
    let length_same : length (content t) ≡ length (store_bytes e) =
      ap (length {A = ℕ}) (same ∙ append-nil (store_bytes e)) in
    (
      with_store e t,
      ap (λ n. (on_index (Index.read n) >>= λ p. read_stored k p.1) e) relative
          ∙ >>=-ok (on_index (Index.read i)) _ (on_index-ok (Index.read i) e looked)
          ∙ >>=-ok (on_store (Store.read here.position)) _
              (on_store-ok (Store.read here.position) e runs)
          ∙ ap (λ o. (or_bad_record o, with_store e t)) here.decoded,
      Holds-with_store k e t rs [] h same
          (record {
            healthy = adds.healthy;
            sized = omega (arith, length_same, adds.size_same, h.store_ok.sized);
          })
          (omega (arith, length_same, h.bounded)) adds.touches adds.ino_same,
      Keeps-with_store k e t adds.touches adds.ino_same,
    )
